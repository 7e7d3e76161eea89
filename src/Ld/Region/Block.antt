-- ===== src/Ld/Region/Block.antt =====
-- What a region stands for, apart from its links; chains of regions along `next`.
use irid.Base.{
  ℕ, ◌≡◌, ◌≢◌, refl, ◌∙◌, Bool, true, false, ◌||◌, Option, none, some, List, [], ◌∷◌, ◌++◌, arith,
  ◌==◌, inl, inr, ==_iff, Bool-cases,
}
use irid.Ld.Store.{Ptr, null, RegionType, Region, Cells}

pub record Block : Type 0 where
  pub kind : RegionType
  pub start : ℕ
  pub size : ℕ
  pub section : Option ℕ

abbrev pub view : Region → Block
view r = record { kind = r.kind; start = r.start; size = r.size; section = r.section }

abbrev pub region : Ptr → Ptr → Block → Region
region next prev b = record {
  next = next;
  prev = prev;
  kind = b.kind;
  start = b.start;
  size = b.size;
  section = b.section;
}

-- The regions of a chain, each with its address.
abbrev pub Slots : Type 0
Slots = List (Ptr × Block)

abbrev pub has : Ptr → Slots → Bool
has a [] = false
has a ((p, _) ∷ xs) = (a == p) || has a xs

abbrev pub last_or : Ptr → Slots → Ptr
last_or d [] = d
last_or d ((p, _) ∷ xs) = last_or p xs

-- `p` holds block `b`, `next` leads to `q` and `prev` to `w`.
pub record Points (h : Cells) (p q w : Ptr) (b : Block) : Type 0 where
  pub ne_null : p ≢ null
  pub holds : h p ≡ some (region q w b)

-- From `p` the `next` links lead through the distinct regions `xs` to `end`.
pub data Seg (h : Cells) (end : Ptr) : Ptr → Slots → Type 0 where
  nil : Seg h end end []
  cons :
      {p q w : Ptr} {b : Block} {xs : Slots}
      → Points h p q w b
      → has p xs ≡ false
      → Seg h end q xs
      → Seg h end p ((p, b) ∷ xs)

pub Points-frame :
    {h g : Cells} {p q w : Ptr} {b : Block} → Points h p q w b → g p ≡ h p → Points g p q w b
Points-frame e same = record { ne_null = e.ne_null; holds = same ∙ e.holds }

module _ {h g : Cells} {end : Ptr} where
  -- A chain survives any change elsewhere.
  pub Seg-frame :
      {p : Ptr} {xs : Slots}
      → Seg h end p xs
      → ((a : Ptr) → has a xs ≡ true → g a ≡ h a)
      → Seg g end p xs
  Seg-frame nil same = nil
  Seg-frame (cons {p} e out s) same =
      cons (Points-frame e (same p (ground arith))) out (Seg-frame s (λ a i. same a (ground arith)))

pub has-append : (a : Ptr) (xs ys : Slots) → has a (xs ++ ys) ≡ (has a xs || has a ys)
has-append a [] ys = refl
has-append a (x ∷ xs) ys = ground (arith, has-append a xs ys)

abbrev pub Apart : Slots → Slots → Type 0
Apart xs ys = (a : Ptr) → has a xs ≡ true → has a ys ≡ false

abbrev pub head_or : Ptr → Slots → Ptr
head_or d [] = d
head_or d ((p, _) ∷ xs) = p

module _ {h : Cells} {end : Ptr} where
  pub Seg-append :
      {stop p : Ptr} {xs ys : Slots}
      → Seg h end p xs
      → Seg h stop end ys
      → Apart xs ys
      → Seg h stop p (xs ++ ys)
  Seg-append nil t apart = t
  Seg-append {ys} (cons {p} {xs} e out s) t apart =
      cons e (ground (arith, has-append p xs ys, apart p))
        (Seg-append s t (λ a i. apart a (ground arith)))

  -- An address that holds no region is not on the chain.
  pub has_of_none :
      {p : Ptr} {xs : Slots} (a : Ptr) → h a ≡ none → Seg h end p xs → has a xs ≡ false
  has_of_none a unused nil = refl
  has_of_none a unused (cons {p} e out s) = ground (arith, has_of_none a unused s, e.holds)

  pub Seg-head : {p : Ptr} {xs : Slots} → Seg h end p xs → p ≡ head_or end xs
  Seg-head nil = refl
  Seg-head (cons e out s) = refl

  -- The last region of a chain that is not empty is on it, and its `next` is the end.
  pub Seg-last :
      {p : Ptr} {xs : Slots} (d : Ptr)
      → Seg h end p xs
      → xs ≢ []
      → (has (last_or d xs) xs ≡ true) × (r : Region) × (h (last_or d xs) ≡ some r)
  Seg-last d nil ne = absurd (ne refl)
  Seg-last d (cons {p} e out nil) ne = (ground arith, _, e.holds)
  Seg-last d (cons {p} e out (cons e' out' s)) ne =
      let (on, r, at) = Seg-last p (cons e' out' s) (cc) in (ground arith, r, at)

-- An address on a chain holds a region.
pub Seg-holds :
    {h : Cells} {end p : Ptr} {xs : Slots} (a : Ptr)
    → Seg h end p xs
    → has a xs ≡ true
    → (a ≢ null) × (r : Region) × (h a ≡ some r)
Seg-holds a nil i = cc
Seg-holds a (cons {p} e out s) i = elim (Bool-cases (a == p)) [
  | inl is ↦ rw ((==_iff a p).0 is) (e.ne_null, _, e.holds)
  | inr other ↦ Seg-holds a s (ground arith)
]

-- A chain whose last region is made to lead to `end'` in place of `end`.
pub Seg-relink :
    {h g : Cells} {end p : Ptr} {xs : Slots} (end' d : Ptr)
    → Seg h end p xs
    → ((a : Ptr) → has a xs ≡ true → a ≢ last_or d xs → g a ≡ h a)
    → ((r : Region)
        → xs ≢ []
        → h (last_or d xs) ≡ some r
        → g (last_or d xs) ≡ some (record r { next = end' }))
    → Seg g end' (head_or end' xs) xs
Seg-relink end' d nil same last = nil
Seg-relink end' d (cons {p} e out nil) same last =
    cons (record { ne_null = e.ne_null; holds = last _ (cc) e.holds }) out nil
Seg-relink end' d (cons {p} e out (cons {p = p'} {xs} e' out' s)) same last =
    let there = Seg-last p (cons e' out' s) (cc) in
    cons (Points-frame e (same p (ground arith) (ground (arith, there.0)))) out
      (Seg-relink end' p (cons e' out' s) (λ a i n. same a (ground arith) n) (λ r ne. last r (cc)))
