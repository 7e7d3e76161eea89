-- ===== src/Ld/Region/Insert.antt =====
-- ld_region_insert as an operation on the chain of blocks.
use irid.Base.{
  ℕ, ◌+◌, ◌-◌, ◌≡◌, ◌≢◌, refl, sym, ap, ◌∙◌, ◌⊎◌, true, false, ◌||◌, none, some, [], ◌∷◌, ◌++◌, inl,
  inr, arith, ◌==◌, if◌then◌else◌,
}
use irid.Ld.Store.{Ptr, null, free, Region, Store}
use irid.Ld.Region.{insert_middle, insert_end, insert_begin, insert_over}
use irid.Ld.Region.Block.{
  Block, region, Slots, has, last_or, head_or, Points, Seg, nil, cons, Seg-frame, Seg-append,
  Seg-last, Seg-relink, has_of_none, Seg-holds, has-append, Apart,
}
use irid.Ld.Region.Chain

-- The chain `xs`, then the region `into`, then `ys`. Links back are used at `into` alone.
pub record Chained (s : Store) (first : Ptr) (xs : Slots) (into : Ptr) (b : Block) (ys : Slots)
    : Type 0 where
  pub next : Ptr
  pub prev : Ptr
  pub before : Seg s.cells into first xs
  pub here : Points s.cells into next prev b
  pub behind : Seg s.cells null next ys
  pub apart : Apart xs ((into, b) ∷ ys)
  pub out : has into ys ≡ false
  pub prev_is : prev ≡ last_or null xs

-- A region that `ld_region_new` gave and that is on no chain, and an address for one more.
pub record IsNew (s : Store) (new : Ptr) (c : Block) : Type 0 where
  pub here : Points s.cells new null null c
  pub fresh_ne_null : s.fresh ≢ null
  pub unused : s.cells s.fresh ≡ none

nil-cases : (xs : Slots) → (xs ≡ []) ⊎ (xs ≢ [])
nil-cases [] = inl refl
nil-cases (x ∷ xs) = inr (λ e. cc)

module _ {s : Store} {first into new : Ptr} {xs ys : Slots} {b c : Block}
    (chain : Chained s first xs into b ys) (is_new : IsNew s new c)
    (new_out : has new (xs ++ ((into, b) ∷ ys)) ≡ false) where
  open chain use {next, prev}

  new_apart : (has new xs ≡ false) × (new ≢ into) × (has new ys ≡ false)
  new_apart = ground (arith, has-append new xs ((into, b) ∷ ys))

  both : Chain.Both s into new (region next prev b) (region null null c)
  both = record {
    into_ne_null = chain.here.ne_null;
    new_ne_null = is_new.here.ne_null;
    distinct = ground (arith, new_apart.1);
    at_into = chain.here.holds;
    at_new = is_new.here.holds;
  }

  next-Neighbour : Chain.Neighbour s into new next
  next-Neighbour = behind_link chain.behind chain.out new_apart.2
    where
      behind_link :
          {q : Ptr} {zs : Slots}
          → Seg s.cells null q zs
          → has into zs ≡ false
          → has new zs ≡ false
          → Chain.Neighbour s into new q
      behind_link nil o n = Chain.missing refl
      behind_link (cons e _ _) o n = Chain.present _ e.ne_null (ground arith) (ground arith) e.holds

  Neighbour-apart :
      {p : Ptr} → Chain.Neighbour s into new p → (p ≢ into) × (p ≢ new) × (p ≢ s.fresh)
  Neighbour-apart (Chain.missing e) = (
    λ e'. both.into_ne_null (omega arith),
    λ e'. both.new_ne_null (omega arith),
    λ e'. is_new.fresh_ne_null (omega arith),
  )
  Neighbour-apart (Chain.present w ne n1 n2 e) = (n1, n2, λ e'. cc (is_new.unused))

  next_apart : (next ≢ into) × (next ≢ new) × (next ≢ s.fresh)
  next_apart = Neighbour-apart next-Neighbour

  -- The region behind `into` is not before it.
  not_next : (a : Ptr) → has a xs ≡ true → a ≢ next
  not_next a i = in_front chain.behind (chain.apart a i)
    where
      in_front :
          {q : Ptr} {zs : Slots} → Seg s.cells null q zs → (a == into || has a zs) ≡ false → a ≢ q
      in_front nil o = (Seg-holds a chain.before i).0
      in_front (cons e _ _) o = ground arith

  xs_apart : (a : Ptr) → has a xs ≡ true → (a ≢ into) × (a ≢ new)
  xs_apart a i = (ground (arith, chain.apart a i), λ e. ground (arith, new_apart.0))

  fresh_apart : (s.fresh ≢ into) × (s.fresh ≢ new) × (has s.fresh xs ≡ false)
  fresh_apart = (
    λ e. cc (is_new.unused, chain.here.holds, e),
    λ e. cc (is_new.unused, is_new.here.holds, e),
    has_of_none s.fresh is_new.unused chain.before,
  )

  module _ (n : ℕ) where
    middle_cells :
        (a : Ptr)
        → a ≢ next
        → (Chain.store_after s (insert_middle into new n s)).cells a ≡ (
            if a == into
            then some (region new prev (record b { size = b.size - (c.size + n) }))
            else if a == new
            then some (region s.fresh into c)
            else if a == s.fresh
            then some (
                region null new
                  (record { kind = free; start = c.start + c.size; size = n; section = none }))
            else s.cells a)
    middle_cells a =
        Chain.insert_middle-cells both is_new.fresh_ne_null fresh_apart.0 fresh_apart.1 refl n a
          next-Neighbour next_apart.2

    pub middle-Seg : Seg (Chain.store_after s (insert_middle into new n s)).cells null first (
        xs
        ++ ((into, record b { size = b.size - (c.size + n) })
            ∷ (new, c)
            ∷ (s.fresh, record { kind = free; start = c.start + c.size; size = n; section = none })
            ∷ []))
    middle-Seg =
        Seg-append
          (Seg-frame chain.before
            λ a i. middle_cells a (not_next a i) ∙ ground (arith, xs_apart a i, fresh_apart.2))
          (cons {w = prev}
            (record {
              ne_null = both.into_ne_null;
              holds = middle_cells into (λ e. next_apart.0 (sym e)) ∙ ground arith;
            })
            (ground (arith, new_apart.1, fresh_apart.0))
            (cons {w = into}
              (record {
                ne_null = both.new_ne_null;
                holds = middle_cells new (λ e. next_apart.1 (sym e)) ∙ ground (arith, new_apart.1);
              })
              (ground (arith, fresh_apart.1))
              (cons {w = new}
                (record {
                  ne_null = is_new.fresh_ne_null;
                  holds =
                      middle_cells s.fresh (λ e. next_apart.2 (sym e))
                      ∙ ground (arith, fresh_apart.0, fresh_apart.1);
                })
                refl nil)))
          (λ a i. ground (arith, xs_apart a i, fresh_apart.2))

  end_cells :
      (a : Ptr)
      → a ≢ next
      → (Chain.store_after s (insert_end into new s)).cells a ≡ (
          if a == into
          then some (region new prev (record b { size = b.size - c.size }))
          else if a == new
          then some (region null into c)
          else s.cells a)
  end_cells a = Chain.insert_end-cells both a next-Neighbour

  pub end-Seg :
      Seg
        (Chain.store_after s (insert_end into new s)).cells
        null
        first
        (xs ++ ((into, record b { size = b.size - c.size }) ∷ (new, c) ∷ []))
  end-Seg =
      Seg-append
        (Seg-frame chain.before λ a i. end_cells a (not_next a i) ∙ ground (arith, xs_apart a i))
        (cons {w = prev}
          (record {
            ne_null = both.into_ne_null;
            holds = end_cells into (λ e. next_apart.0 (sym e)) ∙ ground arith;
          })
          (ground (arith, new_apart.1))
          (cons {w = into}
            (record {
              ne_null = both.new_ne_null;
              holds = end_cells new (λ e. next_apart.1 (sym e)) ∙ ground (arith, new_apart.1);
            })
            refl nil))
        (λ a i. ground (arith, xs_apart a i))

  -- The link back of `into` leads to the last region before it, if there is one.
  prev_last :
      xs ≢ []
      → (has prev xs ≡ true)
        × (prev ≢ null)
        × (prev ≢ into)
        × (prev ≢ new)
        × (prev ≢ next)
        × (r : Region) × (s.cells prev ≡ some r)
  prev_last ne =
      let (on, r, at) = Seg-last null chain.before ne in
      let on' : has prev xs ≡ true = rw chain.prev_is on in
      (
        on',
        (Seg-holds prev chain.before on').0,
        (xs_apart prev on').0,
        (xs_apart prev on').1,
        not_next prev on',
        r,
        rw chain.prev_is at,
      )

  prev-Neighbour : Chain.Neighbour s into new prev
  prev-Neighbour = elim (nil-cases xs) [
    | inl e ↦ Chain.missing (chain.prev_is ∙ ap (last_or null) e)
    | inr ne ↦ let (_, n0, n1, n2, _, r, at) = prev_last ne in Chain.present r n0 n1 n2 at
  ]

  begin_cells :
      (a : Ptr)
      → a ≢ prev
      → (Chain.store_after s (insert_begin into new s)).cells a ≡ (
          if a == into
          then some
              (region next new (record b { size = b.size - c.size; start = b.start + c.size }))
          else if a == new
          then some (region into null c)
          else s.cells a)
  begin_cells a = Chain.insert_begin-cells both a prev-Neighbour

  not_prev : (a : Ptr) → a ≢ null → has a xs ≡ false → a ≢ prev
  not_prev a ne o e = elim (nil-cases xs) [
    | inl empty ↦ ne (e ∙ chain.prev_is ∙ ap (last_or null) empty)
    | inr full ↦ cc (o, (prev_last full).0, e)
  ]

  into_out : has into xs ≡ false
  into_out = ground (arith, chain.apart into)

  ys_apart : (a : Ptr) → has a ys ≡ true → (a ≢ into) × (a ≢ new) × (has a xs ≡ false)
  ys_apart a i = ground (arith, chain.out, new_apart.2, chain.apart a)

  begin-relinked : Seg (Chain.store_after s (insert_begin into new s)).cells new (head_or new xs) xs
  begin-relinked =
      Seg-relink new null chain.before
        (λ a i n. begin_cells a (λ e. n (e ∙ chain.prev_is)) ∙ ground (arith, xs_apart a i))
        (λ r ne at.
          let (_, n0, n1, n2, _, _, _) = prev_last ne in
          rw (← chain.prev_is) (Chain.insert_begin-prev both r n0 n1 n2 (rw chain.prev_is at)))

  pub begin-Seg : Seg (Chain.store_after s (insert_begin into new s)).cells null (head_or new xs) (
      xs ++ ((new, c) ∷ (into, record b { size = b.size - c.size; start = b.start + c.size }) ∷ ys))
  begin-Seg =
      Seg-append begin-relinked
        (cons {w = null}
          (record {
            ne_null = both.new_ne_null;
            holds =
                begin_cells new (not_prev new both.new_ne_null new_apart.0)
                ∙ ground (arith, new_apart.1);
          })
          (ground (arith, new_apart.1, new_apart.2))
          (cons {w = new}
            (record {
              ne_null = both.into_ne_null;
              holds = begin_cells into (not_prev into both.into_ne_null into_out) ∙ ground arith;
            })
            chain.out
            (Seg-frame chain.behind λ a i.
              begin_cells a (not_prev a (Seg-holds a chain.behind i).0 (ys_apart a i).2)
              ∙ ground (arith, ys_apart a i))))
        (λ a i. ground (arith, xs_apart a i, ys_apart a))

  over_cells :
      (a : Ptr)
      → a ≢ prev
      → a ≢ next
      → (Chain.store_after s (insert_over into new s)).cells a
        ≡ (if a == into then none else s.cells a)
  over_cells a = Chain.insert_over-cells both a prev-Neighbour next-Neighbour

  pub over-Seg :
      Seg
        (Chain.store_after s (insert_over into new s)).cells
        null
        (head_or new xs)
        (xs ++ ((new, c) ∷ []))
  over-Seg =
      Seg-append
        (Seg-relink new null chain.before
          (λ a i n.
            over_cells a (λ e. n (e ∙ chain.prev_is)) (not_next a i) ∙ ground (arith, xs_apart a i))
          (λ r ne at.
            let (_, n0, n1, n2, n3, _, _) = prev_last ne in
            rw (← chain.prev_is)
              (Chain.insert_over-prev both r next-Neighbour n0 n1 n2 n3 (rw chain.prev_is at))))
        (cons {w = null}
          (record {
            ne_null = both.new_ne_null;
            holds =
                over_cells new (not_prev new both.new_ne_null new_apart.0)
                  (λ e. next_apart.1 (sym e))
                ∙ ground (arith, new_apart.1, is_new.here.holds);
          })
          refl nil)
        (λ a i. ground (arith, xs_apart a i))

  pub middle-Succeeds : (n : ℕ) → Chain.Succeeds s (insert_middle into new n s)
  middle-Succeeds n =
      Chain.insert_middle-Succeeds both is_new.fresh_ne_null fresh_apart.0 fresh_apart.1 refl n
        next-Neighbour next_apart.2

  pub end-Succeeds : Chain.Succeeds s (insert_end into new s)
  end-Succeeds = Chain.insert_end-Succeeds both next-Neighbour

  pub begin-Succeeds : Chain.Succeeds s (insert_begin into new s)
  begin-Succeeds = Chain.insert_begin-Succeeds both prev-Neighbour

  pub over-Succeeds : Chain.Succeeds s (insert_over into new s)
  over-Succeeds = Chain.insert_over-Succeeds both prev-Neighbour next-Neighbour
