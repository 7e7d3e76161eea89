-- ===== src/Lc/Types/Register.antt =====
-- What the register keeps when types are added to it.
use irid.Base.{
  Bool, ◌⊎◌, ℕ, zero, suc, ◌+◌, ◌<◌, ◌≡◌, refl, [], ◌∷◌, ◌++◌, some, ok, arith, inl, inr,
  Option-cases, Bool-cases, length, get_elem?, true,
}
use irid.Lc.Types.{
  Bytes, TypeId, LeafType, null, integer, pointer, struct, array, Types, type_at, find_type,
  is_pointer_to, name_of, found_or_new, type_alloc, register_add_pointer,
}
use irid.Lc.Types.Size.{Based, WellFounded}

get_elem?-snoc_old :
    (types : Types) (t : LeafType) (id : TypeId)
    → id < length types
    → get_elem? (types ++ (t ∷ [])) id ≡ get_elem? types id
get_elem?-snoc_old [] t id h = absurd (omega arith)
get_elem?-snoc_old (u ∷ types) t zero h = refl
get_elem?-snoc_old (u ∷ types) t (suc id) h = get_elem?-snoc_old types t id (omega arith)

get_elem?-snoc_new :
    (types : Types) (t : LeafType) → get_elem? (types ++ (t ∷ [])) (length types) ≡ some t
get_elem?-snoc_new [] t = refl
get_elem?-snoc_new (u ∷ types) t = get_elem?-snoc_new types t

length-snoc : (types : Types) (t : LeafType) → length (types ++ (t ∷ [])) ≡ suc (length types)
length-snoc [] t = refl
length-snoc (u ∷ types) t = omega (arith, length-snoc types t)

snoc-WellFounded :
    (types : Types) (t : LeafType)
    → WellFounded types
    → Based t (length types)
    → WellFounded (types ++ (t ∷ []))
snoc-WellFounded types t wf based id h =
    elim (old_or_new id (length types) (omega (arith, length-snoc types t))) [
      | inl old ↦ let (u, at, b) = wf id old in (u, rw (get_elem?-snoc_old types t id old) at, b)
      | inr new ↦ rw new (t, get_elem?-snoc_new types t, based)
    ]
  where
    old_or_new : (id n : ℕ) → id < suc n → (id < n) ⊎ (id ≡ n)
    old_or_new zero zero h = inr refl
    old_or_new zero (suc n) h = inl (omega arith)
    old_or_new (suc id) zero h = absurd (omega arith)
    old_or_new (suc id) (suc n) h = elim (old_or_new id n (omega arith)) [
      | inl lt ↦ inl (omega arith)
      | inr eq ↦ inr (omega arith)
    ]

is_pointer_to-pointer :
    (base : TypeId) (t : LeafType)
    → is_pointer_to base t ≡ true
    → (n : Bytes) × (t ≡ pointer n base)
is_pointer_to-pointer base (pointer n b) h = let e : b ≡ base = ground arith in (n, rw e refl)
is_pointer_to-pointer base (null n) h = cc
is_pointer_to-pointer base (integer n bits) h = cc
is_pointer_to-pointer base (struct n fields) h = cc
is_pointer_to-pointer base (array n b count) h = cc

find_type-found :
    (test : LeafType → Bool) (types : Types) (i : ℕ) {id : TypeId}
    → find_type test types i ≡ some id
    → (k : ℕ) × (t : LeafType) × (id ≡ i + k) × (get_elem? types k ≡ some t) × (test t ≡ true)
unfolding find_type
find_type-found test [] i h = cc
find_type-found test (t ∷ ts) i {id} h = elim (Bool-cases (test t)) [
  | inl is ↦
      let e : some i ≡ some id = rw is at h in
      let same : i ≡ id = cc in (0, t, omega arith, refl, is)
  | inr isnt ↦
      let (k, u, e, at, passes) = find_type-found test ts (i + 1) (rw isnt at h) in
      (suc k, u, omega arith, at, passes)
]

-- The pointer type that `register_add_pointer` gives is a pointer to the base; the types that were
-- registered before keep their places, and types are still made of earlier types.
pub add_pointer-WellFounded :
    (types : Types) (base : TypeId)
    → WellFounded types
    → base < length types
    → (id : TypeId) × (types' : Types) × (n : Bytes) × (register_add_pointer types base
        ≡ ok (id, types'))
      × (get_elem? types' id ≡ some (pointer n base))
      × WellFounded types'
      × ((k : TypeId) → k < length types → get_elem? types' k ≡ get_elem? types k)
unfolding register_add_pointer found_or_new type_alloc type_at
add_pointer-WellFounded types base wf h =
    elim (Option-cases (find_type (is_pointer_to base) types 0)) [
      | inl e ↦
          let (b, at, based) = wf base h in
          let t = pointer (name_of b) base in
          (
            length types,
            types ++ (t ∷ []),
            name_of b,
            rw (e, at),
            get_elem?-snoc_new types t,
            snoc-WellFounded types t wf tt,
            get_elem?-snoc_old types t,
          )
      | inr (id, e) ↦
          let (k, t, here, at, is) = find_type-found (is_pointer_to base) types 0 e in
          let (n, e') = is_pointer_to-pointer base t is in
          let here' : id ≡ k = omega arith in
          (id, types, n, rw e, rw (here', at, e'), wf, λ k lt. refl)
    ]
