-- ===== src/Ld/Linker/Largest.antt =====
-- The choice of largest_nonplaced_section.
use irid.Base.{
  ℕ, zero, suc, ◌+◌, ◌≤◌, ◌<◌, ◌≡◌, refl, ◌⊎◌, inl, inr, ◌&&◌, List, [], ◌∷◌, Option, none, some,
  ◌==◌, ltb, get_elem?, arith, Bool-cases,
}
use irid.Ld.Store.{null}
use irid.Ld.Linker.{Entry, largest_nonplaced}

abbrev pub size_of : Entry → ℕ
size_of e = e.section.header.code_size

-- Every entry with no region has at most `m` bytes of code.
abbrev pub NonplacedLe : List Entry → ℕ → Type 0
NonplacedLe es m = (j : ℕ) (e : Entry) → get_elem? es j ≡ some e → e.region ≡ null → size_of e ≤ m

-- `i` is an entry with no region and some code, and none of those has more.
pub record IsLargest (es : List Entry) (i : ℕ) : Type 0 where
  pub entry : Entry
  pub at : get_elem? es i ≡ some entry
  pub nonplaced : entry.region ≡ null
  pub code : 0 < size_of entry
  pub largest : NonplacedLe es (size_of entry)

-- Either nothing beats `size`, or entry `k` does.
abbrev Found : List Entry → ℕ → Option ℕ → ℕ → Type 0
Found es i best size =
    ((largest_nonplaced es i best size ≡ best) × NonplacedLe es size)
    ⊎ ((k : ℕ) × (e : Entry) × (largest_nonplaced es i best size ≡ some (i + k))
        × (get_elem? es k ≡ some e)
        × (e.region ≡ null)
        × (size < size_of e)
        × NonplacedLe es (size_of e))

NonplacedLe-cons :
    (e : Entry) (es : List Entry) (m : ℕ)
    → (e.region ≡ null → size_of e ≤ m)
    → NonplacedLe es m
    → NonplacedLe (e ∷ es) m
NonplacedLe-cons e es m h t zero e' at n = ground (arith, h)
NonplacedLe-cons e es m h t (suc j) e' at n = t j e' at n

Found-cons :
    (e : Entry) (es : List Entry) (i : ℕ) (best : Option ℕ) (size : ℕ)
    → Found es (i + 1) (some i) (size_of e)
    → Found es (i + 1) best size
    → Found (e ∷ es) i best size
unfolding largest_nonplaced
Found-cons e es i best size better worse =
    elim (Bool-cases (e.region == null && ltb size (size_of e))) [
      | inl t ↦ rw t (elim better [
        | inl (r, le) ↦ inr (
          zero,
          e,
          ground (arith, r),
          refl,
          ground arith,
          ground arith,
          NonplacedLe-cons e es _ (λ _. omega arith) le,
        )
        | inr (k, e', r, at, n, lt, le) ↦ inr (
          suc k,
          e',
          ground (arith, r),
          at,
          n,
          ground arith,
          NonplacedLe-cons e es _ (λ _. omega arith) le,
        )
      ])
      | inr t ↦ rw t (elim worse [
        | inl (r, le) ↦ inl (r, NonplacedLe-cons e es _ (λ n. ground arith) le)
        | inr (k, e', r, at, n, lt, le) ↦ inr (
          suc k,
          e',
          ground (arith, r),
          at,
          n,
          lt,
          NonplacedLe-cons e es _ (λ n. ground arith) le,
        )
      ])
    ]

largest-Found : (es : List Entry) (i : ℕ) (best : Option ℕ) (size : ℕ) → Found es i best size
unfolding largest_nonplaced
largest-Found [] i best size = inl (refl, λ j e at n. cc)
largest-Found (e ∷ es) i best size =
    Found-cons e es i best size (largest-Found es (i + 1) (some i) (size_of e))
      (largest-Found es (i + 1) best size)

-- The entry that is placed next has no region yet and at least as much code as any such entry; if
-- none is chosen, the entries with no region have no code.
pub largest_nonplaced-IsLargest :
    (es : List Entry)
    → ((i : ℕ) × (largest_nonplaced es 0 none 0 ≡ some i) × IsLargest es i)
      ⊎ ((largest_nonplaced es 0 none 0 ≡ none) × NonplacedLe es 0)
largest_nonplaced-IsLargest es = elim (largest-Found es 0 none 0) [
  | inl found ↦ inr found
  | inr (k, e, r, at, n, lt, le) ↦
      inl (
        k,
        ground (arith, r),
        record { entry = e; at = at; nonplaced = n; code = lt; largest = le },
      )
]
