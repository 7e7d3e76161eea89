-- ===== src/Ld/Section/Find.antt =====
-- The look-up of an item by its string's ID.
use irid.Base.{
  ℕ, zero, suc, ◌+◌, ◌<◌, ◌≡◌, ◌≢◌, Option, none, some, ◌==◌, ok, arith, inl, inr, Bool-cases,
}
use irid.Base.Results.{>>=-eq-ok}
use irid.Ld.Section.{IofItem, LdSection, read_item, find_item}

module _ (self : LdSection) (table strid : ℕ) where
  -- The item at place `i` of the table can be read, and has another ID.
  abbrev pub Differs : ℕ → Type 0
  Differs i = (item : IofItem) × (read_item self table i ≡ ok item) × (item.id ≢ strid)

  -- What a search through `n` items from the `i`th on has found: the first with the ID, or none.
  abbrev pub FindsFirst : ℕ → ℕ → Option IofItem → Type 0
  FindsFirst n i none = (j : ℕ) → j < n → Differs (i + j)
  FindsFirst n i (some item) =
      (k : ℕ) × (k < n)
      × (read_item self table (i + k) ≡ ok item)
      × (item.id ≡ strid)
      × ((j : ℕ) → j < k → Differs (i + j))

  Differs-cons :
      (i : ℕ) (n : ℕ)
      → Differs i
      → ((j : ℕ) → j < n → Differs (i + 1 + j))
      → (j : ℕ) → j < suc n
      → Differs (i + j)
  Differs-cons i n d ds zero h = let e : i + 0 ≡ i = omega arith in rw e d
  Differs-cons i n d ds (suc j) h =
      let e : i + suc j ≡ i + 1 + j = omega arith in rw e (ds j (omega arith))

  FindsFirst-cons :
      (n i : ℕ) (found : Option IofItem)
      → Differs i
      → FindsFirst n (i + 1) found
      → FindsFirst (suc n) i found
  FindsFirst-cons n i none d ds = Differs-cons i n d ds
  FindsFirst-cons n i (some item) d (k, lt, at, is, ds) = (
    suc k,
    omega arith,
    let e : i + suc k ≡ i + 1 + k = omega arith in rw e at,
    is,
    Differs-cons i k d ds,
  )

  -- A search that does not fault gives the first item with the ID, or there is none.
  pub find_item-FindsFirst :
      (n i : ℕ) {found : Option IofItem}
      → find_item self table strid n i ≡ ok found
      → FindsFirst n i found
  unfolding find_item
  find_item-FindsFirst zero i {found = none} h = λ j lt. elim lt [ ]
  find_item-FindsFirst zero i {found = some item} h = cc
  find_item-FindsFirst (suc n) i {found} h =
      let (item, at, later) = >>=-eq-ok (read_item self table i) _ h in
      elim (Bool-cases (item.id == strid)) [
        | inl is ↦
            let e : ok (some item) ≡ ok found = rw is at later in
            let e' : some item ≡ found = cc in
            let here : i + 0 ≡ i = omega arith in
            rw (← e') (zero, omega arith, rw here at, ground arith, λ j lt. elim lt [ ])
        | inr isnt ↦
            FindsFirst-cons n i found (item, at, λ e. ground arith)
              (find_item-FindsFirst n (i + 1) (rw isnt at later))
      ]
