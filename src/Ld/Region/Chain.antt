-- ===== src/Ld/Region/Chain.antt =====
-- The links and blocks of the store after each way to insert a region, address by address.
use irid.Base.{ℕ, ◌+◌, ◌-◌, ◌≡◌, ◌≢◌, none, some, ok, stop, Result, arith, ◌==◌, if◌then◌else◌}
use irid.Ld.Store.{
  Stop, Ptr, null, Region, Store, write, load, update, update_if, release, region_new, blank,
}
use irid.Ld.Region.{insert_middle, insert_end, insert_begin, insert_over}

abbrev pub store_after : {A : Type 0} → Store → Result Stop (A × Store) → Store
store_after s (ok (_, t)) = t
store_after s (stop _) = s

-- The run ends with the value 0.
abbrev pub Succeeds : Store → Result Stop (ℕ × Store) → Type 0
Succeeds s m = m ≡ ok (0, store_after s m)

-- The store holds `i` at `into` and `r` at `new`.
pub record Both (s : Store) (into new : Ptr) (i r : Region) : Type 0 where
  pub into_ne_null : into ≢ null
  pub new_ne_null : new ≢ null
  pub distinct : into ≢ new
  pub at_into : s.cells into ≡ some i
  pub at_new : s.cells new ≡ some r

-- A link of `into` leads nowhere, or to a region other than `into` and `new`.
pub data Neighbour (s : Store) (into new : Ptr) (p : Ptr) : Type 0 where
  missing : p ≡ null → Neighbour s into new p
  present :
      (w : Region) → p ≢ null → p ≢ into → p ≢ new → s.cells p ≡ some w → Neighbour s into new p

module _ {s : Store} {into new : Ptr} {i r : Region} (both : Both s into new i r) where
  pub insert_end-Succeeds : Neighbour s into new i.next → Succeeds s (insert_end into new s)
  unfolding insert_end write load update update_if
  insert_end-Succeeds (missing e) = ground arith
  insert_end-Succeeds (present w ne n1 n2 e) = ground arith

  pub insert_end-cells :
      (a : Ptr)
      → Neighbour s into new i.next
      → a ≢ i.next
      → (store_after s (insert_end into new s)).cells a ≡ (
          if a == into
          then some (record i { next = new; size = i.size - r.size })
          else if a == new
          then some (record r { prev = into })
          else s.cells a)
  unfolding insert_end write load update update_if
  insert_end-cells a (missing e) n = ground arith
  insert_end-cells a (present w ne n1 n2 e) n = ground arith

  pub insert_begin-Succeeds : Neighbour s into new i.prev → Succeeds s (insert_begin into new s)
  unfolding insert_begin write load update update_if
  insert_begin-Succeeds (missing e) = ground arith
  insert_begin-Succeeds (present w ne n1 n2 e) = ground arith

  pub insert_begin-cells :
      (a : Ptr)
      → Neighbour s into new i.prev
      → a ≢ i.prev
      → (store_after s (insert_begin into new s)).cells a ≡ (
          if a == into
          then some (record i { prev = new; size = i.size - r.size; start = i.start + r.size })
          else if a == new
          then some (record r { next = into })
          else s.cells a)
  unfolding insert_begin write load update update_if
  insert_begin-cells a (missing e) n = ground arith
  insert_begin-cells a (present w ne n1 n2 e) n = ground arith

  pub insert_begin-prev :
      (w : Region)
      → i.prev ≢ null
      → i.prev ≢ into
      → i.prev ≢ new
      → s.cells i.prev ≡ some w
      → (store_after s (insert_begin into new s)).cells i.prev ≡ some (record w { next = new })
  unfolding insert_begin write load update update_if
  insert_begin-prev w ne n1 n2 e = ground arith

  pub insert_over-Succeeds :
      Neighbour s into new i.prev
      → Neighbour s into new i.next
      → Succeeds s (insert_over into new s)
  unfolding insert_over write load update update_if release
  insert_over-Succeeds (missing e) (missing e') = ground arith
  insert_over-Succeeds (present w ne n1 n2 e) (missing e') = ground arith
  insert_over-Succeeds (missing e) (present w ne n1 n2 e') = ground arith
  insert_over-Succeeds (present w ne n1 n2 e) (present w' ne' n1' n2' e') = ground arith

  pub insert_over-cells :
      (a : Ptr)
      → Neighbour s into new i.prev
      → Neighbour s into new i.next
      → a ≢ i.prev
      → a ≢ i.next
      → (store_after s (insert_over into new s)).cells a ≡ (if a == into then none else s.cells a)
  unfolding insert_over write load update update_if release
  insert_over-cells a (missing e) (missing e') n n' = ground arith
  insert_over-cells a (present w ne n1 n2 e) (missing e') n n' = ground arith
  insert_over-cells a (missing e) (present w ne n1 n2 e') n n' = ground arith
  insert_over-cells a (present w ne n1 n2 e) (present w' ne' n1' n2' e') n n' = ground arith

  pub insert_over-prev :
      (w : Region)
      → Neighbour s into new i.next
      → i.prev ≢ null
      → i.prev ≢ into
      → i.prev ≢ new
      → i.prev ≢ i.next
      → s.cells i.prev ≡ some w
      → (store_after s (insert_over into new s)).cells i.prev ≡ some (record w { next = new })
  unfolding insert_over write load update update_if release
  insert_over-prev w (missing e') ne n1 n2 n3 e = ground arith
  insert_over-prev w (present w' ne' n1' n2' e') ne n1 n2 n3 e = ground arith

-- The middle case takes one more region from `calloc`.
module _ {s : Store} {into new : Ptr} {i r : Region} (both : Both s into new i r)
    (fresh_ne_null : s.fresh ≢ null) (fresh_ne_into : s.fresh ≢ into) (fresh_ne_new : s.fresh ≢ new)
    (unlinked : r.next ≡ null) (n : ℕ) where
  pub insert_middle-Succeeds :
      Neighbour s into new i.next → i.next ≢ s.fresh → Succeeds s (insert_middle into new n s)
  unfolding insert_middle write load update update_if region_new
  insert_middle-Succeeds (missing e) n0 = ground arith
  insert_middle-Succeeds (present w ne n1 n2 e) n0 = ground arith

  pub insert_middle-cells :
      (a : Ptr)
      → Neighbour s into new i.next
      → i.next ≢ s.fresh
      → a ≢ i.next
      → (store_after s (insert_middle into new n s)).cells a ≡ (
          if a == into
          then some (record i { next = new; size = i.size - (r.size + n) })
          else if a == new
          then some (record r { prev = into; next = s.fresh })
          else if a == s.fresh
          then some (record blank { prev = new; size = n; start = r.start + r.size })
          else s.cells a)
  unfolding insert_middle write load update update_if region_new
  insert_middle-cells a (missing e) n0 n' = ground arith
  insert_middle-cells a (present w ne n1 n2 e) n0 n' = ground arith
