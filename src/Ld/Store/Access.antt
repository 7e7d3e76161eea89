-- ===== src/Ld/Store/Access.antt =====
-- What each access to the store yields where it is valid.
use mathlib.Core.Option
use mathlib.Core.Path.{fun_ext}
use irid.Base.{
  ◌+◌, ◌≡◌, ◌≢◌, refl, ap, false, not, ◌&&◌, inl, inr, none, some, ok, arith, ◌==◌, ==_iff,
  Bool-cases, if◌then◌else◌,
}
use irid.Ld.Store.{
  Ptr, null, Region, Cells, Store, blank, write, load, update, update_if, release, region_new,
}

pub ne_iff : {a b : Ptr} → a ≢ b → (a == b) ≡ false
ne_iff n = ground arith

module _ (s : Store) {p : Ptr} {r : Region} (ne : p ≢ null) (e : s.cells p ≡ some r) where
  pub load-ok : load p s ≡ ok (r, s)
  unfolding load
  load-ok = rw (ne_iff ne, e)

  pub update-ok :
      (f : Region → Region)
      → update p f s ≡ ok (tt, record s { cells = write s.cells p (some (f r)) })
  unfolding update
  update-ok f = rw load-ok

  pub release-ok : release p s ≡ ok (tt, record s { cells = write s.cells p none })
  unfolding release
  release-ok = rw load-ok

-- `p` is null, or the address of a region.
pub data IsLink (h : Cells) (p : Ptr) : Type 0 where
  missing : p ≡ null → IsLink h p
  present : {r : Region} → p ≢ null → h p ≡ some r → IsLink h p

-- The store after `update_if p f`.
unfoldable pub touch : Ptr → (Region → Region) → Cells → Cells
touch p f h a = if a == p && not (p == null) then Option.map f (h a) else h a

touch-null : (f : Region → Region) (h : Cells) → h ≡ touch null f h
unfolding touch
touch-null f h = fun_ext (λ a. ground arith)

touch-present :
    (p : Ptr) (f : Region → Region) (h : Cells) {r : Region}
    → p ≢ null
    → h p ≡ some r
    → write h p (some (f r)) ≡ touch p f h
unfolding write touch
touch-present p f h ne e = fun_ext (λ a. elim (Bool-cases (a == p)) [
  | inl is ↦ rw (is, ne_iff ne, (==_iff a p).0 is, e)
  | inr other ↦ rw other
])

pub update_if-ok :
    {s : Store} {p : Ptr} (f : Region → Region)
    → IsLink s.cells p
    → update_if p f s ≡ ok (tt, record s { cells = touch p f s.cells })
unfolding update_if
update_if-ok {s} f (missing e) =
    rw e (ap (λ c. ok (tt, record s { cells = c })) (touch-null f s.cells))
update_if-ok {s} {p} f (present ne e) =
    rw (ne_iff ne, update-ok s ne e f)
      (ap (λ c. ok (tt, record s { cells = c })) (touch-present p f s.cells ne e))

pub region_new-ok :
    (s : Store)
    → region_new s
      ≡ ok (s.fresh, record { cells = write s.cells s.fresh (some blank); fresh = s.fresh + 1 })
unfolding region_new
region_new-ok s = refl
