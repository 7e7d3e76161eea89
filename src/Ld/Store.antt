-- ===== src/Ld/Store.antt =====
-- ld/src/ld.h, ld/src/region.c: memory regions in an explicit store, and the reasons why the linker
-- stops. `calloc` is taken to succeed and to return an address that was never used before.
pub mod Access
use irid.Base.Bytes.{Bytes}
use irid.Base.{
  ℕ, ◌+◌, Bool, true, false, Option, none, some, ◌==◌, if◌then◌else◌, ok, stop, Cmd, pure, ◌>>=◌,
  ◌>>◌,
}

abbrev pub Ptr : Type 0
Ptr = ℕ

abbrev pub null : Ptr
null = 0

pub data RegionType : Type 0 where
  free allocated : RegionType

-- `section` is the index of the entry among the linker's entries, `none` for NULL.
pub record Region : Type 0 where
  pub next : Ptr
  pub prev : Ptr
  pub kind : RegionType
  pub start : ℕ
  pub size : ℕ
  pub section : Option ℕ

abbrev pub Cells : Type 0
Cells = Ptr → Option Region

pub record Store : Type 0 where
  pub cells : Cells
  pub fresh : Ptr

-- Why the linker stops: `die` with one of its messages, undefined behaviour such as a read through
-- a bad pointer, or a loop of the model that is out of fuel.
pub data Stop : Type 0 where
  crash : Stop
  out_of_fuel : Stop
  no_file : Stop
  bad_magic : Stop
  bad_format : Stop
  no_string : ℕ → Stop
  no_region : ℕ → Stop
  overlap : ℕ → Stop
  no_space : ℕ → Stop
  insert_failed : Stop
  no_symbol : Bytes → Stop

abbrev pub Regions : Type 0 → Type 0
Regions A = Cmd Stop Store A

unfoldable pub write : Cells → Ptr → Option Region → Cells
write h p c a = if a == p then c else h a

abbrev pub is_free : RegionType → Bool
is_free free = true
is_free allocated = false

-- `*p`.
unfoldable pub load : Ptr → Regions Region
load p s =
    if p == null then stop crash else elim (s.cells p) [ none ↦ stop crash | some r ↦ ok (r, s) ]

-- `p->field = v`, for the fields that `f` changes.
unfoldable pub update : Ptr → (Region → Region) → Regions (Unit {0})
unfolding load
update p f = do r ← load p; λ s. ok (tt, record s { cells = write s.cells p (some (f r)) })

-- `if (p) p->field = v`.
unfoldable pub update_if : Ptr → (Region → Region) → Regions (Unit {0})
update_if p f = if p == null then pure tt else update p f

-- The end of the lifetime of `p`.
unfoldable pub release : Ptr → Regions (Unit {0})
unfolding load
release p = do load p; λ s. ok (tt, record s { cells = write s.cells p none })

abbrev pub blank : Region
blank = record { next = null; prev = null; kind = free; start = 0; size = 0; section = none }

-- `ld_region_new`.
unfoldable pub region_new : Regions Ptr
region_new s =
    ok (s.fresh, record { cells = write s.cells s.fresh (some blank); fresh = s.fresh + 1 })
