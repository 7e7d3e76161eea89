-- ===== src/Ld/Region.antt =====
-- ld/src/region.c: the doubly linked chain of regions.
pub mod Block
pub mod Chain
pub mod Insert
pub mod Refines
pub mod Tiles
use irid.Base.{
  ℕ, ◌+◌, ◌-◌, Bool, true, false, not, ◌&&◌, ◌==◌, ltb, if◌then◌else◌, pure, ◌>>=◌, ◌>>◌,
}
use irid.Ld.Store.{
  Ptr, null, Region, is_free, Regions, load, update, update_if, release, region_new,
}

-- `ld_region_contains`. The last test, `self->size - (other->start - self->start) < other->size`,
-- is on `int`; the difference is moved to the other side, since `-` on ℕ stops at 0.
unfoldable pub contains : Region → Region → Bool
contains self other =
    if ltb self.size other.size
    then false
    else if ltb other.start self.start
    then false
    else if ltb self.size (other.size + (other.start - self.start))
    then false
    else true

abbrev pub set_next : Ptr → Region → Region
set_next q r = record r { next = q }

abbrev pub set_prev : Ptr → Region → Region
set_prev q r = record r { prev = q }

unfoldable pub insert_before : Ptr → Ptr → Regions (Unit {0})
insert_before self prev = do
  update prev (set_next self)
  s ← load self
  update_if s.prev (set_next prev)
  update self (set_prev prev)

unfoldable pub insert_after : Ptr → Ptr → Regions (Unit {0})
insert_after self next = do
  update next (set_prev self)
  s ← load self
  update_if s.next (set_prev next)
  update self (set_next next)

-- `ld_region_free`.
unfoldable pub region_free : Ptr → Regions (Unit {0})
region_free self = if self == null then pure tt else do
  s ← load self
  update_if s.next (set_prev s.prev)
  update_if s.prev (set_next s.next)
  release self

-- The four ways in which `ld_region_insert` places a region of `size` bytes: in the middle, at the
-- end, at the beginning, or over the whole of a free region.
unfoldable pub insert_middle : Ptr → Ptr → ℕ → Regions ℕ
unfolding insert_after
insert_middle into region space_after = do
  insert_after into region
  r ← load region
  update into (λ i. record i { size = i.size - (r.size + space_after) })
  after ← region_new
  update after (λ a. record a { size = space_after })
  update after (λ a. record a { start = r.start + r.size })
  insert_after region after
  pure 0

unfoldable pub insert_end : Ptr → Ptr → Regions ℕ
unfolding insert_after
insert_end into region = do
  insert_after into region
  r ← load region
  update into (λ i. record i { size = i.size - r.size })
  pure 0

unfoldable pub insert_begin : Ptr → Ptr → Regions ℕ
unfolding insert_before
insert_begin into region = do
  insert_before into region
  r ← load region
  update into (λ i. record i { size = i.size - r.size })
  update into (λ i. record i { start = i.start + r.size })
  pure 0

unfoldable pub insert_over : Ptr → Ptr → Regions ℕ
unfolding region_free
insert_over into region = do
  i ← load into
  update_if i.prev (set_next region)
  update_if i.next (set_prev region)
  update into (set_next null)
  update into (set_prev null)
  region_free into
  pure 0

-- `ld_region_insert`.
unfoldable pub region_insert : Ptr → Ptr → Regions ℕ
region_insert into region = do
  i ← load into
  r ← load region
  let space_before = r.start - i.start
  let space_after = i.size - (space_before + r.size)
  if not (contains i r)
      then pure 1
      else if not (is_free i.kind)
      then pure 1
      else if not (space_before == 0) && not (space_after == 0)
      then insert_middle into region space_after
      else if not (space_before == 0)
      then insert_end into region
      else if not (space_after == 0)
      then insert_begin into region
      else insert_over into region
