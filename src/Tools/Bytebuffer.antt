-- ===== src/Tools/Bytebuffer.antt =====
-- libiridtools/src/bytebuffer.cc: the byte buffer with its allocation. Memory is taken to be there, and sizes to
-- stay below 2^64.
pub mod Refines
use irid.Base.{
  ℕ, ◌+◌, ◌-◌, ◌*◌, ◌/◌, Bool, true, false, List, [], ◌∷◌, ◌++◌, Option, none, some, leb, ltb, ◌==◌,
  if◌then◌else◌, length, take, drop, replicate, get_elem?, Result, ok, stop,
}
use irid.Base.Bytes.{Bytes}
use irid.Base.Results.{◌>>=◌, or_stop}
use irid.Tools.Contents.{put}

-- `m_space` is the length of `alloc`.
pub record Bytebuffer : Type 0 where
  pub alloc : Bytes
  pub size : ℕ
  pub frozen : Bool

-- What the buffer throws.
pub data Thrown : Type 0 where
  runtime_error out_of_range : Thrown

abbrev pub Throwing : Type 0 → Type 0
Throwing A = Result Thrown A

abbrev pub empty : Bytebuffer
empty = record { alloc = []; size = 0; frozen = false }

-- The bytes of the buffer.
unfoldable pub contents : Bytebuffer → Bytes
contents b = take b.size b.alloc

-- `check_freeze`, in front of a change.
abbrev unless_frozen : Bytebuffer → Bytebuffer → Throwing Bytebuffer
unless_frozen b b' = if b.frozen then stop Thrown.runtime_error else ok b'

-- The size that is allocated: the next multiple of 64 or 1024.
unfoldable pub allocation_size : ℕ → ℕ
allocation_size required =
    let alignment = if leb 1024 required then 1024 else 64 in (required / alignment + 1) * alignment

-- `ensure_size`.
unfoldable pub ensure_size : ℕ → Bytebuffer → Bytebuffer
ensure_size required b = if leb required (length b.alloc) then b else record b {
  alloc =
      take b.size b.alloc ++ replicate (allocation_size required - length (take b.size b.alloc)) 0;
}

abbrev larger : ℕ → ℕ → ℕ
larger a b = if ltb a b then b else a

-- `insert_range`; the bytes are within the allocation.
unfoldable pub insert_range : Bytes → ℕ → Bytebuffer → Throwing Bytebuffer
insert_range bytes at b =
    let grown = ensure_size (at + length bytes) b in
    unless_frozen b
      (record grown { alloc = put bytes at grown.alloc; size = larger b.size (at + length bytes) })

-- `insert`, `insert_fill`, `append`, `append_range` and `append_buffer`.
abbrev pub insert : ℕ → ℕ → Bytebuffer → Throwing Bytebuffer
insert byte at b = insert_range (byte ∷ []) at b

abbrev pub insert_fill : ℕ → ℕ → ℕ → Bytebuffer → Throwing Bytebuffer
insert_fill byte at len b = insert_range (replicate len byte) at b

abbrev pub append_range : Bytes → Bytebuffer → Throwing Bytebuffer
append_range bytes b = insert_range bytes b.size b

-- `at`.
unfoldable pub byte_at : ℕ → Bytebuffer → Throwing ℕ
byte_at i b =
    if leb b.size i
    then stop Thrown.out_of_range
    else or_stop Thrown.out_of_range (get_elem? b.alloc i)

-- `get_range`.
unfoldable pub get_range : ℕ → ℕ → Bytebuffer → Throwing Bytes
get_range start len b =
    if b.size == 0
    then ok []
    else if leb b.size start
    then stop Thrown.out_of_range
    else ok (take (if ltb b.size (start + len) then b.size - start else len) (drop start b.alloc))

-- `copy_out`, which copies from the start of the buffer whatever the index is.
unfoldable pub copy_out : ℕ → ℕ → Bytebuffer → Throwing Bytes
copy_out start len b =
    if leb b.size start
    then stop Thrown.out_of_range
    else ok (take (if ltb b.size (start + len) then b.size - start else len) b.alloc)
