-- ===== src/Tools/Contents.antt =====
-- libiridtools/src/bytebuffer.cc: a byte buffer as the bytes in it.
use irid.Base.{zero, suc, ℕ, [], ◌∷◌, ◌++◌, drop, length, replicate}
use irid.Base.Bytes.{Bytes}

-- `bytebuffer::insert_range`: bytes are written over what is there, and behind the end the buffer grows, with
-- zeros in between.
unfoldable pub put : Bytes → ℕ → Bytes → Bytes
put bytes zero buffer = bytes ++ drop (length bytes) buffer
put bytes (suc at) [] = 0 ∷ put bytes at []
put bytes (suc at) (b ∷ bs) = b ∷ put bytes at bs

-- `bytebuffer::insert_fill`.
abbrev pub put_fill : ℕ → ℕ → ℕ → Bytes → Bytes
put_fill byte at len buffer = put (replicate len byte) at buffer
