-- ===== src/Tools/Writes.antt =====
-- What a byte buffer holds after a write.
use irid.Base.{
  ◌≢◌, some, zero, suc, ℕ, ◌+◌, ◌-◌, ◌≤◌, ◌<◌, ◌≡◌, refl, [], ◌∷◌, drop, length, get_elem?, arith,
  ltb, if◌then◌else◌, length-append, length-drop, get_elem?-append, get_elem?-drop, ◌⊎◌,
}
use irid.Base.Bytes.{Bytes}
use irid.Tools.Contents.{put}

-- The bytes are there.
pub get_elem?-put :
    (bytes : Bytes) (at : ℕ) (buffer : Bytes) (i : ℕ)
    → i < length bytes
    → get_elem? (put bytes at buffer) (at + i) ≡ get_elem? bytes i
unfolding put
get_elem?-put bytes zero buffer i h =
    let e : 0 + i ≡ i = omega arith in
    rw e (ground (arith, get_elem?-append bytes (drop (length bytes) buffer) i))
get_elem?-put bytes (suc at) [] i h =
    let e : suc at + i ≡ suc (at + i) = omega arith in rw e (get_elem?-put bytes at [] i h)
get_elem?-put bytes (suc at) (b ∷ bs) i h =
    let e : suc at + i ≡ suc (at + i) = omega arith in rw e (get_elem?-put bytes at bs i h)

-- What was in the buffer in front of them and behind them stays.
pub get_elem?-put_other :
    (bytes : Bytes) (at : ℕ) (buffer : Bytes) (i : ℕ)
    → i < length buffer
    → (i < at) ⊎ (at + length bytes ≤ i)
    → get_elem? (put bytes at buffer) i ≡ get_elem? buffer i
unfolding put
get_elem?-put_other bytes zero buffer i inside h =
    let n = length bytes in
    let back : n + (i - n) ≡ i = omega arith in
    let behind : get_elem? (drop n buffer) (i - n) ≡ get_elem? buffer i =
      rw back at (get_elem?-drop n (i - n) buffer) in
    ground (arith, behind, get_elem?-append bytes (drop n buffer) i)
get_elem?-put_other bytes (suc at) [] i inside h = absurd (omega arith)
get_elem?-put_other bytes (suc at) (b ∷ bs) zero inside h = refl
get_elem?-put_other bytes (suc at) (b ∷ bs) (suc i) inside h =
    get_elem?-put_other bytes at bs i (omega arith) (ground arith)

pub length-put :
    (bytes : Bytes) (at : ℕ) (buffer : Bytes)
    → length (put bytes at buffer)
      ≡ (if ltb (at + length bytes) (length buffer) then length buffer else at + length bytes)
unfolding put
length-put bytes zero buffer =
    ground
      (arith, length-append bytes (drop (length bytes) buffer), length-drop (length bytes) buffer)
length-put bytes (suc at) [] = ground (arith, length-put bytes at [])
length-put bytes (suc at) (b ∷ bs) = ground (arith, length-put bytes at bs)

-- One byte.
pub get_elem?-put_here :
    (b at : ℕ) (buffer : Bytes) → get_elem? (put (b ∷ []) at buffer) at ≡ some b
get_elem?-put_here b at buffer =
    let e : at + 0 ≡ at = omega arith in rw e at (get_elem?-put (b ∷ []) at buffer 0 (omega arith))

pub get_elem?-put_elsewhere :
    (b at : ℕ) (buffer : Bytes) (i : ℕ)
    → i < length buffer
    → i ≢ at
    → get_elem? (put (b ∷ []) at buffer) i ≡ get_elem? buffer i
get_elem?-put_elsewhere b at buffer i inside ne =
    get_elem?-put_other (b ∷ []) at buffer i inside (ground arith)

pub put-longer :
    (bytes : Bytes) (at : ℕ) (buffer : Bytes)
    → (length buffer ≤ length (put bytes at buffer))
      × (at + length bytes ≤ length (put bytes at buffer))
put-longer bytes at buffer = ground (arith, length-put bytes at buffer)

-- Between the old end and the bytes there are zeros.
pub get_elem?-put_gap :
    (bytes : Bytes) (at : ℕ) (buffer : Bytes) (i : ℕ)
    → length buffer ≤ i
    → i < at
    → get_elem? (put bytes at buffer) i ≡ some 0
unfolding put
get_elem?-put_gap bytes zero buffer i le lt = absurd (omega arith)
get_elem?-put_gap bytes (suc at) [] zero le lt = refl
get_elem?-put_gap bytes (suc at) [] (suc i) le lt =
    get_elem?-put_gap bytes at [] i (omega arith) (omega arith)
get_elem?-put_gap bytes (suc at) (b ∷ bs) zero le lt = absurd (omega arith)
get_elem?-put_gap bytes (suc at) (b ∷ bs) (suc i) le lt =
    get_elem?-put_gap bytes at bs i (omega arith) (omega arith)
