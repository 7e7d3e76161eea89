-- ===== src/Tools/Bytebuffer/Refines.antt =====
-- The allocated buffer holds the bytes that it is meant to hold.
use irid.Base.{
  false, ◌&&◌, ℕ, zero, suc, ◌+◌, ◌-◌, ◌≤◌, ◌<◌, ◌≡◌, ◌∙◌, sym, refl, false, [], ◌∷◌, ◌++◌, some,
  arith, leb, ltb, if◌then◌else◌, ok, length, take, replicate, get_elem?, get_elem?-take,
  get_elem?-append, length-take, length-append, length-replicate, Bool-cases, inl, inr, ◌⊎◌,
}
use irid.Base.Bytes.{Bytes}
use irid.Tools.Contents.{put}
use irid.Tools.Writes.{get_elem?-put, get_elem?-put_other, get_elem?-put_gap, length-put}
use irid.Tools.Bytebuffer.{Bytebuffer, contents, allocation_size, ensure_size, insert_range}

-- The size is within the allocation, and what is behind it is zero.
pub record IsBuffer (b : Bytebuffer) : Type 0 where
  pub fits : b.size ≤ length b.alloc
  pub zeros : (i : ℕ) → b.size ≤ i → i < length b.alloc → get_elem? b.alloc i ≡ some 0

get_elem?-replicate : (n : ℕ) (a i : ℕ) → i < n → get_elem? (replicate n a) i ≡ some a
get_elem?-replicate zero a i h = absurd (omega arith)
get_elem?-replicate (suc n) a zero h = refl
get_elem?-replicate (suc n) a (suc i) h = get_elem?-replicate n a i (omega arith)

-- Lists with the same items are the same.
list_ext :
    (xs ys : Bytes)
    → length xs ≡ length ys
    → ((i : ℕ) → i < length xs → get_elem? xs i ≡ get_elem? ys i)
    → xs ≡ ys
list_ext [] [] len same = refl
list_ext [] (y ∷ ys) len same = absurd (omega (arith, len))
list_ext (x ∷ xs) [] len same = absurd (omega (arith, len))
list_ext (x ∷ xs) (y ∷ ys) len same =
    let first : some x ≡ some y = same 0 (omega arith) in
    let rest = list_ext xs ys (omega (arith, len)) (λ i h. same (suc i) (omega arith)) in cc

allocated : (required : ℕ) → required < allocation_size required
unfolding allocation_size
allocated required = ground arith

-- Growing changes no byte, and makes the room that is asked for.
record Grown (required : ℕ) (b b' : Bytebuffer) : Type 0 where
  is_buffer : IsBuffer b'
  size : b'.size ≡ b.size
  room : required ≤ length b'.alloc
  same : (i : ℕ) → i < b.size → get_elem? b'.alloc i ≡ get_elem? b.alloc i

reallocated :
    (required : ℕ) (b : Bytebuffer)
    → IsBuffer b
    → length b.alloc < required
    → Grown required b (record b {
      alloc =
          take b.size b.alloc
          ++ replicate (allocation_size required - length (take b.size b.alloc)) 0;
    })
reallocated required b h short =
    let old = take b.size b.alloc in
    let space = allocation_size required - length old in
    let kept : length old ≡ b.size = omega (arith, length-take b.size b.alloc, h.fits) in
    let total : length (old ++ replicate space 0) ≡ b.size + (allocation_size required - b.size) =
      omega
        (arith, kept, length-append old (replicate space 0), length-replicate {A = ℕ} space 0) in
    let larger = allocated required in
    record {
      is_buffer = record {
        fits = omega (arith, total);
        zeros = λ i le lt.
            let inside : i - length old < space = omega (arith, total, kept) in
            ground (
              arith,
              kept,
              get_elem?-append old (replicate space 0) i,
              get_elem?-replicate space 0 (i - length old) inside,
            );
      };
      size = refl;
      room = omega (arith, total, larger, h.fits);
      same = λ i lt. ground (
        arith,
        kept,
        get_elem?-append old (replicate space 0) i,
        get_elem?-take b.size i b.alloc lt,
      );
    }

ensure_size-Grown :
    (required : ℕ) (b : Bytebuffer) → IsBuffer b → Grown required b (ensure_size required b)
unfolding ensure_size
ensure_size-Grown required b h = elim (Bool-cases (leb required (length b.alloc))) [
  | inl enough ↦
      rw (ensure_size, enough)
        (record { is_buffer = h; size = refl; room = ground arith; same = λ i lt. refl })
  | inr short ↦ rw (ensure_size, short) (reallocated required b h (ground arith))
]

module _ (bytes : Bytes) (at : ℕ) (b grown : Bytebuffer) (h : IsBuffer b)
    (g : Grown (at + length bytes) b grown) where
  abbrev end : ℕ
  end = if ltb b.size (at + length bytes) then at + length bytes else b.size

  abbrev after : Bytebuffer
  after = record grown { alloc = put bytes at grown.alloc; size = end }

  same_space : length (put bytes at grown.alloc) ≡ length grown.alloc
  same_space = ground (arith, g.room, length-put bytes at grown.alloc)

  size_fits : b.size ≤ length grown.alloc
  size_fits = omega (arith, g.size, g.is_buffer.fits)

  after-IsBuffer : IsBuffer after
  after-IsBuffer = record {
    fits = ground (arith, same_space, g.room, size_fits);
    zeros = λ i le lt.
        get_elem?-put_other bytes at grown.alloc i (omega (arith, same_space)) (inr (ground arith))
        ∙ g.is_buffer.zeros i (ground (arith, g.size)) (omega (arith, same_space));
  }

  old_length : length (take b.size b.alloc) ≡ b.size
  old_length = omega (arith, length-take b.size b.alloc, h.fits)

  outside :
      (i : ℕ)
      → i < end
      → (i < at) ⊎ (at + length bytes ≤ i)
      → get_elem? (put bytes at grown.alloc) i ≡ get_elem? (put bytes at (take b.size b.alloc)) i
  outside i lt apart =
      let inside : i < length grown.alloc = ground (arith, g.room, size_fits) in
      let now = get_elem?-put_other bytes at grown.alloc i inside apart in
      elim (Bool-cases (ltb i b.size)) [
        | inl old ↦
            let before : i < b.size = ground arith in
            now
            ∙ g.same i before
            ∙ sym (
                get_elem?-put_other bytes at (take b.size b.alloc) i (omega (arith, old_length))
                  apart
                ∙ get_elem?-take b.size i b.alloc before)
        | inr new ↦
            now
            ∙ g.is_buffer.zeros i (ground (arith, g.size)) inside
            ∙ sym (
                get_elem?-put_gap bytes at (take b.size b.alloc) i (ground (arith, old_length))
                  (ground arith))
      ]

  -- A byte of the new contents, in front of the bytes, in them, or behind them.
  after-byte :
      (i : ℕ)
      → i < end
      → get_elem? (put bytes at grown.alloc) i ≡ get_elem? (put bytes at (take b.size b.alloc)) i
  after-byte i lt = elim (Bool-cases (leb at i && ltb i (at + length bytes))) [
    | inl among ↦
        let place : at + (i - at) ≡ i = ground arith in
        let within : i - at < length bytes = ground arith in
        rw place at (get_elem?-put bytes at grown.alloc (i - at) within)
        ∙ sym (rw place at (get_elem?-put bytes at (take b.size b.alloc) (i - at) within))
    | inr apart ↦ outside i lt (ground arith)
  ]

  -- The buffer is one, and its bytes are those of the write.
  after-contents : contents after ≡ put bytes at (contents b)
  unfolding contents
  after-contents =
      let length_before : length (take end (put bytes at grown.alloc)) ≡ end =
        omega (arith, length-take end (put bytes at grown.alloc), after-IsBuffer.fits) in
      list_ext _ _
        (ground (arith, length_before, old_length, length-put bytes at (take b.size b.alloc)))
        (λ i lt.
          let small : i < end = omega (arith, length_before) in
          get_elem?-take end i (put bytes at grown.alloc) small ∙ after-byte i small)

-- A write into a buffer that is not frozen succeeds, and the bytes of the buffer are then those of the write on
-- its bytes: with the new bytes in their place, and zeros up to them where the buffer was shorter.
pub insert_range-contents :
    (bytes : Bytes) (at : ℕ) (b : Bytebuffer)
    → IsBuffer b
    → b.frozen ≡ false
    → (b' : Bytebuffer) × (insert_range bytes at b ≡ ok b')
      × IsBuffer b'
      × (contents b' ≡ put bytes at (contents b))
unfolding insert_range
insert_range-contents bytes at b h thawed =
    let grown = ensure_size (at + length bytes) b in
    let g = ensure_size-Grown (at + length bytes) b h in
    (
      after bytes at b grown h g,
      rw thawed refl,
      after-IsBuffer bytes at b grown h g,
      after-contents bytes at b grown h g,
    )
