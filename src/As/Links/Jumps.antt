-- ===== src/As/Links/Jumps.antt =====
-- as/src/assembler.cc: jumps to labels, from the line to the processor.
use mathlib.Core.List.{append_cancel_left}
use irid.Base.{
  sym, List, get_elem?-bound, ℕ, ◌+◌, ◌*◌, ◌%◌, ◌<◌, ◌≤◌, ◌≡◌, ◌≢◌, ◌∙◌, refl, true, [], ◌∷◌, ◌++◌,
  some, none, ok, arith, get_elem?,
}
use irid.Base.Bytes.{Bytes}
use irid.Tools.Contents.{put}
use irid.Tools.Writes.{get_elem?-put}
use irid.Emul.Cpu.{CpuState, u16, u8}
use irid.Emul.Registers.{ip}
use irid.Emul.Decode.{Instruction, Form, forms, find_form, fetch}
use irid.Emul.Fetch.{Holds, fetch-decoded}
use irid.As.Symbols.{is_valid_symbol, instruction_id_from_mnemonic}
use irid.As.State.{
  Assembler, LinkPoint, aligned, size, low, high, find_value, find_label, qualified, add_link_point,
  resolve_address_or_link, link,
}
use irid.As.Instructions.{address, ins_addr}
use irid.As.Encoding.{Loaded, insert_instruction-Inserted}
use irid.As.Links.{Linked, link-Linked, Linked-low, Linked-high, Linked-other}

-- The point at which a symbol is used that many bytes behind the position.
abbrev pub point : Bytes → ℕ → Assembler → LinkPoint
point symbol behind s = record { symbol = symbol; offset = size (s.pos + behind) }

-- A symbol that is not a value gives the address 0, and leaves a point to be linked.
address-point :
    (text : Bytes) (behind : ℕ) (s : Assembler) (name : Bytes)
    → is_valid_symbol text ≡ true
    → find_value s.values text ≡ none
    → qualified text s ≡ ok name
    → address text behind s
      ≡ ok (0, record s { link_points = s.link_points ++ (point name behind s ∷ []) })
unfolding address resolve_address_or_link add_link_point
address-point text behind s name valid missing named =
    rw (valid, resolve_address_or_link, missing, add_link_point, named) refl

-- The bytes of a jump to a symbol.
ins_addr-code :
    (mnemonic text name : Bytes) (id : ℕ) (s : Assembler) {t : Assembler}
    → instruction_id_from_mnemonic mnemonic ≡ id
    → is_valid_symbol text ≡ true
    → find_value s.values text ≡ none
    → qualified text s ≡ ok name
    → ins_addr (mnemonic ∷ text ∷ []) s ≡ ok t
    → t.code ≡ put (id ∷ 0 ∷ 0 ∷ 0 ∷ []) (aligned s.pos) s.code
unfolding ins_addr
ins_addr-code mnemonic text name id s is valid missing named h =
    (insert_instruction-Inserted (id ∷ 0 ∷ 0 ∷ []) _
      (rw (ins_addr, address-point text 1 s name valid missing named, is) at h)).code

-- A jump whose bytes are in the memory.
fetched_jump :
    (raw : Bytes) (pos id offset : ℕ) (f : ℕ → Instruction) (c : CpuState)
    → find_form forms id ≡ Form.word f
    → id < 256
    → pos + 4 ≤ 65536
    → Loaded raw c
    → c.reg ip ≡ pos
    → get_elem? raw pos ≡ some id
    → get_elem? raw (pos + 1) ≡ some (low offset)
    → get_elem? raw (pos + 2) ≡ some (high offset)
    → get_elem? raw (pos + 3) ≡ some 0
    → fetch c ≡ ok (f (u16 offset))
fetched_jump raw pos id offset f c form small fits loaded at op a b d =
    let held : Holds c pos id (low offset) (high offset) 0 = record {
      room = (loaded (pos + 3) 0 d).0;
      at_0 = (loaded pos id op).1;
      at_1 = (loaded (pos + 1) (low offset) a).1;
      at_2 = (loaded (pos + 2) (high offset) b).1;
      at_3 = (loaded (pos + 3) 0 d).1;
    } in
    let word : u8 (low offset) + 256 * u8 (high offset) ≡ u16 offset = omega arith in
    fetch-decoded c pos id (low offset) (high offset) 0 held fits at small ∙ rw (form, word) refl

last-append : (xs : List LinkPoint) {x y : LinkPoint} → xs ++ (x ∷ []) ≡ xs ++ (y ∷ []) → x ≡ y
last-append xs e = let last = append_cancel_left xs _ _ e in cc

-- The point that a jump to a symbol leaves.
ins_addr-point :
    (mnemonic text name : Bytes) (s : Assembler) {t : Assembler} {p : LinkPoint}
    → is_valid_symbol text ≡ true
    → find_value s.values text ≡ none
    → qualified text s ≡ ok name
    → ins_addr (mnemonic ∷ text ∷ []) s ≡ ok t
    → t.link_points ≡ s.link_points ++ (p ∷ [])
    → p ≡ point name 1 s
unfolding ins_addr
ins_addr-point mnemonic text name s {t} {p} valid missing named h recorded =
    let inserted =
      insert_instruction-Inserted (instruction_id_from_mnemonic mnemonic ∷ 0 ∷ 0 ∷ []) _
        (rw (ins_addr, address-point text 1 s name valid missing named) at h) in
    last-append s.link_points (sym recorded ∙ inserted.link_points)

-- The four bytes from an address on are the same.
abbrev pub SameAt : ℕ → Bytes → Bytes → Type 0
SameAt start old new = (i : ℕ) → i < 4 → get_elem? new (start + i) ≡ get_elem? old (start + i)

module _ (mnemonic text name : Bytes) (id : ℕ) (f : ℕ → Instruction) (s t v u : Assembler)
    (p : LinkPoint) (c : CpuState) (is : instruction_id_from_mnemonic mnemonic ≡ id)
    (form : find_form forms id ≡ Form.word f) (small : id < 256)
    (valid : is_valid_symbol text ≡ true) (missing : find_value s.values text ≡ none)
    (named : qualified text s ≡ ok name) (fits : s.pos + 7 ≤ 65536)
    (assembled : ins_addr (mnemonic ∷ text ∷ []) s ≡ ok t)
    (recorded : t.link_points ≡ s.link_points ++ (p ∷ []))
    (same : SameAt (aligned s.pos) t.code v.code) (linked : link p v ≡ ok u)
    (loaded : Loaded u.code c) where
  written : t.code ≡ put (id ∷ 0 ∷ 0 ∷ 0 ∷ []) (aligned s.pos) s.code
  written = ins_addr-code mnemonic text name id s is valid missing named assembled

  jump_bytes :
      (i b : ℕ)
      → i < 4
      → get_elem? (id ∷ 0 ∷ 0 ∷ 0 ∷ []) i ≡ some b
      → get_elem? v.code (aligned s.pos + i) ≡ some b
  jump_bytes i b lt h =
      same i lt
      ∙ rw written (
          get_elem?-put (id ∷ 0 ∷ 0 ∷ 0 ∷ []) (aligned s.pos) s.code i
            (get_elem?-bound (id ∷ 0 ∷ 0 ∷ 0 ∷ []) i h)
          ∙ h)

  point_is : p ≡ point name 1 s
  point_is = ins_addr-point mnemonic text name s valid missing named assembled recorded

  l : Linked (point name 1 s) v u
  l = link-Linked (point name 1 s) v (rw point_is at linked)

  -- A byte that the link does not reach.
  untouched :
      (i b : ℕ)
      → i ≢ s.pos + 1
      → i ≢ s.pos + 2
      → get_elem? v.code i ≡ some b
      → get_elem? u.code i ≡ some b
  untouched i b ne ne' h =
      Linked-other (point name 1 s) v u l i (get_elem?-bound v.code i h) (ground arith)
        (ground arith)
      ∙ h

  -- A jump or call whose address is a label, at a position that is a multiple of four, leaves a point. When that
  -- is linked, in a state with the same four bytes of code, the processor reads there the jump or call to the
  -- offset that the label has by then.
  pub linked_jump :
      s.pos % 4 ≡ 0
      → c.reg ip ≡ s.pos
      → (offset : ℕ) × (find_label v.labels name ≡ some offset) × (fetch c ≡ ok (f (u16 offset)))
  linked_jump four at =
      let here : aligned s.pos ≡ s.pos = ground arith in
      let next : size (s.pos + 1) ≡ s.pos + 1 = omega arith in
      let two : s.pos + 1 + 1 ≡ s.pos + 2 = omega arith in
      let zero : s.pos + 0 ≡ s.pos = omega arith in
      (
        l.offset,
        l.found,
        fetched_jump u.code s.pos id l.offset f c form small (omega arith) loaded at
            (untouched s.pos id (ground arith) (ground arith)
              (rw (here, zero) at (jump_bytes 0 id (omega arith) refl)))
            (rw next at (Linked-low (point name 1 s) v u l))
            (rw (next, two) at (Linked-high (point name 1 s) v u l))
            (untouched (s.pos + 3) 0 (ground arith) (ground arith)
              (rw here at (jump_bytes 3 0 (omega arith) refl))),
      )

  -- At a position that is one behind a multiple of four the two bytes of the label go in front of the
  -- instruction, when the point that the instruction left is linked, and the processor reads a jump or call to the
  -- address 0.
  pub misplaced_jump : s.pos % 4 ≡ 1 → c.reg ip ≡ s.pos + 3 → fetch c ≡ ok (f 0)
  misplaced_jump one at =
      let here : aligned s.pos ≡ s.pos + 3 = ground arith in
      let there : (i b : ℕ)
          → i < 4
          → get_elem? (id ∷ 0 ∷ 0 ∷ 0 ∷ []) i ≡ some b
          → get_elem? u.code (s.pos + 3 + i) ≡ some b =
        λ i b lt h.
          untouched (s.pos + 3 + i) b (ground arith) (ground arith)
            (rw here at (jump_bytes i b lt h)) in
      let zero : s.pos + 3 + 0 ≡ s.pos + 3 = omega arith in
      fetched_jump u.code (s.pos + 3) id 0 f c form small (omega arith) loaded at
        (rw zero at (there 0 id (omega arith) refl)) (there 1 0 (omega arith) refl)
        (there 2 0 (omega arith) refl) (there 3 0 (omega arith) refl)
