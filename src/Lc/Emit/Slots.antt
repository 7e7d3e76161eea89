-- ===== src/Lc/Emit/Slots.antt =====
-- Where the local variables of a function stand in its frame.
use irid.Base.{◌∙◌, ◌⊎◌, ℕ, ◌+◌, ◌≡◌, ◌≢◌, refl, List, [], ◌∷◌, ok, stop, arith, inl, inr}
use irid.Base.Results.{>>=-eq-ok}
use irid.Lc.Stop.{Compiling}
use irid.Lc.Types.{int}
use irid.Lc.Emit.{Local, Emitter, Lines}
use irid.Lc.Emit.Blocks.{
  kept, with_local, Block, Frame, size_of, emit_local, emit_block, emit_blocks,
}

-- The local variables that the blocks declare.
abbrev pub locals_of : List Block → List Local
locals_of [] = []
locals_of (Block.local l ∷ bs) = l ∷ locals_of bs
locals_of (_ ∷ bs) = locals_of bs

-- No block starts the frame anew.
abbrev pub NoPreamble : List Block → Type 0
NoPreamble [] = Unit {0}
NoPreamble (Block.preamble ∷ bs) = ⊥
NoPreamble (_ ∷ bs) = NoPreamble bs

-- The block of no local is `block`.
abbrev pub Fresh : ℕ → List Local → Type 0
Fresh block [] = Unit {0}
Fresh block (l ∷ ls) = (l.block ≢ block) × Fresh block ls

-- Each local has a block of its own.
abbrev pub Distinct : List Local → Type 0
Distinct [] = Unit {0}
Distinct (l ∷ ls) = Fresh l.block ls × Distinct ls

-- The locals stand one behind the other in the frame, each with as many bytes as its type has: from `lo`
-- bytes below the base pointer down to `hi` bytes below it, as ints modulo 2 ^ 32.
abbrev pub Slots : Emitter → ℕ → List Local → ℕ → Type 0
Slots e lo [] hi = lo ≡ hi
Slots e lo (l ∷ ls) hi =
    (size : ℕ) × (size_of e l.type ≡ ok size)
    × (e.offset l.block ≡ int (lo + size))
    × Slots e (int (lo + size)) ls hi

kept-same :
    (func : Frame) (m : Compiling Lines) {out : Lines × Frame} → kept func m ≡ ok out → func ≡ out.1
kept-same func (ok ls) h = cc
kept-same func (stop e) h = cc

-- A block that is neither a local nor a preamble.
abbrev Other : Block → Type 0
Other Block.preamble = ⊥
Other (Block.local l) = ⊥
Other _ = Unit {0}

emit_block-same :
    (func : Frame) (b : Block) {out : Lines × Frame}
    → Other b
    → emit_block func b ≡ ok out
    → func ≡ out.1
unfolding emit_block
emit_block-same func Block.preamble o h = elim o [ ]
emit_block-same func (Block.local l) o h = elim o [ ]
emit_block-same func Block.epilogue o h = cc
emit_block-same func (Block.store l value offset at) o h = kept-same func _ h
emit_block-same func (Block.call name args) o h = kept-same func _ h
emit_block-same func (Block.asm source) o h = cc
emit_block-same func (Block.label name) o h = cc
emit_block-same func (Block.jmp type dest) o h = cc
emit_block-same func (Block.store_return value) o h = kept-same func _ h
emit_block-same func (Block.store_result l offset) o h = kept-same func _ h
emit_block-same func (Block.store_arg l arg) o h = kept-same func _ h
emit_block-same func (Block.cmp left right) o h = kept-same func _ h
emit_block-same func Block.other o h = cc

with_local_self :
    (func : Frame) (l : Local) (size : ℕ)
    → (with_local func l size).emitter.offset l.block ≡ int (func.locals_size + size)
with_local_self func l size = ground arith

with_local-ne :
    (func : Frame) (l : Local) (size k : ℕ)
    → l.block ≢ k
    → (with_local func l size).emitter.offset k ≡ func.emitter.offset k
with_local-ne func l size k ne = ground arith

-- What the emission of a local variable does to the frame.
emit_local-frame :
    (func : Frame) (l : Local) {out : Lines × Frame}
    → emit_local func l ≡ ok out
    → (size : ℕ) × (size_of func.emitter l.type ≡ ok size)
      × (out.1.emitter.offset l.block ≡ int (func.locals_size + size))
      × (out.1.locals_size ≡ int (func.locals_size + size))
      × (out.1.emitter.types ≡ func.emitter.types)
      × ((k : ℕ) → l.block ≢ k → out.1.emitter.offset k ≡ func.emitter.offset k)
unfolding emit_local
emit_local-frame func l {out} h =
    let (size, e, later) = >>=-eq-ok (size_of func.emitter l.type) _ h in
    let whole : with_local func l size ≡ out.1 = cc in
    (
      size,
      e,
      rw (← whole) (with_local_self func l size),
      rw (← whole) refl,
      rw (← whole) refl,
      rw (← whole) (with_local-ne func l size),
    )

-- The first of the blocks declares a local, or it is another block and leaves the frame alone.
block_view :
    (b : Block) (bs : List Block)
    → NoPreamble (b ∷ bs)
    → NoPreamble bs
      × (((l : Local) × (b ≡ Block.local l)) ⊎ (Other b × (locals_of (b ∷ bs) ≡ locals_of bs)))
block_view Block.preamble bs h = elim h [ ]
block_view (Block.local l) bs h = (h, inl (l, refl))
block_view _ bs h = (h, inr (tt, refl))

-- A local that the blocks do not declare keeps its offset, and the types are the same.
emit_blocks-Fresh :
    (func : Frame) (bs : List Block) (k : ℕ) {out : Lines × Frame}
    → NoPreamble bs
    → Fresh k (locals_of bs)
    → emit_blocks func bs ≡ ok out
    → (out.1.emitter.offset k ≡ func.emitter.offset k) × (out.1.emitter.types ≡ func.emitter.types)
unfolding emit_blocks emit_block
emit_blocks-Fresh func [] k {out} none fresh h = let e : func ≡ out.1 = cc in rw (← e) (refl, refl)
emit_blocks-Fresh func (b ∷ bs) k {out} none fresh h =
    let (one, e, later) = >>=-eq-ok (emit_block func b) _ h in
    let (rest, e', last) = >>=-eq-ok (emit_blocks one.1 bs) _ later in
    let whole : rest.1 ≡ out.1 = cc in
    let (none', cases) = block_view b bs none in
    elim cases [
      | inl (l, is) ↦
          let fresh' : (l.block ≢ k) × Fresh k (locals_of bs) = rw is at fresh in
          let (size, sized, at, total, types, others) = emit_local-frame func l (rw is at e) in
          let (at', types') = emit_blocks-Fresh one.1 bs k none' fresh'.1 e' in
          rw (← whole) (at' ∙ others k fresh'.0, types' ∙ types)
      | inr (other, same) ↦
          let kept = emit_block-same func b other e in
          let (at', types') = emit_blocks-Fresh one.1 bs k none' (rw same at fresh) e' in
          rw (← whole, kept) (at', types')
    ]

-- When blocks with no preamble are emitted, and each local variable has a block of its own, the variables
-- that they declare get slots one behind the other in the frame, each as large as its type, with offsets
-- that are counted modulo 2 ^ 32.
pub emit_blocks-Slots :
    (func : Frame) (bs : List Block) {out : Lines × Frame}
    → NoPreamble bs
    → Distinct (locals_of bs)
    → emit_blocks func bs ≡ ok out
    → Slots out.1.emitter func.locals_size (locals_of bs) out.1.locals_size
unfolding emit_blocks emit_block
emit_blocks-Slots func [] {out} none distinct h = let e : func ≡ out.1 = cc in rw (← e) refl
emit_blocks-Slots func (b ∷ bs) {out} none distinct h =
    let (one, e, later) = >>=-eq-ok (emit_block func b) _ h in
    let (rest, e', last) = >>=-eq-ok (emit_blocks one.1 bs) _ later in
    let whole : rest.1 ≡ out.1 = cc in
    let (none', cases) = block_view b bs none in
    elim cases [
      | inl (l, is) ↦
          let distinct' : Fresh l.block (locals_of bs) × Distinct (locals_of bs) =
            rw is at distinct in
          let (size, sized, at, total, types, others) = emit_local-frame func l (rw is at e) in
          let (at', types') = emit_blocks-Fresh one.1 bs l.block none' distinct'.0 e' in
          let slots = emit_blocks-Slots one.1 bs none' distinct'.1 e' in
          rw (← whole, is) (size, rw (types', types) sized, at' ∙ at, rw total at slots)
      | inr (other, same) ↦
          let kept = emit_block-same func b other e in
          rw (← whole, kept, same) (emit_blocks-Slots one.1 bs none' (rw same at distinct) e')
    ]
