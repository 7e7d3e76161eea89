-- ===== src/Lc/Compiler/Frame.antt =====
-- The frame of a compiled function, the start value of a loop, and casts.
use mathlib.Core.List.{append_assoc, append-nil}
use irid.Base.{
  ◌>>◌, ℕ, suc, ◌≡◌, refl, ap, false, not, List, [], ◌∷◌, ◌++◌, Result, ok, and_then,
  and_then-eq-ok,
}
use irid.Base.Bytes.{Bytes, codes}
use irid.Lc.Stop.{Stop}
use irid.Lc.Tokens.{Tok}
use irid.Lc.Parser.{ParsedType}
use irid.Lc.Types.{TypeId, register_resolve}
use irid.Lc.Emit.{Local, Value}
use irid.Lc.Emit.Blocks.{Block, FileBlock}
use irid.Lc.Parser.Nodes.{Nodes, FuncDecl}
use irid.Lc.Parser.Declarations.{Param}
use irid.Lc.Compiler.{alloc_local, make_real_type, gets, Variable, Context, find_sig, add_block}
use irid.Lc.Compiler.Statements.{block_before, compile_loop, place_node}
use irid.Lc.Compiler.Functions.{
  is_naked, is_local, optional_type, insert_locals, add_local_blocks, store_arguments,
  func_store_arguments, compile_body, compile_func,
}
use irid.Lc.Compiler.Keeps.{
  ok_pair, NotLocal, First, Kept, Kept-ok, kept, new_label-Kept, stopped, Kept-bind, Kept-then,
  Kept-option, add_block-Kept, alloc_local-Kept,
}
use irid.Lc.Compiler.Keeps.Statements.{walk-Kept, place_node-Kept, end-Kept}
use irid.Base.{sym, length, take, drop, All, Option, none, some}
use irid.Lc.Tokens.{Tok}
use irid.Lc.Parser.{ParsedType}
use irid.Lc.Parser.Nodes.{Node, node, cons, node_loop}
use irid.Lc.Compiler.{make_real_type}
use irid.Lc.Compiler.Values.{Draft, to_value}
use irid.Lc.Compiler.Calls.{convert_node_into_value}

-- The blocks of the variables, the last one first.
abbrev pub local_blocks : List Variable → List Block
local_blocks [] = []
local_blocks (v ∷ vs) = local_blocks vs ++ (Block.local v.local ∷ [])

insert_locals-eq :
    (first : Block) (vs : List Variable) (behind : List Block)
    → insert_locals first vs behind ≡ first ∷ (local_blocks vs ++ behind)
unfolding insert_locals
insert_locals-eq first [] behind = refl
insert_locals-eq first (v ∷ vs) behind =
    rw (insert_locals-eq first vs (Block.local v.local ∷ behind), append_assoc) refl

store_arguments-Kept :
    (b : List Block) (i : ℕ) (types : List TypeId) (params : List Param) (s : Context)
    → First b s
    → Kept b (store_arguments i types params s)
unfolding store_arguments
store_arguments-Kept b i [] params s first = kept first
store_arguments-Kept b i (type ∷ types) [] s first = stopped
store_arguments-Kept b i (type ∷ types) ((parsed, place, name) ∷ params) s first =
    Kept-bind b (alloc_local-Kept b type name false s first) λ arg s₁ f₁.
      Kept-bind b (add_block-Kept b (Block.store_arg arg i) s₁ tt f₁)
        λ _ s₂ f₂. store_arguments-Kept b (suc i) types params s₂ f₂

arguments-Kept :
    (b : List Block) (decl : FuncDecl) (s : Context)
    → First b s
    → Kept b (func_store_arguments decl s)
unfolding func_store_arguments
arguments-Kept b decl s first =
    Kept-option b (find_sig s.compiler.funcs decl.name) _ _ stopped
      λ sig. store_arguments-Kept b 0 sig.param_types decl.params s first

-- A function with its frame: it starts with the preamble and a block for each variable, has no other blocks of
-- variables, and ends with the label E and the epilogue.
abbrev pub IsFramed : FuncDecl → FileBlock → Context → Type 0
IsFramed decl one s =
    (behind : List Block) × All NotLocal behind
    × (one
        ≡ FileBlock.func (not (is_local decl)) decl.name (
            Block.preamble
            ∷ ((local_blocks s.func.locals ++ behind)
                ++ (Block.label (codes "E") ∷ Block.epilogue ∷ []))))

add_locals-eq :
    (b : Block) (behind : List Block) (s : Context)
    → s.func.blocks ≡ b ∷ behind
    → add_local_blocks s
      ≡ ok (tt, record s { func = record s.func { blocks = insert_locals b s.func.locals behind } })
unfolding add_local_blocks
add_locals-eq b behind s e = rw (add_local_blocks, e) refl

abbrev preamble : List Block
preamble = Block.preamble ∷ []

-- The preamble comes first.
started : (s : Context) → s.func.blocks ≡ [] → Kept preamble (add_block Block.preamble s)
unfolding add_block
started s e = kept ([], rw e refl, tt)

framed_blocks :
    (vs : List Variable) (behind : List Block)
    → (insert_locals Block.preamble vs behind ++ (Block.label (codes "E") ∷ []))
        ++ (Block.epilogue ∷ [])
      ≡ Block.preamble
        ∷ ((local_blocks vs ++ behind) ++ (Block.label (codes "E") ∷ Block.epilogue ∷ []))
framed_blocks vs behind = rw (insert_locals-eq Block.preamble vs behind, append_assoc) refl

-- The end of a function, where the preamble is in front.
ended :
    (decl : FuncDecl) (behind : List Block) (s s' : Context) (one : FileBlock)
    → s.func.blocks ≡ Block.preamble ∷ behind
    → All NotLocal behind
    → and_then (add_local_blocks s) (λ _.
      add_block (Block.label (codes "E"))
      >> (add_block Block.epilogue
          >> gets (λ s. FileBlock.func (not (is_local decl)) decl.name s.func.blocks)))
      ≡ ok (one, s')
    → IsFramed decl one s'
unfolding add_block
ended decl behind s s' one e all h =
    let (same, state) = ok_pair (rw (add_locals-eq Block.preamble behind s e) at h) in
    rw (← same, ← state)
      (
        behind,
        all,
        ap (FileBlock.func (not (is_local decl)) decl.name) (framed_blocks s.func.locals behind),
      )

body-IsFramed :
    (fuel : ℕ) (decl : FuncDecl) (body : Nodes) (s : Context) (one : FileBlock) (s' : Context)
    → s.func.blocks ≡ []
    → compile_body false fuel decl body s ≡ ok (one, s')
    → IsFramed decl one s'
unfolding compile_body
body-IsFramed fuel decl body s one s' empty =
    let P = λ (r : Result Stop (FileBlock × Context)). r ≡ ok (one, s') → IsFramed decl one s' in
    Kept-then preamble P (λ why e. cc) (started s empty)
      λ _ s₁ f₁.
        Kept-then preamble P (λ why e. cc) (arguments-Kept preamble decl s₁ f₁)
          λ _ s₂ f₂.
            Kept-then preamble P (λ why e. cc)
              (walk-Kept preamble (place_node fuel) (place_node-Kept preamble fuel) body s₂ f₂)
              λ _ s₃ (behind, e₃, all). ended decl behind s₃ s' one e₃ all

-- A function that is not naked, where it is compiled, starts with the preamble and one block for each of its
-- variables, the last one first, has no other blocks of variables, and ends with the label E and the epilogue.
pub compile_func-IsFramed :
    (fuel : ℕ) (decl : FuncDecl) (body : Nodes) (s : Context) {one : FileBlock} {s' : Context}
    → is_naked decl ≡ false
    → compile_func fuel decl body s ≡ ok (one, s')
    → IsFramed decl one s'
unfolding compile_func
compile_func-IsFramed fuel decl body s {one} {s'} framed e =
    let (return_type, s₁, at, later) = and_then-eq-ok (optional_type decl.return_type s) _ e in
    body-IsFramed fuel decl body _ one s' refl (rw framed at later)

take-append : (xs ys : List Block) → take (length xs) (xs ++ ys) ≡ xs
take-append [] ys = refl
take-append (x ∷ xs) ys = ap (λ zs. x ∷ zs) (take-append xs ys)

drop-append : (xs ys : List Block) → drop (length xs) (xs ++ ys) ≡ ys
drop-append [] ys = refl
drop-append (x ∷ xs) ys = drop-append xs ys

-- A block that is put in front of the blocks that a value makes.
before-eq :
    (fuel : ℕ) (make : Value → Block) (n : Node) (s : Context) {s' : Context} {v : Draft}
    (made : List Block)
    → convert_node_into_value fuel n s ≡ ok (v, s')
    → s'.func.blocks ≡ s.func.blocks ++ made
    → block_before fuel make n s
      ≡ ok (
        tt,
        record s' {
          func = record s'.func { blocks = s.func.blocks ++ (make (to_value false v) ∷ made) };
        },
      )
unfolding block_before
before-eq fuel make n s {s'} {v} made converted grown =
    rw (converted, grown, take-append s.func.blocks made, drop-append s.func.blocks made) refl

-- Where a loop is compiled whose start value adds the blocks `made`, such as a call, the block that stores the
-- value in the variable of the loop stands in front of them: it reads the value before it is there.
pub value_comes_late :
    (fuel : ℕ) (name : Bytes) (place : Option Tok) (cast : Option ParsedType) (start end : Node)
    (body : Nodes) (s s₁ s₂ s' : Context) (int : TypeId) (i : Local) (v : Draft) (made : List Block)
    → register_resolve s.compiler.types (codes "int") ≡ some int
    → alloc_local int name false s ≡ ok (i, s₁)
    → convert_node_into_value fuel start s₁ ≡ ok (v, s₂)
    → s₂.func.blocks ≡ s₁.func.blocks ++ made
    → place_node (suc fuel) (node (node_loop name) place cast (cons start (cons end body))) s
      ≡ ok (tt, s')
    → (behind : List Block) × (s'.func.blocks
        ≡ (s₁.func.blocks ++ (Block.store i (to_value false v) 0 none ∷ made)) ++ behind)
unfolding place_node compile_loop
value_comes_late fuel name place cast start end body s s₁ s₂ s' int i v made resolved allocated
      converted grown placed =
    let late = before-eq fuel (λ v. Block.store i v 0 none) start s₁ made converted grown in
    let front = s₁.func.blocks ++ (Block.store i (to_value false v) 0 none ∷ made) in
    let rest = rw (resolved, allocated, late) at placed in
    let (behind, e, all) = Kept-ok front rest (
      Kept-bind front (new_label-Kept front b'L' _ ([], sym (append-nil front), tt))
        λ loop_label s₄ f₄.
          Kept-bind front (add_block-Kept front (Block.label loop_label) s₄ tt f₄) λ _ s₅ f₅.
            Kept-bind front
              (walk-Kept front (place_node fuel) (place_node-Kept front fuel) body s₅ f₅)
              λ _ s₆ f₆. end-Kept front fuel i loop_label end s₆ f₆) in
    (behind, e)
