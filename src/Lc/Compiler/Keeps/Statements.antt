-- ===== src/Lc/Compiler/Keeps/Statements.antt =====
-- Statements add blocks behind those that stand there.
use irid.Base.{
  ◌≡◌, ap, length-append, [], All, List, ℕ, zero, suc, refl, true, false, ◌∷◌, ◌++◌, Option, arith,
  ◌≤◌, length, take, drop,
}
use irid.Base.Bytes.{Bytes, codes}
use irid.Lc.Tokens.{Tok}
use irid.Lc.Types.{type_at, type_is_null, register_resolve}
use irid.Lc.Emit.{Local, Value}
use irid.Lc.Emit.Blocks.{Block, always}
use irid.Lc.Parser.{ParsedType}
use irid.Lc.Parser.Nodes.{
  Node, Nodes, node, nil, cons, place_of, node_cmpeq, node_cmpneq, node_var_decl, node_assign,
  node_call, node_return, node_if, node_loop,
}
use irid.Lc.Compiler.{Context, Compile, find_variable}
use irid.Lc.Compiler.Statements.{
  compile_var_decl, compile_return, compare_node, put_at, block_before, compile_if, loop_end,
  compile_loop, walk, place_node,
}
use irid.Lc.Compiler.Keeps.{
  NotLocal, All-append, First, Kept, kept, stopped, Kept-bind, Kept-if, Kept-option, ce-Kept,
  types_read, or_crash-Kept, make_real_type-Kept, add_block-Kept, alloc_local-Kept, new_label-Kept,
}
use irid.Lc.Compiler.Keeps.Calls.{call-Kept, convert-Kept}
use irid.Lc.Compiler.Keeps.Assign.{assign-Kept}

All-take : (n : ℕ) (xs : List Block) → All NotLocal xs → All NotLocal (take n xs)
All-take zero xs all = tt
All-take (suc n) [] all = tt
All-take (suc n) (x ∷ xs) (h, all) = (h, All-take n xs all)

All-drop : (n : ℕ) (xs : List Block) → All NotLocal xs → All NotLocal (drop n xs)
All-drop zero xs all = all
All-drop (suc n) [] all = tt
All-drop (suc n) (x ∷ xs) (h, all) = All-drop n xs all

-- A block that goes in behind some blocks leaves those in front.
put-behind :
    (p behind : List Block) (n : ℕ) (block : Block)
    → length p ≤ n
    → (k : ℕ) × (take n (p ++ behind) ++ (block ∷ drop n (p ++ behind))
        ≡ p ++ (take k behind ++ (block ∷ drop k behind)))
put-behind [] behind n block h = (n, refl)
put-behind (x ∷ p) behind zero block h = absurd (omega arith)
put-behind (x ∷ p) behind (suc n) block h =
    let (k, e) = put-behind p behind n block (omega arith) in (k, ap (λ bs. x ∷ bs) e)

module _ (b : List Block) where
  put_at-First :
      (n : ℕ) (block : Block) (s : Context)
      → length b ≤ n
      → NotLocal block
      → First b s
      → First b (put_at n block s)
  put_at-First n block s h other (behind, e, all) =
      let (k, at) = put-behind b behind n block h in
      (
        take k behind ++ (block ∷ drop k behind),
        rw (e, at) refl,
        All-append (take k behind) (block ∷ drop k behind) (All-take k behind all)
            (other, All-drop k behind all),
      )

  var_decl-Kept :
      (place : Option Tok) (type : ParsedType) (name : Bytes) (s : Context)
      → First b s
      → Kept b (compile_var_decl place type name s)
  unfolding compile_var_decl
  var_decl-Kept place type name s first =
      Kept-option b (find_variable s.func.locals name) _ _
        (Kept-bind b (make_real_type-Kept b type s first)
          λ id s₁ f₁. Kept-bind b (alloc_local-Kept b id name true s₁ f₁) λ _ s₂ f₂. kept f₂)
        λ v. ce-Kept b place s

  module _ (fuel : ℕ) where
    return-Kept :
        (place : Option Tok) (children : Nodes) (s : Context)
        → First b s
        → Kept b (compile_return fuel place children s)
    unfolding compile_return
    return-Kept place nil s first =
        Kept-bind b
          (Kept-option b s.func.return_type _ _ (kept first) λ id.
            Kept-bind b (types_read b (type_at s.compiler.types id) s first) λ t s₁ f₁. kept f₁)
          λ type s₂ f₂.
            Kept-bind b (Kept-if b (type_is_null type) _ _ (kept f₂) (ce-Kept b place s₂))
              λ _ s₄ f₄. add_block-Kept b (Block.jmp always (codes "E")) s₄ tt f₄
    return-Kept place (cons value more) s first =
        Kept-bind b
          (Kept-option b s.func.return_type _ _ (kept first) λ id.
            Kept-bind b (types_read b (type_at s.compiler.types id) s first) λ t s₁ f₁. kept f₁)
          λ type s₂ f₂.
            Kept-bind b
              (Kept-if b (type_is_null type) _ _ (ce-Kept b (place_of value) s₂) (
                Kept-bind b (convert-Kept b fuel value s₂ f₂)
                  λ v s₃ f₃. add_block-Kept b _ s₃ tt f₃))
              λ _ s₄ f₄. add_block-Kept b (Block.jmp always (codes "E")) s₄ tt f₄

    compare-Kept : (n : Node) (s : Context) → First b s → Kept b (compare_node fuel n s)
    unfolding compare_node
    compare-Kept (node node_cmpeq place c nil) s first = stopped
    compare-Kept (node node_cmpeq place c (cons left nil)) s first = stopped
    compare-Kept (node node_cmpeq place c (cons left (cons right more))) s first =
        Kept-bind b (convert-Kept b fuel left s first)
          λ l s₁ f₁. Kept-bind b (convert-Kept b fuel right s₁ f₁) λ r s₂ f₂. kept f₂
    compare-Kept (node node_cmpneq place c nil) s first = stopped
    compare-Kept (node node_cmpneq place c (cons left nil)) s first = stopped
    compare-Kept (node node_cmpneq place c (cons left (cons right more))) s first =
        Kept-bind b (convert-Kept b fuel left s first)
          λ l s₁ f₁. Kept-bind b (convert-Kept b fuel right s₁ f₁) λ r s₂ f₂. kept f₂
    compare-Kept (node _ place c n) s first = ce-Kept b place s

    before-Kept :
        (make : Value → Block) (n : Node) (s : Context)
        → ((v : Value) → NotLocal (make v))
        → First b s
        → Kept b (block_before fuel make n s)
    unfolding block_before
    before-Kept make n s others (behind, e, all) =
        Kept-bind b (convert-Kept b fuel n s (behind, e, all)) λ v s₁ f₁. kept (
          put_at-First (length s.func.blocks) _ s₁ (rw e (omega (arith, length-append b behind)))
            (others _) f₁)

    if-Kept :
        (place_nodes : Nodes → Compile (Unit {0}))
        → ((body : Nodes) (s : Context) → First b s → Kept b (place_nodes body s))
        → (children : Nodes) (s : Context) → First b s
        → Kept b (compile_if fuel place_nodes children s)
    unfolding compile_if
    if-Kept place_nodes again nil s first = stopped
    if-Kept place_nodes again (cons condition body) s first =
        Kept-bind b (new_label-Kept b b'L' s first) λ yes_label s₁ f₁.
          Kept-bind b (new_label-Kept b b'L' s₁ f₁) λ no_label s₂ f₂.
            Kept-bind b (compare-Kept condition s₂ f₂) λ (jump, left, right) s₃ f₃.
              Kept-bind b (add_block-Kept b _ s₃ tt f₃) λ _ s₄ f₄.
                Kept-bind b (add_block-Kept b _ s₄ tt f₄) λ _ s₅ f₅.
                  Kept-bind b (add_block-Kept b _ s₅ tt f₅) λ _ s₆ f₆.
                    Kept-bind b (add_block-Kept b _ s₆ tt f₆) λ _ s₇ f₇.
                      Kept-bind b (again body s₇ f₇) λ _ s₈ f₈. add_block-Kept b _ s₈ tt f₈

    pub end-Kept :
        (i : Local) (loop_label : Bytes) (end : Node) (s : Context)
        → First b s
        → Kept b (loop_end fuel i loop_label end s)
    unfolding loop_end
    end-Kept i loop_label end s first = Kept-bind b (add_block-Kept b _ s tt first) λ _ s₁ f₁.
        Kept-bind b (before-Kept _ end s₁ (λ v. tt) f₁) λ _ s₂ f₂.
          Kept-bind b (new_label-Kept b b'E' s₂ f₂) λ end_label s₃ f₃.
            Kept-bind b (add_block-Kept b _ s₃ tt f₃) λ _ s₄ f₄.
              Kept-bind b (add_block-Kept b _ s₄ tt f₄) λ _ s₅ f₅. add_block-Kept b _ s₅ tt f₅

    loop-Kept :
        (place_nodes : Nodes → Compile (Unit {0}))
        → ((body : Nodes) (s : Context) → First b s → Kept b (place_nodes body s))
        → (name : Bytes) (children : Nodes) (s : Context) → First b s
        → Kept b (compile_loop fuel place_nodes name children s)
    unfolding compile_loop
    loop-Kept place_nodes again name nil s first = stopped
    loop-Kept place_nodes again name (cons start nil) s first = stopped
    loop-Kept place_nodes again name (cons start (cons end body)) s first =
        Kept-bind b (or_crash-Kept b (register_resolve s.compiler.types (codes "int")) s first)
          λ int s₁ f₁. Kept-bind b (alloc_local-Kept b int name false s₁ f₁) λ i s₂ f₂.
            Kept-bind b (before-Kept _ start s₂ (λ v. tt) f₂) λ _ s₃ f₃.
              Kept-bind b (new_label-Kept b b'L' s₃ f₃) λ loop_label s₄ f₄.
                Kept-bind b (add_block-Kept b _ s₄ tt f₄) λ _ s₅ f₅.
                  Kept-bind b (again body s₅ f₅) λ _ s₆ f₆. end-Kept i loop_label end s₆ f₆

  pub walk-Kept :
      (place_node : Node → Compile (Unit {0}))
      → ((n : Node) (s : Context) → First b s → Kept b (place_node n s))
      → (body : Nodes) (s : Context) → First b s
      → Kept b (walk place_node body s)
  unfolding walk
  walk-Kept place_node again nil s first = kept first
  walk-Kept place_node again (cons statement rest) s first =
      Kept-bind b (again statement s first) λ _ s₁ f₁. walk-Kept place_node again rest s₁ f₁

  pub place_node-Kept :
      (fuel : ℕ) (n : Node) (s : Context) → First b s → Kept b (place_node fuel n s)
  unfolding place_node
  place_node-Kept zero n s first = stopped
  place_node-Kept (suc fuel) (node (node_var_decl type name) place c children) s first =
      var_decl-Kept place type name s first
  place_node-Kept (suc fuel) (node node_assign place c children) s first =
      assign-Kept b fuel children s first
  place_node-Kept (suc fuel) (node (node_call end) place c children) s first =
      call-Kept b _ (convert-Kept b fuel) place end children s first
  place_node-Kept (suc fuel) (node node_return place c children) s first =
      return-Kept fuel place children s first
  place_node-Kept (suc fuel) (node node_if place c children) s first =
      if-Kept fuel _ (walk-Kept _ (place_node-Kept fuel)) children s first
  place_node-Kept (suc fuel) (node (node_loop name) place c children) s first =
      loop-Kept fuel _ (walk-Kept _ (place_node-Kept fuel)) name children s first
  place_node-Kept (suc fuel) (node _ place c children) s first = ce-Kept b place s
