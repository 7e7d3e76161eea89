-- ===== src/Lc/Compiler/Keeps/Assign.antt =====
-- Assignments add blocks behind those that stand there.
use irid.Base.{List, ℕ, Option}
use irid.Base.Bytes.{Bytes}
use irid.Lc.Tokens.{Tok}
use irid.Lc.Types.{find_field, field_offset}
use irid.Lc.Emit.Blocks.{Block}
use irid.Lc.Parser.Nodes.{Node, Nodes, node, nil, cons, node_label, node_field, node_index}
use irid.Lc.Compiler.{Context}
use irid.Lc.Compiler.Values.{type_size_of}
use irid.Lc.Compiler.Assign.{
  resolve_local, struct_fields, resolve_field, convert_first, resolve_index, assign_var,
  compile_assign,
}
use irid.Lc.Compiler.Keeps.{
  First, Kept, kept, stopped, Kept-bind, Kept-if, Kept-option, ce-Kept, types_read, find_var-Kept,
  add_block-Kept,
}
use irid.Lc.Compiler.Keeps.Calls.{convert-Kept}

module _ (b : List Block) where
  local-Kept :
      (place : Option Tok) (name : Bytes) (s : Context)
      → First b s
      → Kept b (resolve_local place name s)
  unfolding resolve_local
  local-Kept place name s first =
      Kept-bind b (find_var-Kept b name s first)
        λ found s₁ f₁. Kept-option b found _ _ (ce-Kept b place s₁) λ (is_global, v). kept f₁

  field-Kept : (children : Nodes) (s : Context) → First b s → Kept b (resolve_field children s)
  unfolding resolve_field
  field-Kept nil s first = stopped
  field-Kept (cons (node (node_label name) place c n) nil) s first = stopped
  field-Kept (cons (node (node_label name) place c n) (cons (node (node_label field) p c' n') more))
        s first =
      Kept-bind b (local-Kept place name s first) λ v s₁ f₁.
        Kept-bind b (types_read b (struct_fields s₁.compiler.types v.local.type) s₁ f₁)
          λ fields s₂ f₂.
            Kept-option b fields _ _ (Kept-if b v.has_decl _ _ (ce-Kept b place s₂) stopped) λ fs.
              Kept-option b (find_field fs field) _ _ (ce-Kept b place s₂) λ type.
                Kept-bind b
                  (types_read b (field_offset (type_size_of s₂.compiler.types) fs field) s₂ f₂)
                  λ offset s₃ f₃. kept f₃
  field-Kept (cons (node (node_label name) place c n) (cons _ more)) s first =
      Kept-bind b (local-Kept place name s first) λ v s₁ f₁.
        Kept-bind b (types_read b (struct_fields s₁.compiler.types v.local.type) s₁ f₁)
          λ fields s₂ f₂.
            Kept-option b fields _ _ (Kept-if b v.has_decl _ _ (ce-Kept b place s₂) stopped)
              λ fs. ce-Kept b place s₂
  field-Kept (cons (node _ place c n) more) s first = ce-Kept b place s

  module _ (fuel : ℕ) where
    first-Kept :
        (children : Nodes) (s : Context) → First b s → Kept b (convert_first fuel children s)
    unfolding convert_first
    first-Kept nil s first = stopped
    first-Kept (cons at more) s first =
        Kept-bind b (convert-Kept b fuel at s first) λ i s₁ f₁. kept f₁

    index-Kept :
        (children : Nodes) (s : Context) → First b s → Kept b (resolve_index fuel children s)
    unfolding resolve_index
    index-Kept nil s first = stopped
    index-Kept (cons (node (node_label name) place c n) more) s first =
        Kept-bind b (local-Kept place name s first)
          λ v s₁ f₁. Kept-bind b (first-Kept more s₁ f₁) λ i s₂ f₂. kept f₂
    index-Kept (cons (node (node_field name) place c n) more) s first =
        Kept-bind b (field-Kept n s first)
          λ v s₁ f₁. Kept-bind b (first-Kept more s₁ f₁) λ i s₂ f₂. kept f₂
    index-Kept (cons (node _ place c n) more) s first = ce-Kept b place s

    var-Kept : (n : Node) (s : Context) → First b s → Kept b (assign_var fuel n s)
    unfolding assign_var
    var-Kept (node (node_label name) place c n) s first =
        Kept-bind b (local-Kept place name s first) λ v s₁ f₁. kept f₁
    var-Kept (node (node_field name) place c n) s first =
        Kept-bind b (field-Kept n s first) λ v s₁ f₁. kept f₁
    var-Kept (node node_index place c n) s first = index-Kept n s first
    var-Kept (node _ place c n) s first = kept first

    pub assign-Kept :
        (children : Nodes) (s : Context) → First b s → Kept b (compile_assign fuel children s)
    unfolding compile_assign
    assign-Kept nil s first = stopped
    assign-Kept (cons var nil) s first = stopped
    assign-Kept (cons var (cons value more)) s first =
        Kept-bind b (var-Kept var s first) λ (target, at) s₁ f₁.
          Kept-bind b (convert-Kept b fuel value s₁ f₁)
            λ v s₂ f₂. Kept-option b target _ _ stopped λ (l, offset). add_block-Kept b _ s₂ tt f₂
