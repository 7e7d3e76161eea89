-- ===== src/Lc/Compiler/Keeps/Calls.antt =====
-- Calls and values add blocks behind those that stand there.
use irid.Base.{ℕ, zero, suc, false, List, [], Option, none, some, ◌==◌, length}
use irid.Base.Bytes.{codes, equal}
use irid.Lc.Tokens.{Tok}
use irid.Lc.Types.{type_at, type_is_null, find_field, field_offset}
use irid.Lc.Emit.{OpType}
use irid.Lc.Emit.Blocks.{Block}
use irid.Lc.Parser.Nodes.{
  Node, Nodes, NodeType, node, nil, cons, place_of, node_string, node_label, node_integer,
  node_call, node_field, node_addr, node_index,
}
use irid.Lc.Compiler.{Context, Compile, find_sig, find_variable}
use irid.Lc.Compiler.Values.{
  Draft, base_of, make_string_id, convert_field_into_value, fields_of, type_size_of, op_of,
}
use irid.Lc.Compiler.Calls.{
  Arg, collect_args, compile_call, new_name, convert_call_node_into_value, convert_index,
  convert_op, convert_type, convert_node_into_value,
}
use irid.Lc.Compiler.Keeps.{
  First, Kept, kept, stopped, Kept-bind, Kept-if, Kept-option, ce-Kept, types_read, or_crash-Kept,
  find_var-Kept, make_real_type-Kept, add_block-Kept, alloc_local-Kept,
}
use irid.Lc.Compiler.Keeps.Args.{value_type-Kept, decay-Kept, validate-Kept, asm-Kept}

module _ (b : List Block) where
  field-Kept :
      (children : Nodes) (s : Context) → First b s → Kept b (convert_field_into_value children s)
  unfolding convert_field_into_value
  field-Kept nil s first = stopped
  field-Kept (cons (node (node_label name) place c n) nil) s first = stopped
  field-Kept
        (cons (node (node_label name) place c n) (cons (node (node_label field) place' c' n') more))
        s first =
      Kept-bind b (find_var-Kept b name s first) λ found s₁ f₁.
        Kept-option b found _ _ (ce-Kept b place s₁) λ (is_global, v).
          Kept-bind b (types_read b (type_at s₁.compiler.types v.local.type) s₁ f₁) λ type s₂ f₂.
            Kept-bind b (types_read b (fields_of s₂.compiler.types type) s₂ f₂)
              λ (deref, fields) s₃ f₃. Kept-option b fields _ _ (ce-Kept b none s₃) λ fs.
                Kept-option b (find_field fs field) _ _ (ce-Kept b place' s₃) λ field_type.
                  Kept-bind b
                    (types_read b (field_offset (type_size_of s₃.compiler.types) fs field) s₃ f₃)
                    λ offset s₄ f₄. kept f₄
  field-Kept (cons (node (node_label name) place c n) (cons _ more)) s first = ce-Kept b place s
  field-Kept (cons (node _ place c n) more) s first = ce-Kept b place s

  module _ (convert : Node → Compile Draft)
      (again : (n : Node) (s : Context) → First b s → Kept b (convert n s)) where
    collect-Kept :
        (args : List Arg) (children : Nodes) (s : Context)
        → First b s
        → Kept b (collect_args convert args children s)
    unfolding collect_args
    collect-Kept args nil s first = kept first
    collect-Kept args (cons arg more) s first =
        Kept-if b (length args == 4) _ _ (ce-Kept b (place_of arg) s)
          (Kept-bind b (again arg s first) λ value s₁ f₁. collect-Kept _ more s₁ f₁)

    pub call-Kept :
        (place : Option Tok) (end : Tok) (children : Nodes) (s : Context)
        → First b s
        → Kept b (compile_call convert place end children s)
    unfolding compile_call
    call-Kept place end nil s first = stopped
    call-Kept place end (cons (node (node_label name) p c n) params) s first =
        Kept-if b (equal name (codes "__asm")) _ _ (asm-Kept b place _ s first) (
          Kept-option b (find_sig s.compiler.funcs name) _ _ (ce-Kept b p s) λ sig.
            Kept-bind b (collect-Kept [] params s first) λ args s₁ f₁.
              Kept-bind b (decay-Kept b args sig.param_types s₁ f₁) λ decayed s₂ f₂.
                Kept-bind b (validate-Kept b end decayed sig s₂ f₂)
                  λ _ s₃ f₃. add_block-Kept b _ s₃ tt f₃)
    call-Kept place end (cons (node _ p c n) params) s first = ce-Kept b p s

    convert_call-Kept :
        (place : Option Tok) (end : Tok) (children : Nodes) (s : Context)
        → First b s
        → Kept b (convert_call_node_into_value convert place end children s)
    unfolding convert_call_node_into_value new_name
    convert_call-Kept place end nil s first = stopped
    convert_call-Kept place end (cons (node (node_label name) p c n) params) s first =
        Kept-option b (find_sig s.compiler.funcs name) _ _ (ce-Kept b p s) λ sig.
          Kept-option b sig.return_type _ _ (ce-Kept b p s) λ id.
            Kept-bind b (types_read b (type_at s.compiler.types id) s first) λ type s₁ f₁.
              Kept-bind b (Kept-if b (type_is_null (some type)) _ _ (ce-Kept b p s₁) (kept f₁))
                λ _ s₂ f₂. Kept-bind b (alloc_local-Kept b id _ false _ f₂) λ result s₃ f₃.
                  Kept-bind b (call-Kept place end _ s₃ f₃)
                    λ _ s₄ f₄. Kept-bind b (add_block-Kept b _ s₄ tt f₄) λ _ s₅ f₅. kept f₅
    convert_call-Kept place end (cons (node _ p c n) params) s first = ce-Kept b p s

    convert_index-Kept :
        (place : Option Tok) (children : Nodes) (s : Context)
        → First b s
        → Kept b (convert_index convert place children s)
    unfolding convert_index
    convert_index-Kept place nil s first = stopped
    convert_index-Kept place (cons left nil) s first = stopped
    convert_index-Kept place (cons left (cons right more)) s first =
        Kept-bind b (again left s first) λ var s₁ f₁.
          Kept-bind b (value_type-Kept b false var s₁ f₁) λ found s₂ f₂.
            Kept-bind b (or_crash-Kept b found s₂ f₂) λ id s₃ f₃.
              Kept-bind b (types_read b (type_at s₃.compiler.types id) s₃ f₃) λ type s₄ f₄.
                Kept-option b (base_of type) _ _ (ce-Kept b place s₄) λ base.
                  Kept-bind b (types_read b (type_size_of s₄.compiler.types base) s₄ f₄)
                    λ size s₅ f₅. Kept-bind b (again right s₅ f₅) λ offset s₆ f₆. kept f₆

    convert_op-Kept :
        (place : Option Tok) (type : Option OpType) (children : Nodes) (s : Context)
        → First b s
        → Kept b (convert_op convert place type children s)
    unfolding convert_op
    convert_op-Kept place none children s first = ce-Kept b place s
    convert_op-Kept place (some type) nil s first = ce-Kept b place s
    convert_op-Kept place (some type) (cons left nil) s first = ce-Kept b place s
    convert_op-Kept place (some type) (cons left (cons right more)) s first =
        Kept-bind b (again left s first)
          λ l s₁ f₁. Kept-bind b (again right s₁ f₁) λ r s₂ f₂. kept f₂

    convert_type-Kept :
        (type : NodeType) (place : Option Tok) (children : Nodes) (s : Context)
        → First b s
        → Kept b (convert_type convert type place children s)
    unfolding convert_type make_string_id
    convert_type-Kept (node_integer n) place children s first = kept first
    convert_type-Kept (node_string value) place children s first = kept first
    convert_type-Kept (node_label name) place children s first =
        Kept-bind b (find_var-Kept b name s first)
          λ found s₁ f₁. Kept-option b found _ _ (ce-Kept b place s₁) λ (is_global, v). kept f₁
    convert_type-Kept (node_call end) place children s first =
        convert_call-Kept place end children s first
    convert_type-Kept (node_field name) place children s first = field-Kept children s first
    convert_type-Kept (node_addr name) place children s first =
        Kept-option b (find_variable s.func.locals name) _ _ (ce-Kept b place s) λ v. kept first
    convert_type-Kept node_index place children s first = convert_index-Kept place children s first
    convert_type-Kept type place children s first =
        convert_op-Kept place (op_of type) children s first

  pub convert-Kept :
      (fuel : ℕ) (n : Node) (s : Context) → First b s → Kept b (convert_node_into_value fuel n s)
  unfolding convert_node_into_value
  convert-Kept zero n s first = stopped
  convert-Kept (suc fuel) (node type place cast children) s first =
      Kept-bind b
        (convert_type-Kept (convert_node_into_value fuel) (convert-Kept fuel) type place children s
          first)
        λ value s₁ f₁.
          Kept-option b cast _ _ (kept f₁)
            λ into. Kept-bind b (make_real_type-Kept b into s₁ f₁) λ _ s₂ f₂. kept f₂
