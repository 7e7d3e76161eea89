-- ===== src/Lc/Compiler/Keeps/Args.antt =====
-- The checks on the arguments of a call add no block, and `__asm` adds one, behind those that stand there.
use irid.Base.{Bool, true, false, not, ◌&&◌, List, [], ◌∷◌, Option, some, ltb, get_elem?, length}
use irid.Lc.Tokens.{Tok}
use irid.Lc.Types.{TypeId, LeafType, pointer, array, type_at, type_cmp}
use irid.Lc.Emit.Blocks.{Block}
use irid.Lc.Parser.Nodes.{Nodes, node, nil, cons, node_string}
use irid.Lc.Compiler.{Context, FuncSig}
use irid.Lc.Compiler.Values.{Draft, index, with_cast, decayed, null_type, resolve_value_type}
use irid.Lc.Compiler.Calls.{
  Arg, decays, decay_arrays_to_pointers, validate_types, validate_call_args, compile_asm_call,
}
use irid.Lc.Compiler.Keeps.{
  First, Kept, kept, stopped, Kept-bind, Kept-if, Kept-option, ce-Kept, types_read,
  add_pointer-Kept, or_crash-Kept, resolve_type-Kept, add_block-Kept,
}

module _ (b : List Block) where
  null_type-Kept : (value : Draft) (s : Context) → First b s → Kept b (null_type value s)
  null_type-Kept (index var offset size deref) s first = kept first
  null_type-Kept (with_cast type value) s first = null_type-Kept value s first
  null_type-Kept _ s first = stopped

  decayed-Kept :
      (id : TypeId) (type : LeafType) (s : Context) → First b s → Kept b (decayed id type s)
  unfolding decayed
  decayed-Kept id (array n base count) s first =
      Kept-bind b (add_pointer-Kept b base s first) λ type s₁ f₁. kept f₁
  decayed-Kept id _ s first = kept first

  pub value_type-Kept :
      (decay : Bool) (value : Draft) (s : Context)
      → First b s
      → Kept b (resolve_value_type decay value s)
  unfolding resolve_value_type
  value_type-Kept false value s first = resolve_type-Kept b value s first
  value_type-Kept true value s first =
      Kept-bind b (resolve_type-Kept b value s first) λ found s₁ f₁.
        Kept-option b found _ _ (null_type-Kept value s₁ f₁) λ id.
          Kept-bind b (types_read b (type_at s₁.compiler.types id) s₁ f₁)
            λ type s₂ f₂. decayed-Kept id type s₂ f₂

  decays-Kept :
      (type expected : LeafType) (s : Context) → First b s → Kept b (decays type expected s)
  unfolding decays
  decays-Kept (array n base count) (pointer m base') s first =
      Kept-bind b (types_read b (type_at s.compiler.types base) s first) λ type s₁ f₁.
        Kept-bind b (types_read b (type_at s₁.compiler.types base') s₁ f₁) λ type' s₂ f₂. kept f₂
  decays-Kept _ _ s first = kept first

  pub decay-Kept :
      (args : List Arg) (params : List TypeId) (s : Context)
      → First b s
      → Kept b (decay_arrays_to_pointers args params s)
  unfolding decay_arrays_to_pointers
  decay-Kept [] params s first = kept first
  decay-Kept (arg ∷ args) [] s first = kept first
  decay-Kept (arg ∷ args) (param ∷ params) s first =
      Kept-bind b (value_type-Kept false arg.value s first) λ found s₁ f₁.
        Kept-bind b (or_crash-Kept b found s₁ f₁) λ id s₂ f₂.
          Kept-bind b (types_read b (type_at s₂.compiler.types id) s₂ f₂) λ type s₃ f₃.
            Kept-bind b (types_read b (type_at s₃.compiler.types param) s₃ f₃) λ expected s₄ f₄.
              Kept-bind b (decays-Kept type expected s₄ f₄)
                λ decay s₅ f₅. Kept-bind b (decay-Kept args params s₅ f₅) λ rest s₆ f₆. kept f₆

  validate_types-Kept :
      (args : List Arg) (params : List TypeId) (s : Context)
      → First b s
      → Kept b (validate_types args params s)
  unfolding validate_types
  validate_types-Kept args [] s first = kept first
  validate_types-Kept [] (param ∷ params) s first = stopped
  validate_types-Kept (arg ∷ args) (param ∷ params) s first =
      Kept-bind b (value_type-Kept arg.decay arg.value s first) λ found s₁ f₁.
        Kept-option b found _ _ (ce-Kept b arg.place s₁) λ id.
          Kept-bind b (types_read b (type_at s₁.compiler.types id) s₁ f₁) λ type s₂ f₂.
            Kept-bind b (types_read b (type_at s₂.compiler.types param) s₂ f₂) λ expected s₃ f₃.
              Kept-if b (type_cmp expected type) _ _ (validate_types-Kept args params s₃ f₃)
                (ce-Kept b arg.place s₃)

  pub validate-Kept :
      (end : Tok) (args : List Arg) (sig : FuncSig) (s : Context)
      → First b s
      → Kept b (validate_call_args end args sig s)
  unfolding validate_call_args
  validate-Kept end args sig s first =
      Kept-if b (ltb (length args) (length sig.param_types)) _ _ (ce-Kept b (some end) s) (
        Kept-if b (not sig.decl.is_variadic && ltb (length sig.param_types) (length args)) _ _
          (Kept-option b (get_elem? args (length sig.param_types)) _ _ stopped
            λ arg. ce-Kept b arg.place s)
          (validate_types-Kept args sig.param_types s first))

  pub asm-Kept :
      (place : Option Tok) (children : Nodes) (s : Context)
      → First b s
      → Kept b (compile_asm_call place children s)
  unfolding compile_asm_call
  asm-Kept place nil s first = ce-Kept b place s
  asm-Kept place (cons label nil) s first = ce-Kept b place s
  asm-Kept place (cons label (cons (node (node_string source) p c n) more)) s first =
      add_block-Kept b (Block.asm source) s tt first
  asm-Kept place (cons label (cons (node _ p c n) more)) s first = ce-Kept b p s
