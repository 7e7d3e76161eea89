-- ===== src/Lc/Parser/Runs/Statements.antt =====
-- The runs of the parser on statements.
use mathlib.Core.Path.{subst}
use irid.Base.{
  sym, ℕ, suc, ◌+◌, ◌≤◌, ◌<◌, ◌≡◌, refl, Bool, false, List, arith, length, if◌then◌else◌, pure,
  ◌>>◌,
}
use irid.Base.Bytes.{Bytes}
use irid.Lc.Tokens.{Tok, TokType}
use irid.Lc.Tokens.Order.{Ends}
use irid.Lc.Parser.{ParsedType, Parsing, next_is}
use irid.Lc.Parser.Nodes.{node_var_decl, leaf, Node, Nodes}
use irid.Lc.Parser.Statements.{
  parse_expr, parse_count, parse_var_decl, parse_return, parse_if, parse_for,
}
use irid.Lc.Parser.Shape.{IsExpr, IsStatement, expr, var_decl, return_nothing, return_value}
use irid.Lc.Parser.Extends.{Extends, if_then-IsStatement, loop-IsStatement}
use irid.Lc.Parser.Runs.{Ensures, holds, Forward, Ensures-bind, Ensures-if, Ensures-imp}
use irid.Lc.Parser.Runs.Cursor.{
  after_tokcur, after_toknext, after_peek, after_expect, Ensures-is, after_next_is,
  parse_type-Ensures,
}
use irid.Lc.Parser.Runs.Expression.{parse_expr_inside-Ensures}

-- A declaration of a variable, as it stands in a block and in a file.
abbrev pub IsVarDecl : Node → Type 0
IsVarDecl decl =
    (type : ParsedType) × (name : Bytes) × (t : Tok) × (decl ≡ leaf (node_var_decl type name) t)

IsVarDecl-IsStatement : {decl : Node} → IsVarDecl decl → IsStatement decl
IsVarDecl-IsStatement (type, name, t, e) = subst IsStatement (sym e) var_decl

module _ (toks : List Tok) (n : ℕ) (ends : Ends toks n) (source : Bytes) where
  pub parse_expr-Ensures :
      (s : ℕ) → s < length toks → Ensures toks (Forward toks s IsExpr) (parse_expr toks source s)
  unfolding parse_expr
  parse_expr-Ensures s lt =
      parse_expr_inside-Ensures toks n ends source (length toks) s (omega arith) lt

  count-Ensures :
      (s : ℕ)
      → s + 2 ≤ length toks
      → Ensures toks (Forward toks s (λ _. Unit {0})) (parse_count toks source s)
  unfolding parse_count
  count-Ensures s ins = after_peek toks _ s ins λ t at.
      Ensures-is toks n ends TokType.lbracket (suc s) _ _ at (omega arith)
        (λ in₁. after_toknext toks _ s ins λ _ _.
          after_next_is toks n ends TokType.num (suc s) _ (omega arith) in₁ λ size _ in₂.
            after_next_is toks n ends TokType.rbracket (suc (suc s)) _ (omega arith) in₂
              λ _ _ in₃. holds (omega arith, in₃, tt))
        (holds (omega arith, ins, tt))

  semicolon-Ensures :
      (b : Bool) (s : ℕ)
      → s + 2 ≤ length toks
      → Ensures toks
          (Forward toks s (λ _. Unit {0}))
          ((if b then (next_is toks TokType.semicolon >> pure tt) else pure tt) s)
  semicolon-Ensures b s ins =
      Ensures-if toks b _ _
        (λ _.
          after_next_is toks n ends TokType.semicolon s _ (omega arith) ins
            λ _ _ in₁. holds (omega arith, in₁, tt))
        (λ _. holds (omega arith, ins, tt))

  pub parse_var_decl-Ensures :
      (b : Bool) (s : ℕ)
      → s < length toks
      → Ensures toks (Forward toks s IsVarDecl) (parse_var_decl toks source b s)
  unfolding parse_var_decl
  parse_var_decl-Ensures b s lt = after_tokcur toks _ s lt λ first at.
      after_expect toks n ends TokType.kw_let s s _ at (omega arith) λ in₀.
        after_next_is toks n ends TokType.sym s _ (omega arith) in₀ λ _ _ in₁.
          Ensures-bind toks (parse_type-Ensures toks n ends source (suc s) (omega arith))
            λ type s₂ (le₂, in₂, _).
              after_next_is toks n ends TokType.sym s₂ _ (omega arith) in₂ λ name _ in₃.
                Ensures-bind toks (count-Ensures (suc s₂) in₃) λ count s₄ (le₄, in₄, _).
                  Ensures-bind toks (semicolon-Ensures b s₄ in₄)
                    λ _ s₅ (le₅, in₅, _). holds (omega arith, in₅, (_, _, _, refl))

  pub return-Ensures :
      (s : ℕ)
      → s < length toks
      → Ensures toks (Forward toks s IsStatement) (parse_return toks source s)
  unfolding parse_return
  return-Ensures s lt = after_tokcur toks _ s lt λ first at.
      after_expect toks n ends TokType.kw_return s s _ at (omega arith) λ in₀.
        after_toknext toks _ s in₀ λ t at'.
          Ensures-is toks n ends TokType.semicolon (suc s) _ _ at' (omega arith)
            (λ in₁. holds (omega arith, in₁, return_nothing))
            (Ensures-bind toks (parse_expr-Ensures (suc s) (omega arith))
              λ e s₁ (le₁, in₁, shape). holds (omega arith, in₁, return_value shape))

  -- What a block ensures that is read from `below` on.
  abbrev pub Block : ℕ → (Nodes → Parsing Nodes) → Type 0
  Block below block =
      (s : ℕ) (children : Nodes)
      → below ≤ s
      → s + 2 ≤ length toks
      → Ensures toks (Forward toks s (Extends children)) (block children s)

  module _ (below : ℕ) (block : Nodes → Parsing Nodes) (again : Block below block) where
    pub if-Ensures :
        (s : ℕ)
        → below ≤ suc s
        → s < length toks
        → Ensures toks (Forward toks s IsStatement) (parse_if toks source block s)
    unfolding parse_if
    if-Ensures s h lt = after_tokcur toks _ s lt λ first at.
        after_expect toks n ends TokType.kw_if s s _ at (omega arith) λ in₀.
          after_next_is toks n ends TokType.lparen s _ (omega arith) in₀ λ _ _ in₁.
            Ensures-bind toks (parse_expr-Ensures (suc s) (omega arith)) λ c s₂ (le₂, in₂, shape).
              after_next_is toks n ends TokType.lbrace s₂ _ (omega arith) in₂ λ _ _ in₃.
                Ensures-bind toks (again (suc s₂) _ (omega arith) in₃) λ all s₄ (le₄, in₄, grown).
                  holds (omega arith, in₄, if_then-IsStatement all shape grown)

    pub for-Ensures :
        (s : ℕ)
        → below ≤ suc s
        → s < length toks
        → Ensures toks (Forward toks s IsStatement) (parse_for toks source block s)
    unfolding parse_for
    for-Ensures s h lt = after_tokcur toks _ s lt λ first at.
        after_expect toks n ends TokType.kw_for s s _ at (omega arith) λ in₀.
          after_next_is toks n ends TokType.lparen s _ (omega arith) in₀ λ _ _ in₁.
            after_next_is toks n ends TokType.sym (suc s) _ (omega arith) in₁ λ index _ in₂.
              after_next_is toks n ends TokType.comma (suc (suc s)) _ (omega arith) in₂ λ _ _ in₃.
                after_toknext toks _ (suc (suc (suc s))) in₃ λ _ _.
                  Ensures-bind toks (parse_expr-Ensures (suc (suc (suc (suc s)))) (omega arith))
                    λ start s₄ (le₄, in₄, a).
                      after_next_is toks n ends TokType.comma s₄ _ (omega arith) in₄ λ _ _ in₅.
                        after_toknext toks _ (suc s₄) in₅ λ _ _.
                          Ensures-bind toks (parse_expr-Ensures (suc (suc s₄)) (omega arith))
                            λ end s₆ (le₆, in₆, b).
                              after_next_is toks n ends TokType.rparen s₆ _ (omega arith) in₆
                                λ _ _ in₇.
                                  after_next_is toks n ends TokType.lbrace (suc s₆) _ (omega arith)
                                    in₇
                                    λ _ _ in₈.
                                      Ensures-bind toks (again (suc (suc s₆)) _ (omega arith) in₈)
                                        λ all s₉ (le₉, in₉, grown).
                                          holds (omega arith, in₉, loop-IsStatement all a b grown)

  pub let-Ensures :
      (s : ℕ)
      → s < length toks
      → Ensures toks (Forward toks s IsStatement) (parse_var_decl toks source false s)
  let-Ensures s lt =
      Ensures-imp toks (parse_var_decl-Ensures false s lt)
        λ decl s' (le, in', shape). (le, in', IsVarDecl-IsStatement shape)

  pub expression-Ensures :
      (s : ℕ)
      → s < length toks
      → Ensures toks (Forward toks s IsStatement) (parse_expr toks source s)
  expression-Ensures s lt =
      Ensures-imp toks (parse_expr-Ensures s lt) λ e s' (le, in', shape). (le, in', expr shape)
