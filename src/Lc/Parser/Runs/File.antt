-- ===== src/Lc/Parser/Runs/File.antt =====
-- The runs of the parser on types and on the file.
use irid.Base.{
  ℕ, zero, suc, ◌+◌, ◌≤◌, ◌<◌, ◌≡◌, refl, true, ◌∷◌, List, arith, length, none, [], ok, stop, ◌⊎◌,
  inl, inr, sym,
}
use mathlib.Core.Path.{subst}
use irid.Base.Bytes.{Bytes}
use irid.Lc.Stop.{error_at}
use irid.Lc.Tokens.{Tok, TokType}
use irid.Lc.Tokens.Order.{Ends}
use irid.Lc.Parser.{ParsedType, is}
use irid.Lc.Parser.Nodes.{Node, Nodes, node, nil, cons, node_type_decl, node_file, leaf}
use irid.Lc.Parser.Declarations.{
  field_count, parse_type_decl_body, parse_type_decl, parse_declaration, parse_file, parser_parse,
}
use irid.Lc.Parser.Shape.{IsFile, type_decl, var_decl, empty, add_child-IsFile}
use irid.Lc.Parser.Runs.{
  At, Reported, Ensures, holds, Forward, Ensures-bind, Ensures-cases, Ensures-if, Ensures-imp,
  pe-Ensures,
}
use irid.Lc.Parser.Runs.Cursor.{
  after_tokcur, after_toknext, after_expect, Ensures-is, after_next_is, parse_type-Ensures,
}
use irid.Lc.Parser.Runs.Statements.{IsVarDecl, parse_var_decl-Ensures}
use irid.Lc.Parser.Runs.Declarations.{Moves, bracketed-Ensures, behind-Ensures, parse_func-Ensures}

abbrev IsTypeDecl : Node → Type 0
IsTypeDecl decl =
    (name : Bytes) × (fields : List (ParsedType × Bytes)) × (t : Tok) × (decl
      ≡ leaf (node_type_decl name fields) t)

-- The tree of a file.
abbrev pub IsTree : Node → Type 0
IsTree (node node_file none none children) = IsFile children
IsTree _ = ⊥

type_decl-IsFile : {decl : Node} → IsTypeDecl decl → IsFile (cons decl nil)
type_decl-IsFile (_, _, _, e) = subst (λ d. IsFile (cons d nil)) (sym e) (type_decl empty)

var_decl-IsFile : {decl : Node} → IsVarDecl decl → IsFile (cons decl nil)
var_decl-IsFile (_, _, _, e) = subst (λ d. IsFile (cons d nil)) (sym e) (var_decl empty)

module _ (toks : List Tok) (n : ℕ) (ends : Ends toks n) (source : Bytes) where
  count-Ensures :
      (s : ℕ)
      → s + 2 ≤ length toks
      → Ensures toks (Moves toks n ends source s) (field_count toks source s)
  unfolding field_count
  count-Ensures s ins = after_next_is toks n ends TokType.num s _ (omega arith) ins λ size _ in₁.
      after_next_is toks n ends TokType.rbracket (suc s) _ (omega arith) in₁
        λ _ _ in₂. holds (omega arith, in₂, tt)

  body-Ensures :
      (fuel s : ℕ) (fields : List (ParsedType × Bytes))
      → length toks ≤ fuel + s
      → s < length toks
      → Ensures toks (Moves toks n ends source s) (parse_type_decl_body toks source fuel fields s)
  unfolding parse_type_decl_body
  body-Ensures zero s fields enough lt = absurd (omega arith)
  body-Ensures (suc fuel) s fields enough lt = after_tokcur toks _ s lt λ first at.
      Ensures-is toks n ends TokType.rbrace s _ _ at (omega arith)
        (λ in₀. holds (omega arith, in₀, tt))
        (after_expect toks n ends TokType.sym s s _ at (omega arith) λ in₀.
          Ensures-bind toks (parse_type-Ensures toks n ends source s lt) λ type s₁ (le₁, in₁, _).
            after_next_is toks n ends TokType.sym s₁ _ (omega arith) in₁ λ name _ in₂.
              after_toknext toks _ (suc s₁) in₂ λ t at'.
                Ensures-bind toks
                  (bracketed-Ensures toks n ends source (suc (suc s₁)) _ 0 at'
                    (count-Ensures (suc (suc s₁))))
                  λ count s₂ (le₂, opened, closed).
                    Ensures-bind toks
                      (behind-Ensures toks n ends source (suc (suc s₁)) s₂ at' le₂ opened closed)
                      λ last s₃ (le₃, at₃).
                        Ensures-is toks n ends TokType.rbrace s₃ _ _ at₃ (omega arith)
                          (λ in₃. holds (omega arith, in₃, tt))
                          (after_expect toks n ends TokType.semicolon s₃ s₃ _ at₃ (omega arith)
                            λ in₃. after_toknext toks _ s₃ in₃ λ _ _.
                              Ensures-imp toks
                                (body-Ensures fuel (suc s₃) _ (omega arith) (omega arith))
                                λ _ s₄ (le₄, in₄, _). (omega arith, in₄, tt)))

  parse_type_decl-Ensures :
      (s : ℕ)
      → s < length toks
      → Ensures toks (Forward toks s IsTypeDecl) (parse_type_decl toks source s)
  unfolding parse_type_decl
  parse_type_decl-Ensures s lt = after_tokcur toks _ s lt λ first at.
      after_expect toks n ends TokType.kw_type s s _ at (omega arith) λ in₀.
        after_next_is toks n ends TokType.sym s _ (omega arith) in₀ λ name _ in₁.
          after_next_is toks n ends TokType.lbrace (suc s) _ (omega arith) in₁ λ _ _ in₂.
            after_toknext toks _ (suc (suc s)) in₂ λ _ _.
              Ensures-bind toks
                (body-Ensures (length toks) (suc (suc (suc s))) [] (omega arith) (omega arith))
                λ fields s₄ (le₄, in₄, _). holds (omega arith, in₄, (_, _, _, refl))

  declaration-Ensures :
      (s : ℕ) {t : Tok} (children : Nodes)
      → At toks s t
      → s < length toks
      → IsFile children
      → Ensures toks (Forward toks s IsFile) (parse_declaration toks source t children s)
  unfolding parse_declaration
  declaration-Ensures s children at lt file =
      Ensures-is toks n ends TokType.kw_func s _ _ at (omega arith)
        (λ in₀. parse_func-Ensures toks n ends source s children lt file)
        (Ensures-is toks n ends TokType.kw_type s _ _ at (omega arith)
          (λ in₀. Ensures-bind toks (parse_type_decl-Ensures s lt) λ decl s₁ (le₁, in₁, shape).
            holds (le₁, in₁, add_child-IsFile file (type_decl-IsFile shape)))
          (Ensures-is toks n ends TokType.kw_let s _ _ at (omega arith)
            (λ in₀.
              Ensures-bind toks (parse_var_decl-Ensures toks n ends source true s lt)
                λ decl s₁ (le₁, in₁, shape).
                  holds (le₁, in₁, add_child-IsFile file (var_decl-IsFile shape)))
            (pe-Ensures toks s s at)))

  file-Ensures :
      (fuel s : ℕ) (children : Nodes)
      → length toks ≤ fuel + s
      → s < length toks
      → IsFile children
      → Ensures toks (λ all _. IsFile all) (parse_file toks source fuel children s)
  unfolding parse_file
  file-Ensures zero s children enough lt file = absurd (omega arith)
  file-Ensures (suc fuel) s children enough lt file = after_tokcur toks _ s lt λ t at.
      Ensures-if toks (is TokType.null t) _ _ (λ _. holds file)
        (λ _.
          Ensures-bind toks (declaration-Ensures s children at lt file) λ all s₁ (le₁, in₁, file').
            file-Ensures fuel (suc s₁) all (omega arith) (omega arith) file')

Ends-pos : (toks : List Tok) (n : ℕ) → Ends toks n → 0 < length toks
Ends-pos [] n ends = elim ends [ ]
Ends-pos (t ∷ ts) n ends = omega arith

-- Tokens that end with the null token are parsed into the tree of a file, or an error is reported at one of
-- them: the parser reads no token behind the null token and no place of a node that has none, and the fuel of every
-- loop is enough.
pub parser_parse_total :
    (toks : List Tok) (n : ℕ) (source : Bytes)
    → Ends toks n
    → ((tree : Node) × (parser_parse toks source ≡ ok tree) × IsTree tree)
      ⊎ ((p : ℕ) × (parser_parse toks source ≡ stop (error_at p)) × Reported toks p)
unfolding parser_parse
parser_parse_total toks n source ends =
    let run =
      file-Ensures toks n ends source (length toks) 0 nil (omega arith) (Ends-pos toks n ends)
        empty in
    elim (Ensures-cases toks run) [
      | inl (all, s, e, file) ↦ inl (node node_file none none all, rw (parser_parse, e) refl, file)
      | inr (p, e, at) ↦ inr (p, rw (parser_parse, e) refl, at)
    ]
