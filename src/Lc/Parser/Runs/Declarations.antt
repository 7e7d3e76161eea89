-- ===== src/Lc/Parser/Runs/Declarations.antt =====
-- The runs of the parser on functions and types.
use irid.Base.{
  ℕ, zero, suc, ◌+◌, ◌≤◌, ◌<◌, ◌≡◌, refl, true, false, List, arith, length, if◌then◌else◌, pure,
  ◌==◌, [],
}
use irid.Base.Bytes.{Bytes}
use irid.Lc.Tokens.{Tok, TokType}
use irid.Lc.Tokens.Order.{Ends}
use irid.Lc.Parser.{text, Parsing, is, toknext, pe}
use irid.Lc.Parser.Nodes.{Nodes, nil}
use irid.Lc.Parser.Declarations.{
  attr_flag, Param, collect_params, func_decl_collect_params, parse_return_type, parse_func_head,
  attributes_from, parse_attributes, parse_func,
}
use irid.Lc.Parser.Shape.{IsFile, func_decl, func_def, empty, add_child-IsFile, add_function-IsFile}
use irid.Lc.Parser.Runs.{
  At, Ensures, holds, Forward, Ensures-bind, Ensures-if, Ensures-imp, pe-Ensures,
}
use irid.Lc.Parser.Runs.Cursor.{
  after_tokcur, after_toknext, toknext-Ensures, inner, after_peek, after_expect, Ensures-is,
  after_next_is, parse_type-Ensures,
}
use irid.Lc.Parser.Runs.Blocks.{parse_block-Ensures}

module _ (toks : List Tok) (n : ℕ) (ends : Ends toks n) (source : Bytes) where
  abbrev pub Moves : {A : Type 0} → ℕ → A → ℕ → Type 0
  Moves s = Forward toks s (λ _. Unit {0})

  -- The cursor may be at the last token.
  abbrev Reaches : {A : Type 0} → ℕ → A → ℕ → Type 0
  Reaches s a s' = (s ≤ s') × (s' < length toks)

  collect_params-Ensures :
      (fuel s : ℕ) (params : List Param)
      → length toks ≤ fuel + s
      → s < length toks
      → Ensures toks (Reaches s) (collect_params toks source fuel params s)
  unfolding collect_params
  collect_params-Ensures zero s params enough lt = absurd (omega arith)
  collect_params-Ensures (suc fuel) s params enough lt = after_tokcur toks _ s lt λ first at.
      Ensures-is toks n ends TokType.threedot s _ _ at (omega arith)
        (λ in₀. after_toknext toks _ s in₀ λ _ _. holds (omega arith, omega arith))
        (after_expect toks n ends TokType.sym s s _ at (omega arith) λ in₀.
          Ensures-bind toks (parse_type-Ensures toks n ends source s lt) λ type s₁ (le₁, in₁, _).
            after_next_is toks n ends TokType.sym s₁ _ (omega arith) in₁ λ name _ in₂.
              after_toknext toks _ (suc s₁) in₂ λ t at'.
                Ensures-is toks n ends TokType.rparen (suc (suc s₁)) _ _ at' (omega arith)
                  (λ in₃. holds (omega arith, omega arith))
                  (Ensures-is toks n ends TokType.comma (suc (suc s₁)) _ _ at' (omega arith)
                    (λ in₃.
                      Ensures-imp toks
                        (collect_params-Ensures fuel (suc (suc (suc s₁))) _ (omega arith)
                          (omega arith))
                        λ _ s₄ (le₄, lt₄). (omega arith, lt₄))
                    (pe-Ensures toks (suc (suc s₁)) (suc (suc s₁)) at')))

  func_decl_collect_params-Ensures :
      (s : ℕ)
      → s + 2 ≤ length toks
      → Ensures toks (Reaches s) (func_decl_collect_params toks source s)
  unfolding func_decl_collect_params
  func_decl_collect_params-Ensures s ins = after_toknext toks _ s ins λ t at.
      Ensures-is toks n ends TokType.rparen (suc s) _ _ at (omega arith)
        (λ in₁. holds (omega arith, omega arith))
        (Ensures-imp toks
          (collect_params-Ensures (length toks) (suc s) [] (omega arith) (omega arith))
          λ _ s' (le, lt). (omega arith, lt))

  return_type-Ensures :
      (s : ℕ) → s + 2 ≤ length toks → Ensures toks (Moves s) (parse_return_type toks source s)
  unfolding parse_return_type
  return_type-Ensures s ins = after_peek toks _ s ins λ t at.
      Ensures-is toks n ends TokType.arrow (suc s) _ _ at (omega arith)
        (λ in₁. after_toknext toks _ s ins λ _ _.
          after_next_is toks n ends TokType.sym (suc s) _ (omega arith) in₁ λ _ _ in₂.
            Ensures-bind toks (parse_type-Ensures toks n ends source (suc (suc s)) (omega arith))
              λ type s₃ (le₃, in₃, _). holds (omega arith, in₃, tt))
        (holds (omega arith, ins, tt))

  func_head-Ensures :
      (s : ℕ) → s + 2 ≤ length toks → Ensures toks (Moves s) (parse_func_head toks source s)
  unfolding parse_func_head
  func_head-Ensures s ins =
      after_next_is toks n ends TokType.sym s _ (omega arith) ins λ name _ in₁.
        after_next_is toks n ends TokType.lparen (suc s) _ (omega arith) in₁ λ _ _ in₂.
          Ensures-bind toks (func_decl_collect_params-Ensures (suc (suc s)) in₂)
            λ params s₃ (le₃, lt₃). after_tokcur toks _ s₃ lt₃ λ t at.
              after_expect toks n ends TokType.rparen s₃ s₃ _ at (omega arith) λ in₃.
                Ensures-bind toks (return_type-Ensures s₃ in₃)
                  λ type s₄ (le₄, in₄, _). holds (omega arith, in₄, tt)

  known-Ensures :
      (flag : ℕ) {i : ℕ} {name : Tok}
      → At toks i name
      → Ensures toks (λ _ s'. s' ≡ i) ((if flag == 0 then pe name else pure tt) i)
  known-Ensures flag {i} at =
      Ensures-if toks (flag == 0) _ _ (λ _. pe-Ensures toks i i at) (λ _. holds refl)

  attributes_from-Ensures :
      (fuel s flags : ℕ)
      → length toks ≤ fuel + s
      → s + 2 ≤ length toks
      → Ensures toks (Moves s) (attributes_from toks source fuel flags s)
  unfolding attributes_from
  attributes_from-Ensures zero s flags enough ins = absurd (omega arith)
  attributes_from-Ensures (suc fuel) s flags enough ins = after_toknext toks _ s ins λ name at.
      Ensures-is toks n ends TokType.rbracket (suc s) _ _ at (omega arith)
        (λ in₁. holds (omega arith, in₁, tt))
        (after_expect toks n ends TokType.sym (suc s) (suc s) _ at (omega arith) λ in₁.
          Ensures-bind toks (known-Ensures (attr_flag (text source name)) at) λ _ s₁ e.
            after_toknext toks _ s₁ (omega arith) λ t at'.
              Ensures-is toks n ends TokType.rbracket (suc s₁) _ _ at' (omega arith)
                (λ in₂. holds (omega arith, in₂, tt))
                (after_expect toks n ends TokType.comma (suc s₁) (suc s₁) _ at' (omega arith) λ in₂.
                  Ensures-imp toks (attributes_from-Ensures fuel (suc s₁) _ (omega arith) in₂)
                    λ _ s₃ (le₃, in₃, _). (omega arith, in₃, tt)))

  parse_attributes-Ensures :
      (s : ℕ) → s + 2 ≤ length toks → Ensures toks (Moves s) (parse_attributes toks source s)
  unfolding parse_attributes
  parse_attributes-Ensures s ins = after_tokcur toks _ s (omega arith) λ t at.
      after_expect toks n ends TokType.lbracket s s _ at (omega arith)
        λ in₀. attributes_from-Ensures (length toks) s 0 (omega arith) in₀

  -- What stands between brackets, if a bracket stands at the cursor, and the token behind that.
  pub bracketed-Ensures :
      {A : Type 0} (s : ℕ) {t : Tok} (m : Parsing A) (a : A)
      → At toks s t
      → (s + 2 ≤ length toks → Ensures toks (Moves s) (m s))
      → Ensures toks
          (λ _ s'.
            (s ≤ s')
            × (is TokType.lbracket t ≡ true → s' + 2 ≤ length toks)
            × (is TokType.lbracket t ≡ false → s' ≡ s))
          ((if is TokType.lbracket t then m else pure a) s)
  bracketed-Ensures s {t} m a at hm =
      Ensures-if toks (is TokType.lbracket t) m _
        (λ opened.
          Ensures-imp toks (hm (inner toks n ends TokType.lbracket s at opened (omega arith)))
            λ _ s' (le, ins, _). (le, (λ _. ins), λ none_open. cc))
        (λ none_open. holds (omega arith, (λ opened. cc), λ _. refl))

  after_last :
      (s s' : ℕ)
      → s ≤ s'
      → s' + 2 ≤ length toks
      → Ensures toks (λ last s''. (s ≤ s'') × At toks s'' last) (toknext toks s')
  after_last s s' le ins =
      Ensures-imp toks (toknext-Ensures toks s' ins) λ t s'' (e, at). (omega arith, rw e at)

  pub behind-Ensures :
      (s s' : ℕ) {t : Tok}
      → At toks s t
      → s ≤ s'
      → (is TokType.lbracket t ≡ true → s' + 2 ≤ length toks)
      → (is TokType.lbracket t ≡ false → s' ≡ s)
      → Ensures toks
          (λ last s''. (s ≤ s'') × At toks s'' last)
          ((if is TokType.lbracket t then toknext toks else pure t) s')
  behind-Ensures s s' {t} at le opened closed =
      Ensures-if toks (is TokType.lbracket t) _ _ (λ h. after_last s s' le (opened h))
        (λ h. rw (closed h) (holds (omega arith, at)))

  -- `parse_func` adds to the file a declaration, and a definition behind it if there is a body.
  pub parse_func-Ensures :
      (s : ℕ) (children : Nodes)
      → s < length toks
      → IsFile children
      → Ensures toks (Forward toks s IsFile) (parse_func toks source children s)
  unfolding parse_func
  parse_func-Ensures s children lt file = after_tokcur toks _ s lt λ first at.
      after_expect toks n ends TokType.kw_func s s _ at (omega arith) λ in₀.
        Ensures-bind toks (func_head-Ensures s in₀) λ (place, head) s₁ (le₁, in₁, _).
          after_toknext toks _ s₁ in₁ λ t at'.
            Ensures-is toks n ends TokType.semicolon (suc s₁) _ _ at' (omega arith)
              (λ in₂. holds (omega arith, in₂, add_child-IsFile file (func_decl empty)))
              (Ensures-bind toks
                (bracketed-Ensures (suc s₁) _ _ at' (parse_attributes-Ensures (suc s₁)))
                λ flags s₂ (le₂, opened, closed).
                  Ensures-bind toks (behind-Ensures (suc s₁) s₂ at' le₂ opened closed)
                    λ brace s₃ (le₃, at₃).
                      after_expect toks n ends TokType.lbrace s₃ s₃ _ at₃ (omega arith) λ in₃.
                        Ensures-bind toks
                          (parse_block-Ensures toks n ends source (length toks) s₃ nil (omega arith)
                            in₃)
                          λ body s₄ (le₄, in₄, statements). holds (
                            omega arith,
                            in₄,
                            add_function-IsFile file (func_def statements empty),
                          ))
