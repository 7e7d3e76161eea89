-- ===== src/Lc/Parser/Runs/Values.antt =====
-- The runs of the parser on the first value of an expression.
use irid.Base.{ℕ, suc, ◌+◌, ◌≤◌, ◌<◌, ◌≡◌, refl, true, List, arith, length}
use irid.Base.Bytes.{Bytes}
use irid.Lc.Tokens.{Tok, TokType}
use irid.Lc.Tokens.Order.{Ends}
use irid.Lc.Parser.{Parsing}
use irid.Lc.Parser.Nodes.{Node, NodeType, leaf}
use irid.Lc.Parser.Expression.{parse_parenthesized, parse_addr, parse_cast, parse_value}
use irid.Lc.Parser.Shape.{IsExpr, is_value, atom, cast-IsExpr}
use irid.Lc.Parser.Runs.{Ensures, holds, Forward, Ensures-bind, pe-Ensures}
use irid.Lc.Parser.Runs.Cursor.{
  after_tokcur, after_toknext, Ensures-is, after_next_is, parse_type-Ensures,
}

-- A value was parsed that began at `lo`. The cursor may be at the last token.
abbrev pub Weakly : List Tok → ℕ → Node → ℕ → Type 0
Weakly toks lo e s = (lo ≤ s) × (s < length toks) × (lo + 2 ≤ length toks) × IsExpr e

-- What `parse_expr_inside` ensures where it is called again, at `below` or behind.
abbrev pub Inside : List Tok → ℕ → Parsing Node → Type 0
Inside toks below inside =
    (s : ℕ) → below ≤ s → s < length toks → Ensures toks (Forward toks s IsExpr) (inside s)

module _ (toks : List Tok) (n : ℕ) (ends : Ends toks n) (source : Bytes) (inside : Parsing Node)
    (below : ℕ) (again : Inside toks below inside) where
  parenthesized-Ensures :
      (s : ℕ)
      → below ≤ suc s
      → s + 2 ≤ length toks
      → Ensures toks (Weakly toks s) (parse_parenthesized toks source inside s)
  unfolding parse_parenthesized
  parenthesized-Ensures s h h' = after_toknext toks _ s h' λ _ _.
      Ensures-bind toks (again (suc s) h (omega arith)) λ e s' (le, inner', shape).
        after_toknext toks _ s' inner' λ _ _. holds (omega arith, omega arith, h', shape)

  addr-Ensures :
      (first : Tok) (s : ℕ)
      → s + 2 ≤ length toks
      → Ensures toks (Weakly toks s) (parse_addr toks source inside first s)
  unfolding parse_addr
  addr-Ensures first s h' =
      after_next_is toks n ends TokType.sym s _ (omega arith) h'
        λ t _ inner'. holds (omega arith, omega arith, h', atom refl)

  cast-Ensures :
      (first : Tok) (s : ℕ)
      → below ≤ suc s
      → s + 2 ≤ length toks
      → Ensures toks (Weakly toks s) (parse_cast toks source inside first s)
  unfolding parse_cast
  cast-Ensures first s h h' = after_toknext toks _ s h' λ _ _.
      Ensures-bind toks (parse_type-Ensures toks n ends source (suc s) (omega arith))
        λ into s₁ (le₁, in₁, _). after_toknext toks _ s₁ in₁ λ _ _.
          Ensures-bind toks (again (suc s₁) (omega arith) (omega arith)) λ e s₂ (le₂, in₂, shape).
            after_next_is toks n ends TokType.rbracket s₂ _ (omega arith) in₂
              λ last _ in₃. holds (omega arith, omega arith, h', cast-IsExpr _ into shape)

  atom-Weakly :
      {type : NodeType} {t : Tok} (s : ℕ)
      → is_value type ≡ true
      → s + 2 ≤ length toks
      → Weakly toks s (leaf type t) s
  atom-Weakly s e h = (omega arith, omega arith, h, atom e)

  -- A first value.
  pub parse_value-Ensures :
      (s : ℕ)
      → below ≤ suc s
      → s < length toks
      → Ensures toks (Weakly toks s) (parse_value toks source inside s)
  unfolding parse_value
  parse_value-Ensures s h h' = after_tokcur toks _ s h' λ t at.
      Ensures-is toks n ends TokType.lparen s _ _ at (omega arith) (parenthesized-Ensures s h) (
        Ensures-is toks n ends TokType.sym s _ _ at (omega arith)
          (λ i. holds (atom-Weakly s refl i))
          (Ensures-is toks n ends TokType.num s _ _ at (omega arith)
            (λ i. holds (atom-Weakly s refl i))
            (Ensures-is toks n ends TokType.str s _ _ at (omega arith)
              (λ i. holds (atom-Weakly s refl i))
              (Ensures-is toks n ends TokType.char s _ _ at (omega arith)
                (λ i. holds (atom-Weakly s refl i))
                (Ensures-is toks n ends TokType.ampersand s _ _ at (omega arith) (addr-Ensures t s)
                  (Ensures-is toks n ends TokType.lbracket s _ _ at (omega arith)
                    (cast-Ensures t s h) (pe-Ensures toks s s at)))))))
