-- ===== src/Lc/Parser/Runs/Blocks.antt =====
-- The runs of the parser on blocks.
use irid.Base.{and_then, Result, ℕ, zero, suc, ◌+◌, ◌≤◌, List, arith, length}
use irid.Base.Bytes.{Bytes}
use irid.Lc.Stop.{Stop}
use irid.Lc.Tokens.{Tok, TokType}
use irid.Lc.Tokens.Order.{Ends}
use irid.Lc.Parser.{Parsing}
use irid.Lc.Parser.Nodes.{Node, Nodes, add_child}
use irid.Lc.Parser.Statements.{end_statement, parse_block}
use irid.Lc.Parser.Shape.{IsStatement}
use irid.Lc.Parser.Extends.{Extends, Extends_refl, Extends_drop, Extends-add_child}
use irid.Lc.Parser.Runs.{Ensures, holds, Forward, Ensures-bind, Ensures-imp, pe-Ensures}
use irid.Lc.Parser.Runs.Cursor.{after_toknext, Ensures-is}
use irid.Lc.Parser.Runs.Statements.{
  Block, let-Ensures, expression-Ensures, return-Ensures, if-Ensures, for-Ensures,
}

module _ (toks : List Tok) (n : ℕ) (ends : Ends toks n) (source : Bytes) where
  module _ (below : ℕ) (block : Nodes → Parsing Nodes)
      (again : Block toks n ends source below block) where
    -- The rest of the block, behind a statement.
    grown :
        (s lo : ℕ)
        → lo ≤ s
        → (children : Nodes) {statement : Node} → IsStatement statement
        → below ≤ s
        → s + 2 ≤ length toks
        → Ensures toks (Forward toks lo (Extends children)) (block (add_child children statement) s)
    grown s lo le children {statement} shape h ins =
        Ensures-imp toks (again s (add_child children statement) h ins)
          λ all s' (le', in', h'). (omega arith, in', Extends_drop children all shape h')

    -- What follows a statement that ended at `s`.
    end-Ensures :
        (s : ℕ) (children : Nodes) {statement : Node}
        → below ≤ suc s
        → s + 2 ≤ length toks
        → IsStatement statement
        → Ensures toks
            (Forward toks s (Extends children))
            (end_statement toks source children block statement s)
    unfolding end_statement
    end-Ensures s children {statement} h ins shape = after_toknext toks _ s ins λ t at.
        Ensures-is toks n ends TokType.rbrace (suc s) _ _ at (omega arith)
          (λ in₁. holds (omega arith, in₁, Extends-add_child children shape))
          (Ensures-is toks n ends TokType.semicolon (suc s) _ _ at (omega arith)
            (λ in₁. grown (suc s) s (omega arith) children shape (omega arith) in₁)
            (pe-Ensures toks (suc s) (suc s) at))

    -- A statement that a semicolon or the end of the block follows.
    ended :
        (lo : ℕ) (children : Nodes) {m : Result Stop (Node × ℕ)}
        → below ≤ suc lo
        → Ensures toks (Forward toks (suc lo) IsStatement) m
        → Ensures toks
            (Forward toks lo (Extends children))
            (and_then m (end_statement toks source children block))
    ended lo children h m = Ensures-bind toks m λ statement s (le, ins, shape).
        Ensures-imp toks (end-Ensures s children (omega arith) ins shape)
          λ all s' (le', in', h'). (omega arith, in', h')

    -- A statement that ends with a block of its own.
    closed :
        (lo : ℕ) (children : Nodes) {m : Result Stop (Node × ℕ)}
        → below ≤ suc lo
        → Ensures toks (Forward toks (suc lo) IsStatement) m
        → Ensures toks
            (Forward toks lo (Extends children))
            (and_then m (λ s. block (add_child children s)))
    closed lo children h m =
        Ensures-bind toks m
          λ statement s (le, ins, shape). grown s lo (omega arith) children shape (omega arith) ins

  -- With fuel for the tokens that are left, a block adds statements to the children, or an error is reported
  -- at a token.
  pub parse_block-Ensures :
      (fuel s : ℕ) (children : Nodes)
      → length toks ≤ fuel + s
      → s + 2 ≤ length toks
      → Ensures toks (Forward toks s (Extends children)) (parse_block toks source fuel children s)
  unfolding parse_block
  parse_block-Ensures zero s children enough ins = absurd (omega arith)
  parse_block-Ensures (suc fuel) s children enough ins =
      let again : Block toks n ends source (suc s) (parse_block toks source fuel) =
        λ s' c le in'. parse_block-Ensures fuel s' c (omega arith) in' in
      after_toknext toks _ s ins λ t at.
        Ensures-is toks n ends TokType.rbrace (suc s) _ _ at (omega arith)
          (λ in₁. holds (omega arith, in₁, Extends_refl children))
          (Ensures-is toks n ends TokType.kw_let (suc s) _ _ at (omega arith)
            (λ in₁.
              ended (suc s) _ again s children (omega arith)
                (let-Ensures toks n ends source (suc s) (omega arith)))
            (Ensures-is toks n ends TokType.kw_return (suc s) _ _ at (omega arith)
              (λ in₁.
                ended (suc s) _ again s children (omega arith)
                  (return-Ensures toks n ends source (suc s) (omega arith)))
              (Ensures-is toks n ends TokType.kw_if (suc s) _ _ at (omega arith)
                (λ in₁. closed (suc s) _ again s children (omega arith) (
                  if-Ensures toks n ends source (suc s) _ again (suc s) (omega arith)
                    (omega arith)))
                (Ensures-is toks n ends TokType.kw_for (suc s) _ _ at (omega arith)
                  (λ in₁. closed (suc s) _ again s children (omega arith) (
                    for-Ensures toks n ends source (suc s) _ again (suc s) (omega arith)
                      (omega arith)))
                  (ended (suc s) _ again s children (omega arith)
                    (expression-Ensures toks n ends source (suc s) (omega arith)))))))
