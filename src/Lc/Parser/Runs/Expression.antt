-- ===== src/Lc/Parser/Runs/Expression.antt =====
-- The runs of the parser on expressions: the fuel is enough, the cursor moves on, and the node is an expression.
use irid.Base.{
  ℕ, zero, suc, ◌+◌, ◌≤◌, ◌<◌, ◌≡◌, refl, true, List, arith, length, some, none, Option-cases, inl,
  inr, and_then, ◌>>=◌,
}
use irid.Base.Bytes.{Bytes}
use irid.Lc.Tokens.{Tok, TokType}
use irid.Lc.Tokens.Order.{Ends}
use irid.Lc.Parser.{Parsing, tokpeek, value}
use irid.Lc.Parser.Nodes.{Node, Nodes, NodeType, node_call, node, nil, cons, add_child}
use irid.Lc.Parser.Expression.{
  parse_value, parse_field, parse_call_args, parse_call, parse_index, parse_right, parse_operator,
  parse_assign, parse_expr_inside, operator, place_pos,
}
use irid.Lc.Parser.Shape.{
  IsExpr, AreExprs, IsExpr-place, is_pair, two, field, call, empty, add_child-AreExprs,
}
use irid.Lc.Parser.Runs.{Ensures, holds, Forward, Ensures-bind, Ensures-imp, pe-Ensures}
use irid.Lc.Parser.Runs.Cursor.{
  after_tokcur, after_toknext, after_tokpeek, Ends-inner, after_expect, Ensures-is,
}
use irid.Lc.Parser.Runs.Values.{Weakly, Inside, parse_value-Ensures}

operator-pair :
    (t : Tok) {type : NodeType}
    → operator t ≡ some type
    → (1 ≤ value t.type) × (is_pair type ≡ true)
unfolding operator
operator-pair t h = ground arith

-- The children of a call: its callee and its arguments.
abbrev Called : Nodes → Type 0
Called nil = ⊥
Called (cons callee args) = IsExpr callee × AreExprs args

add_child-Called :
    (children : Nodes) {e : Node} → Called children → IsExpr e → Called (add_child children e)
unfolding add_child
add_child-Called nil h shape = elim h [ ]
add_child-Called (cons callee args) (c, a) shape = (c, add_child-AreExprs a shape)

call-IsExpr :
    (children : Nodes) (last t : Tok)
    → Called children
    → IsExpr (node (node_call last) (some t) none children)
call-IsExpr nil last t h = elim h [ ]
call-IsExpr (cons callee args) last t (c, a) = call c a

module _ (toks : List Tok) (n : ℕ) (ends : Ends toks n) (source : Bytes) (inside : Parsing Node)
    (below : ℕ) (again : Inside toks below inside) where
  after_place :
      {A : Type 0} {Q : A → ℕ → Type 0} (e : Node) (s : ℕ) (k : ℕ → Parsing A)
      → IsExpr e
      → ((p : ℕ) → Ensures toks Q (k p s))
      → Ensures toks Q (and_then (place_pos e s) k)
  after_place e s k shape next = let (p, at) = IsExpr-place s shape in rw at (next p)

  -- What stands behind a value that began at `lo`.
  abbrev Follows : (Node → Parsing Node) → Type 0
  Follows f =
      (lo s : ℕ) (e : Node)
      → below ≤ suc lo
      → Weakly toks lo e s
      → Ensures toks (Weakly toks lo) (f e s)

  parse_field-Follows : Follows (parse_field toks source inside)
  unfolding parse_field
  parse_field-Follows lo s e h (le, lt, room, shape) =
      after_tokpeek toks _ lo s le room lt λ t s₁ le₁ in₁ at.
        Ensures-is toks n ends TokType.dot (suc s₁) _ _ at (omega arith)
          (λ in₂. after_toknext toks _ s₁ in₁ λ _ _. after_toknext toks _ (suc s₁) in₂ λ name at'.
            after_place e (suc (suc s₁)) _ shape λ p.
              after_expect toks n ends TokType.sym (suc (suc s₁)) (suc (suc s₁)) _ at' (omega arith)
                λ in₃. holds (omega arith, omega arith, room, field shape))
          (holds (le₁, omega arith, room, shape))

  call_args-Ensures :
      (fuel lo s : ℕ) (args : Nodes)
      → below ≤ s
      → length toks < fuel + s
      → s < length toks
      → Called args
      → Ensures toks (Forward toks s Called) (parse_call_args toks source inside fuel args s)
  unfolding parse_call_args
  call_args-Ensures zero lo s args h fuel lt called = absurd (omega arith)
  call_args-Ensures (suc f) lo s args h fuel lt called = after_tokcur toks _ s lt λ first at.
      Ensures-is toks n ends TokType.rparen s _ _ at (omega arith)
        (λ in₁. holds (omega arith, in₁, called))
        (Ensures-bind toks (again s h lt) λ arg s₁ (le₁, in₁, shape).
          after_toknext toks _ s₁ in₁ λ t at'.
            Ensures-is toks n ends TokType.rparen (suc s₁) _ _ at' (omega arith)
              (λ in₂. holds (omega arith, in₂, add_child-Called args called shape))
              (Ensures-is toks n ends TokType.comma (suc s₁) _ _ at' (omega arith)
                (λ in₂. after_toknext toks _ (suc s₁) in₂ λ _ _.
                  Ensures-imp toks
                    (call_args-Ensures f lo (suc (suc s₁)) (add_child args arg) (omega arith)
                      (omega arith) (omega arith) (add_child-Called args called shape))
                    λ out s₂ (le₂, in₃, all). (omega arith, in₃, all))
                (pe-Ensures toks (suc s₁) (suc s₁) at')))

  parse_call-Follows :
      (fuel : ℕ) → length toks ≤ fuel + below → Follows (parse_call toks source inside fuel)
  unfolding parse_call
  parse_call-Follows fuel enough lo s e h (le, lt, room, shape) =
      after_tokpeek toks _ lo s le room lt λ t s₁ le₁ in₁ at.
        Ensures-is toks n ends TokType.lparen (suc s₁) _ _ at (omega arith)
          (λ in₂. after_toknext toks _ s₁ in₁ λ _ _. after_toknext toks _ (suc s₁) in₂ λ _ _.
            after_place e (suc (suc s₁)) _ shape λ p.
              Ensures-bind toks
                (call_args-Ensures fuel lo (suc (suc s₁)) (cons e nil) (omega arith) (omega arith)
                  (omega arith) (shape, empty))
                λ args s₂ (le₂, in₃, called).
                  after_tokcur toks _ s₂ (omega arith) λ last _.
                    holds (omega arith, omega arith, room, call-IsExpr args last _ called))
          (holds (le₁, omega arith, room, shape))

  parse_index-Follows : Follows (parse_index toks source inside)
  unfolding parse_index
  parse_index-Follows lo s e h (le, lt, room, shape) =
      after_tokpeek toks _ lo s le room lt λ t s₁ le₁ in₁ at.
        Ensures-is toks n ends TokType.lbracket (suc s₁) _ _ at (omega arith)
          (λ in₂. after_toknext toks _ s₁ in₁ λ _ _. after_toknext toks _ (suc s₁) in₂ λ _ _.
            after_place e (suc (suc s₁)) _ shape λ p.
              Ensures-bind toks (again (suc (suc s₁)) (omega arith) (omega arith))
                λ index s₂ (le₂, in₃, shape'). after_toknext toks _ s₂ in₃ λ _ _.
                  after_tokcur toks _ (suc s₂) (omega arith)
                    λ last _. holds (omega arith, omega arith, room, two refl shape shape'))
          (holds (le₁, omega arith, room, shape))

  parse_operator-Follows : Follows (parse_operator toks source inside)
  unfolding parse_operator parse_right
  parse_operator-Follows lo s e h (le, lt, room, shape) =
      after_tokpeek toks _ lo s le room lt λ t s₁ le₁ in₁ at. elim (Option-cases (operator t)) [
        | inl none_found ↦ rw none_found (holds (le₁, omega arith, room, shape))
        | inr (type, found) ↦
            let (pos, pairs) = operator-pair t found in
            let in₂ = Ends-inner toks n (suc s₁) ends at pos in
            rw found (
              after_toknext toks _ s₁ in₁ λ _ _. after_toknext toks _ (suc s₁) in₂ λ _ _.
                Ensures-bind toks (again (suc (suc s₁)) (omega arith) (omega arith))
                  λ right s₂ (le₂, in₃, shape').
                    holds (omega arith, omega arith, room, two pairs shape shape'))
      ]

  parse_assign-Ensures :
      (lo s : ℕ) (e : Node)
      → below ≤ suc lo
      → Weakly toks lo e s
      → Ensures toks (Forward toks lo IsExpr) (parse_assign toks source inside e s)
  unfolding parse_assign
  parse_assign-Ensures lo s e h (le, lt, room, shape) =
      after_tokpeek toks _ lo s le room lt λ t s₁ le₁ in₁ at.
        Ensures-is toks n ends TokType.eq (suc s₁) _ _ at (omega arith)
          (λ in₂. after_toknext toks _ s₁ in₁ λ _ _. after_toknext toks _ (suc s₁) in₂ λ _ _.
            after_place e (suc (suc s₁)) _ shape λ p.
              Ensures-bind toks (again (suc (suc s₁)) (omega arith) (omega arith))
                λ right s₂ (le₂, in₃, shape').
                  after_tokcur toks _ s₂ (omega arith)
                    λ last _. holds (omega arith, in₃, two refl shape shape'))
          (holds (le₁, in₁, shape))

  -- One call of `parse_expr_inside`.
  one_call :
      (fuel s : ℕ)
      → length toks ≤ fuel + below
      → below ≤ suc s
      → s < length toks
      → Ensures toks (Forward toks s IsExpr) (
          (parse_value toks source inside >>= λ value. tokpeek toks >>= λ _.
          parse_field toks source inside value >>= λ access.
          parse_call toks source inside fuel access >>= λ call.
          parse_index toks source inside call >>= λ index.
          parse_operator toks source inside index >>= λ operation.
          parse_assign toks source inside operation)
            s)
  one_call fuel s enough h lt =
      Ensures-bind toks (parse_value-Ensures toks n ends source inside below again s h lt)
        λ e s₁ (le, lt₁, room, shape). after_tokpeek toks _ s s₁ le room lt₁ λ _ s₂ le₂ in₂ _.
          Ensures-bind toks (parse_field-Follows s s₂ e h (le₂, omega arith, room, shape))
            λ e₁ s₃ w₃. Ensures-bind toks (parse_call-Follows fuel enough s s₃ e₁ h w₃) λ e₂ s₄ w₄.
              Ensures-bind toks (parse_index-Follows s s₄ e₂ h w₄) λ e₃ s₅ w₅.
                Ensures-bind toks (parse_operator-Follows s s₅ e₃ h w₅)
                  λ e₄ s₆ w₆. parse_assign-Ensures s s₆ e₄ h w₆

module _ (toks : List Tok) (n : ℕ) (ends : Ends toks n) (source : Bytes) where
  -- With fuel for the tokens that are left, an expression is parsed, or an error is reported at a token.
  pub parse_expr_inside-Ensures :
      (fuel s : ℕ)
      → length toks ≤ fuel + s
      → s < length toks
      → Ensures toks (Forward toks s IsExpr) (parse_expr_inside toks source fuel s)
  unfolding parse_expr_inside
  parse_expr_inside-Ensures zero s enough lt = absurd (omega arith)
  parse_expr_inside-Ensures (suc fuel) s enough lt =
      one_call toks n ends source (parse_expr_inside toks source fuel) (suc s)
        (λ s' le lt'. parse_expr_inside-Ensures fuel s' (omega arith) lt') fuel s (omega arith)
        (omega arith) lt
