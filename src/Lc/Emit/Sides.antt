-- ===== src/Lc/Emit/Sides.antt =====
-- An operation: the right side is pushed while the left one is calculated.
use irid.Base.{
  sym, ◌∙◌, ℕ, ◌+◌, ◌≤◌, ◌<◌, ◌≡◌, ◌≢◌, refl, ◌∷◌, ◌++◌, arith, inl, inr, Bool-cases, ◌==◌,
}
use irid.Emul.Cpu.{Register, CpuState, sp}
use irid.Emul.Stack.{word_at, Pushed, Popped}
use irid.Lc.Stop.{Compiling}
use irid.Lc.Emit.{Operand, Line, Lines, OpType, op_lines}
use irid.Lc.Emit.Run.{step, run, run-append}
use irid.Lc.Emit.Computes.{Computes, op_line-Computes}
use irid.Lc.Emit.Meaning.{calculate, IsArith}

-- The two sides of an operation and the stack between them.
pub record Sides (labels : Operand → ℕ) (c : CpuState) (r : Register) (a b : ℕ)
    (left right : Compiling Lines) : Type 0 where
  pub second : Computes labels c r b right
  pub held : CpuState
  pub pushed : Pushed second.after held r
  pub first : Computes labels held r a left
  pub ready : CpuState
  pub popped : Popped first.after ready 4

module _ (labels : Operand → ℕ) (c : CpuState) (r : Register) (a b : ℕ)
    (left right : Compiling Lines) (s : Sides labels c r a b left right) (not_sp : r ≢ sp) where
  Sides-sp :
      (s.held.reg sp + 2 ≡ c.reg sp)
      × (s.first.after.reg sp ≡ s.held.reg sp)
      × (s.ready.reg sp ≡ c.reg sp)
  Sides-sp =
      let after_second =
        s.second.computed.kept sp (λ e. not_sp (sym e)) (λ e. absurd (omega arith)) in
      let after_first =
        s.first.computed.kept sp (λ e. not_sp (sym e)) (λ e. absurd (omega arith)) in
      (
        omega (arith, s.pushed.pointer),
        after_first,
        omega (arith, s.pushed.pointer, s.popped.pointer),
      )

  pub Sides-left : r ≢ 4 → s.ready.reg r ≡ a
  Sides-left not_r4 = s.popped.kept r not_sp not_r4 ∙ s.first.computed.result

  pub Sides-right : s.ready.reg 4 ≡ b
  Sides-right =
      let at = Sides-sp.1 in
      let low = s.first.computed.memory (s.held.reg sp) (omega arith) in
      let high = s.first.computed.memory (s.held.reg sp + 1) (omega arith) in
      let top : word_at s.first.after (s.first.after.reg sp) ≡ word_at s.held (s.held.reg sp) =
        rw (at, low, high) refl in
      s.popped.value ∙ top ∙ s.pushed.top ∙ s.second.computed.result

  Sides-kept : (i : Register) → i ≢ r → i ≢ 4 → s.ready.reg i ≡ c.reg i
  Sides-kept i ne1 ne2 = elim (Bool-cases (i == sp)) [
    | inl is ↦ let e : i ≡ sp = ground arith in rw e Sides-sp.2
    | inr isnt ↦
        let ne : i ≢ sp = λ e. ground arith in
        s.popped.kept i ne ne2
        ∙ s.first.computed.kept i ne1 ne2
        ∙ s.pushed.kept i ne
        ∙ s.second.computed.kept i ne1 ne2
  ]

  Sides-memory : (i : ℕ) → c.reg sp ≤ i → s.ready.mem i ≡ c.mem i
  Sides-memory i le =
      let two = Sides-sp.0 in
      let after_second =
        s.second.computed.kept sp (λ e. not_sp (sym e)) (λ e. absurd (omega arith)) in
      s.popped.memory i
      ∙ s.first.computed.memory i (omega arith)
      ∙ s.pushed.memory i (omega arith)
      ∙ s.second.computed.memory i le

  -- The lines of an operation calculate it from the right side and what the register holds before.
  pub Sides-Computes :
      (type : OpType) {a' : ℕ}
      → IsArith type
      → b < 65536
      → s.ready.reg r ≡ a'
      → Computes labels c r (calculate type a' b) (op_lines r type right left)
  unfolding op_lines run step
  Sides-Computes type h lt at =
      let last = op_line-Computes labels s.ready r type h (rw Sides-right lt) in
      record {
        lines = s.second.lines ++ (Line.push r ∷ (s.first.lines ++ (Line.pop 4 ∷ last.lines)));
        after = last.after;
        emitted = rw (s.second.emitted, s.first.emitted, last.emitted) refl;
        runs =
            rw
              (
                run-append labels s.second.lines
                    (Line.push r ∷ (s.first.lines ++ (Line.pop 4 ∷ last.lines))) c,
                s.second.runs,
                s.pushed.pushes,
                run-append labels s.first.lines (Line.pop 4 ∷ last.lines) s.held,
                s.first.runs,
                s.popped.pops,
              )
              last.runs;
        computed = record {
          result = rw (at, Sides-right) at last.computed.result;
          kept = λ i ne1 ne2. last.computed.kept i ne1 ne2 ∙ Sides-kept i ne1 ne2;
          memory = λ i le. last.computed.memory i (rw Sides-sp.2 le) ∙ Sides-memory i le;
          size =
              last.computed.size ∙ s.popped.size ∙ s.first.computed.size ∙ s.pushed.size
              ∙ s.second.computed.size;
        };
      }
