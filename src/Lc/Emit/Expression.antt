-- ===== src/Lc/Emit/Expression.antt =====
-- That the lines of an expression calculate its value.
use irid.Base.{none, sym, ◌∙◌, ℕ, ◌*◌, ◌≤◌, ◌<◌, ◌≡◌, ◌≢◌, refl, [], ◌∷◌, ok, arith}
use irid.Emul.Cpu
use irid.Emul.Cpu.{Register, CpuState, sp, bp, u16, r_store}
use irid.Emul.Stack.{push-Pushed, pop-Popped}
use irid.Lc.Emit.{Operand, Line, OpType, Value, Emitter, foldable, emit_op, store_value}
use irid.Lc.Emit.Run.{operand, step, run}
use irid.Lc.Emit.Computes.{Computes, below, local-Computes, stored-Computed}
use irid.Lc.Emit.Meaning.{
  calculate, value_of, Plain, depth, Agrees, Plain-agree, value_of-agree, value_of-lt,
}
use irid.Lc.Emit.Sides.{Sides-right, Sides, Sides-Computes}

int-Computes :
    (labels : Operand → ℕ) (c : CpuState) (r : Register) (n : ℕ) {v : ℕ}
    → n < 65536
    → u16 n ≡ v
    → Computes labels c r v (ok (Line.mov r (Operand.int n) ∷ []))
unfolding run step operand Cpu.mov
int-Computes labels c r n lt e = record {
  lines = Line.mov r (Operand.int n) ∷ [];
  after = r_store r n c;
  emitted = refl;
  runs = rw (below lt) refl;
  computed = stored-Computed c r n e;
}

string-Computes :
    (labels : Operand → ℕ) (c : CpuState) (r : Register) (id : ℕ)
    → Computes labels c r
        (u16 (labels (Operand.string id)))
        (ok (Line.mov r (Operand.string id) ∷ []))
unfolding run step operand Cpu.mov
string-Computes labels c r id = record {
  lines = Line.mov r (Operand.string id) ∷ [];
  after = r_store r (u16 (labels (Operand.string id))) c;
  emitted = refl;
  runs = refl;
  computed = stored-Computed c r (u16 (labels (Operand.string id))) (omega arith);
}

-- The state of the processor leaves room for the expression on the stack.
pub record Room (c : CpuState) (r : Register) (v : Value) : Type 0 where
  pub stack : 2 * depth v ≤ c.reg sp
  pub in_range : c.reg sp < 65536
  pub in_memory : c.reg sp ≤ c.total_size
  pub not_sp : r ≢ sp
  pub not_bp : r ≢ bp

-- The two sides of an operation, where the lines of each calculate its value.
operation-Sides :
    (labels : Operand → ℕ) (e : Emitter) (c : CpuState) (r : Register) (type : OpType)
    (left right : Value)
    → Plain e c (Value.op type left right)
    → Room c r (Value.op type left right)
    → ((d : CpuState)
        → Plain e d left
        → Room d r left
        → Computes labels d r (value_of labels e d left) (store_value e r left))
    → Computes labels c r (value_of labels e c right) (store_value e r right)
    → Sides labels c r
        (value_of labels e c left)
        (value_of labels e c right)
        (store_value e r left)
        (store_value e r right)
unfolding depth Plain
operation-Sides labels e c r type left right h room compute_left second =
    let kept = λ (i : Register) (ne : i ≢ r) (ne4 : i ≢ 4). second.computed.kept i ne ne4 in
    let same_sp : second.after.reg sp ≡ c.reg sp =
      second.computed.kept sp (λ e. room.not_sp (sym e)) (λ e. absurd (omega arith)) in
    let result = second.computed.result in
    let (held, pushed) =
      push-Pushed second.after r (omega (arith, room.stack)) (omega (arith, room.in_range))
        (omega (arith, room.in_memory, second.computed.size))
        (omega (arith, value_of-lt labels e c right)) in
    let held_bp : held.reg bp ≡ c.reg bp =
      pushed.kept bp (λ e. absurd (omega arith))
      ∙ second.computed.kept bp (λ e. room.not_bp (sym e)) (λ e. absurd (omega arith)) in
    let agrees : Agrees c held = record {
      frame = held_bp;
      pointer = omega (arith, pushed.pointer);
      memory = λ a le. pushed.memory a (omega arith) ∙ second.computed.memory a le;
      size = pushed.size ∙ second.computed.size;
    } in
    let first = compute_left held (Plain-agree e left agrees h.1) record {
      stack = omega (arith, room.stack, pushed.pointer);
      in_range = omega (arith, room.in_range, pushed.pointer);
      in_memory = omega (arith, room.in_memory, pushed.pointer, agrees.size);
      not_sp = room.not_sp;
      not_bp = room.not_bp;
    } in
    let first' : Computes labels held r (value_of labels e c left) (store_value e r left) =
      rw (← value_of-agree labels e left agrees h.1) first in
    let first_sp : first'.after.reg sp ≡ held.reg sp =
      first'.computed.kept sp (λ e. room.not_sp (sym e)) (λ e. absurd (omega arith)) in
    let (ready, popped) =
      pop-Popped first'.after 4 (λ e. absurd (omega arith))
        (omega (arith, room.in_range, pushed.pointer))
        (omega (arith, room.in_memory, pushed.pointer, first'.computed.size, agrees.size)) in
    record {
      second = second;
      held = held;
      pushed = pushed;
      first = first';
      ready = ready;
      popped = popped;
    }

-- An immediate, a string or a local variable.
abbrev pub Leaf : Value → Type 0
Leaf (Value.immediate n) = Unit {0}
Leaf (Value.string id) = Unit {0}
Leaf (Value.local l offset deref decay) = Unit {0}
Leaf _ = ⊥

Leaf-Computes :
    (labels : Operand → ℕ) (e : Emitter) (v : Value) (c : CpuState) (r : Register)
    → Leaf v
    → Plain e c v
    → Computes labels c r (value_of labels e c v) (store_value e r v)
unfolding store_value value_of Plain
Leaf-Computes labels e (Value.immediate n) c r leaf h = int-Computes labels c r n h refl
Leaf-Computes labels e (Value.string id) c r leaf h = string-Computes labels c r id
Leaf-Computes labels e (Value.local l offset deref decay) c r leaf h =
    local-Computes labels e c r l offset deref decay h
Leaf-Computes labels e _ c r leaf h = elim leaf [ ]

-- A sum, difference or product of two immediates, strings or local variables that is asked for in r4, where
-- nothing is folded and the stack has room, leaves in r4 what the operation gives on the right side twice.
pub store_value_r4 :
    (labels : Operand → ℕ) (e : Emitter) (c : CpuState) (type : OpType) (left right : Value)
    → Plain e c (Value.op type left right)
    → Room c 4 (Value.op type left right)
    → Leaf left
    → Leaf right
    → foldable e.f_fold_constants left right ≡ none
    → Computes labels c 4
        (calculate type (value_of labels e c right) (value_of labels e c right))
        (store_value e 4 (Value.op type left right))
unfolding store_value Plain emit_op
store_value_r4 labels e c type left right h room leaf leaf' unfolded =
    let sides =
      operation-Sides labels e c 4 type left right h room
        (λ d plain here. Leaf-Computes labels e left d 4 leaf plain)
        (Leaf-Computes labels e right c 4 leaf' h.2) in
    rw unfolded (
      Sides-Computes labels c 4 _ _ _ _ sides room.not_sp type h.0 (value_of-lt labels e c right)
        (Sides-right labels c 4 _ _ _ _ sides room.not_sp))
