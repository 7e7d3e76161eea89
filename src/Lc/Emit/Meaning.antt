-- ===== src/Lc/Emit/Meaning.antt =====
-- What a value stands for, whatever the lines that calculate it
use native.Mathlib.Nat.{mul-add-mod_self_left, div-add-mod}
use irid.Base.{
  true, false, ok, some, ◌%◌, ◌*◌, ◌/◌, arith, refl, if◌then◌else◌, ℕ, ◌+◌, ◌-◌, ◌≤◌, ◌<◌, ◌≡◌,
}
use irid.Emul.Stack.{word_at}
use irid.Emul.Cpu.{CpuState, sp, bp, u16}
use irid.Lc.Emit.{fold_result, foldable, Operand, Local, OpType, Value, Emitter, word, int_sub}

-- Where a part of a local variable stands.
abbrev pub address : Emitter → CpuState → Local → ℕ → ℕ
address e c l offset = u16 (c.reg bp + (65536 - u16 (int_sub (e.offset l.block) offset)))

-- The operation on words of 16 bits.
unfoldable pub calculate : OpType → ℕ → ℕ → ℕ
calculate OpType.add a b = u16 (a + b)
calculate OpType.sub a b = u16 (a + (65536 - b))
calculate OpType.mul a b = u16 (a * b)
calculate _ a b = 0

-- What a value stands for where the processor is in state `c`.
unfoldable pub value_of : (Operand → ℕ) → Emitter → CpuState → Value → ℕ
unfolding calculate
value_of labels e c (Value.immediate n) = u16 n
value_of labels e c (Value.string id) = u16 (labels (Operand.string id))
value_of labels e c (Value.local l offset deref decay) =
    if decay then address e c l offset else word_at c (address e c l offset)
value_of labels e c (Value.op type left right) =
    calculate type (value_of labels e c left) (value_of labels e c right)
value_of labels e c _ = 0

-- The operations that are emitted.
unfoldable pub IsArith : OpType → Type 0
IsArith OpType.add = Unit {0}
IsArith OpType.sub = Unit {0}
IsArith OpType.mul = Unit {0}
IsArith _ = ⊥

-- Where an operation is folded, what it gives is a number of 16 bits.
abbrev pub FoldsPlain : Emitter → OpType → Value → Value → Type 0
FoldsPlain e type left right =
    (a b n : ℕ)
    → foldable e.f_fold_constants left right ≡ some (a, b)
    → fold_result type a b ≡ ok n
    → n < 65536

-- Sums, differences and products of immediates, strings and local variables. The immediates and what is folded of
-- them are numbers of 16 bits that are not negative. The variables stand in the memory at or behind the stack
-- pointer, below 65536 bytes from the base pointer.
unfoldable pub Plain : Emitter → CpuState → Value → Type 0
Plain e c (Value.immediate n) = n < 65536
Plain e c (Value.string id) = Unit {0}
Plain e c (Value.local l offset deref decay) =
    (l.is_global ≡ false)
    × (deref ≡ false)
    × (int_sub (e.offset l.block) offset < 65536)
    × (c.reg sp ≤ address e c l offset)
    × (address e c l offset + 1 < c.total_size)
Plain e c (Value.op type left right) =
    IsArith type × Plain e c left × Plain e c right × FoldsPlain e type left right
Plain e c _ = ⊥

-- How many words the lines of a value push at once, at most.
unfoldable pub depth : Value → ℕ
depth (Value.op type left right) = 1 + (depth left + depth right)
depth _ = 0

-- The pointers to the stack and the memory behind it are the same in `d`, or the stack has grown.
pub record Agrees (c d : CpuState) : Type 0 where
  pub frame : d.reg bp ≡ c.reg bp
  pub pointer : d.reg sp ≤ c.reg sp
  pub memory : (a : ℕ) → c.reg sp ≤ a → d.mem a ≡ c.mem a
  pub size : d.total_size ≡ c.total_size

pub Plain-agree :
    (e : Emitter) {c d : CpuState} (v : Value) → Agrees c d → Plain e c v → Plain e d v
unfolding Plain
Plain-agree e (Value.immediate n) agrees h = h
Plain-agree e (Value.string id) agrees h = tt
Plain-agree e (Value.local l offset deref decay) agrees h =
    rw (agrees.frame, agrees.size) (h.0, h.1, h.2, omega (arith, agrees.pointer, h.3), h.4)
Plain-agree e (Value.op type left right) agrees h =
    (h.0, Plain-agree e left agrees h.1, Plain-agree e right agrees h.2, h.3)
Plain-agree e _ agrees h = h

pub value_of-agree :
    (labels : Operand → ℕ) (e : Emitter) {c d : CpuState} (v : Value)
    → Agrees c d
    → Plain e c v
    → value_of labels e d v ≡ value_of labels e c v
unfolding value_of Plain
value_of-agree labels e (Value.immediate n) agrees h = refl
value_of-agree labels e (Value.string id) agrees h = refl
value_of-agree labels e {c} (Value.local l offset deref true) agrees h = rw agrees.frame refl
value_of-agree labels e {c} (Value.local l offset deref false) agrees h =
    rw
      (
        agrees.frame,
        agrees.memory (address e c l offset) h.3,
        agrees.memory (address e c l offset + 1) (omega (arith, h.3)),
      )
      refl
value_of-agree labels e (Value.op type left right) agrees h =
    rw (value_of-agree labels e left agrees h.1, value_of-agree labels e right agrees h.2) refl
value_of-agree labels e _ agrees h = refl

pub calculate-lt : (type : OpType) (a b : ℕ) → calculate type a b < 65536
unfolding calculate
calculate-lt OpType.add a b = omega arith
calculate-lt OpType.sub a b = omega arith
calculate-lt OpType.mul a b = omega arith
calculate-lt _ a b = omega arith

pub value_of-lt :
    (labels : Operand → ℕ) (e : Emitter) (c : CpuState) (v : Value) → value_of labels e c v < 65536
unfolding value_of
value_of-lt labels e c (Value.immediate n) = omega arith
value_of-lt labels e c (Value.string id) = omega arith
value_of-lt labels e c (Value.local l offset deref true) = omega arith
value_of-lt labels e c (Value.local l offset deref false) = omega arith
value_of-lt labels e c (Value.op type left right) =
    calculate-lt type (value_of labels e c left) (value_of labels e c right)
value_of-lt labels e c _ = omega arith

mod_mul : (x y k : ℕ) → (x % k) * y % k ≡ x * y % k
mod_mul x y k =
    let e : x * y ≡ k * (x / k * y) + (x % k) * y = grind (arith, div-add-mod x k) in
    rw (e, mul-add-mod_self_left k (x / k * y) ((x % k) * y)) refl

-- Folding 32-bit ints and taking 16 bits is the operation on 16 bits.
pub fold_result-calculate :
    (type : OpType) (a b : ℕ)
    → IsArith type
    → b < word
    → (n : ℕ) × (fold_result type a b ≡ ok n) × (u16 n ≡ calculate type (u16 a) (u16 b))
unfolding fold_result calculate IsArith
fold_result-calculate OpType.add a b h lt = (_, refl, omega arith)
fold_result-calculate OpType.sub a b h lt = (_, refl, omega arith)
fold_result-calculate OpType.mul a b h lt =
    (_, refl, grind (arith, mod_mul a (b % 65536) 65536, mod_mul b a 65536))
fold_result-calculate OpType.div a b h lt = elim h [ ]
fold_result-calculate OpType.cmpeq a b h lt = elim h [ ]
fold_result-calculate OpType.cmpneq a b h lt = elim h [ ]
