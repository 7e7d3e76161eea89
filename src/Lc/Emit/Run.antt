-- ===== src/Lc/Emit/Run.antt =====
-- What lines of assembly do on the processor, with operands as the assembler encodes them (as/src/assembler.cc,
-- ins_dest_and_any); where a label stands is a parameter.
use irid.Base.{ℕ, ◌^◌, ◌≡◌, refl, [], ◌∷◌, ◌++◌, ltb, if◌then◌else◌, ok, stop}
use irid.Base.Results.{◌>>=◌}
use irid.Emul.Cpu
use irid.Emul.Cpu.{CpuState, Running, not_modelled, u16, u8}
use irid.Lc.Emit.{Operand, Line, Lines}

-- The value of an operand; `labels` says where `_G_…` and `_S_…` stand. An int, modulo 2 ^ 32, is printed with its
-- sign: the assembler encodes a number below 256 as one byte, also a negative one, and refuses one above 65535.
unfoldable pub operand : (Operand → ℕ) → CpuState → Operand → Running ℕ
operand labels c (Operand.reg r) = ok (c.reg r)
operand labels c (Operand.int n) =
    if ltb n 65536 then ok n else if ltb n (2 ^ 31) then stop not_modelled else ok (u8 n)
operand labels c (Operand.global name) = ok (u16 (labels (Operand.global name)))
operand labels c (Operand.string id) = ok (u16 (labels (Operand.string id)))

-- One line; calls, jumps, comparisons and data are not modelled.
unfoldable pub step : (Operand → ℕ) → Line → CpuState → Running CpuState
unfolding operand
step labels (Line.push r) c = Cpu.push r c
step labels (Line.pop r) c = Cpu.pop r c
step labels (Line.mov r o) c = operand labels c o >>= λ value. ok (Cpu.mov r value c)
step labels (Line.add r o) c = operand labels c o >>= λ value. ok (Cpu.add r value c)
step labels (Line.sub r o) c = operand labels c o >>= λ value. ok (Cpu.sub r value c)
step labels (Line.mul r o) c = operand labels c o >>= λ value. ok (Cpu.mul r value c)
step labels (Line.and r o) c = operand labels c o >>= λ value. ok (Cpu.and r value c)
step labels (Line.load r p) c = Cpu.load r p c
step labels (Line.store r p) c = Cpu.store r p c
step labels _ c = stop not_modelled

-- Lines one after the other.
unfoldable pub run : (Operand → ℕ) → Lines → CpuState → Running CpuState
run labels [] c = ok c
run labels (l ∷ ls) c = step labels l c >>= run labels ls

>>=-run :
    (labels : Operand → ℕ) (ks ls : Lines) (m : Running CpuState)
    → ((c : CpuState) → run labels (ks ++ ls) c ≡ (run labels ks c >>= run labels ls))
    → (m >>= run labels (ks ++ ls)) ≡ (m >>= run labels ks >>= run labels ls)
>>=-run labels ks ls (ok d) ih = ih d
>>=-run labels ks ls (stop e) ih = refl

-- Lines that follow others start where those end.
pub run-append :
    (labels : Operand → ℕ) (ks ls : Lines) (c : CpuState)
    → run labels (ks ++ ls) c ≡ (run labels ks c >>= run labels ls)
unfolding run
run-append labels [] ls c = refl
run-append labels (k ∷ ks) ls c = >>=-run labels ks ls (step labels k c) (run-append labels ks ls)
