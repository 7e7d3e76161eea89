-- ===== src/As/Encoding/Fetched.antt =====
-- as/src/assembler.cc against the processor: an assembled instruction is fetched as what its line names.
use irid.Base.{
  false, ◌+◌, ◌≤◌, ◌≡◌, refl, true, List, [], ◌∷◌, some, ok, arith, Bool-cases, Option-cases, inl,
  inr,
}
use irid.Base.Bytes.{Bytes, equal, equal_iff}
use irid.Emul.Cpu.{CpuState}
use irid.Emul.Registers.{ip}
use irid.Emul.Decode.{Instruction, fetch}
use irid.As.Symbols.{entry, instruction_id_from_mnemonic}
use irid.As.State.{Assembler, aligned}
use irid.As.Instructions.{Handler, instructions, parse_instruction}
use irid.As.Meaning.{Operands, language, taken_instruction, line_instruction, in_language}
use irid.As.Encoding.{Encodes, Loaded, Encodes-fetch}
use irid.As.Encoding.Operands.{
  Encoder, no_arguments-Encoder, register-Encoder, addr-Encoder, branch-Encoder, place-Encoder,
}
use irid.As.Encoding.Sources.{any-Encoder, count-Encoder}

-- The two tables have the same names in the same order, and every method encodes what its name takes.
Agree : List (Bytes × Handler) → List (Bytes × Operands) → Type 0
Agree [] os = Unit {0}
Agree (m ∷ ms) [] = true ≡ false
Agree ((name, method) ∷ ms) ((name', operands) ∷ os) =
    (name ≡ name') × Encoder method name operands × Agree ms os

entry-Agree :
    (ms : List (Bytes × Handler)) (os : List (Bytes × Operands)) (name : Bytes) {method : Handler}
    → Agree ms os
    → entry ms name ≡ some method
    → (operands : Operands) × (entry os name ≡ some operands) × Encoder method name operands
unfolding entry Agree
entry-Agree [] os name agree h = cc
entry-Agree (m ∷ ms) [] name agree h = cc
entry-Agree ((name', m) ∷ ms) ((name'', o) ∷ os) name {method} (same, encodes, agree) h =
    elim (Bool-cases (equal name' name)) [
      | inl here ↦
          let e : name' ≡ name = (equal_iff name' name).0 here in
          let found : m ≡ method = cc (rw here at h) in
          (o, rw (← same, here) refl, rw (← found, ← e) encodes)
      | inr there ↦
          let (operands, found, encodes') = entry-Agree ms os name agree (rw there at h) in
          (operands, rw (← same, there) found, encodes')
    ]

instructions-Agree : Agree instructions language
unfolding Agree instruction_id_from_mnemonic entry equal
instructions-Agree = (
  refl,
  no_arguments-Encoder _ 0x01 refl (omega arith) Instruction.cpucall refl,
  (
    refl,
    no_arguments-Encoder _ 0x35 refl (omega arith) Instruction.ret refl,
    (
      refl,
      no_arguments-Encoder _ 0x02 refl (omega arith) Instruction.rti refl,
      (
        refl,
        no_arguments-Encoder _ 0x03 refl (omega arith) Instruction.sti refl,
        (
          refl,
          no_arguments-Encoder _ 0x04 refl (omega arith) Instruction.dsi refl,
          (
            refl,
            no_arguments-Encoder _ 0x25 refl (omega arith) Instruction.cfs refl,
            (
              refl,
              any-Encoder _ 0x14 refl refl (omega arith) _ _ _ refl refl refl,
              (
                refl,
                any-Encoder _ 0x36 refl refl (omega arith) _ _ _ refl refl refl,
                (
                  refl,
                  any-Encoder _ 0x39 refl refl (omega arith) _ _ _ refl refl refl,
                  (
                    refl,
                    any-Encoder _ 0x1a refl refl (omega arith) _ _ _ refl refl refl,
                    (
                      refl,
                      any-Encoder _ 0x1d refl refl (omega arith) _ _ _ refl refl refl,
                      (
                        refl,
                        any-Encoder _ 0x20 refl refl (omega arith) _ _ _ refl refl refl,
                        (
                          refl,
                          any-Encoder _ 0x3c refl refl (omega arith) _ _ _ refl refl refl,
                          (
                            refl,
                            any-Encoder _ 0x3f refl refl (omega arith) _ _ _ refl refl refl,
                            (
                              refl,
                              any-Encoder _ 0x47 refl refl (omega arith) _ _ _ refl refl refl,
                              (
                                refl,
                                register-Encoder _ 0x10 refl (omega arith) Instruction.push refl,
                                (
                                  refl,
                                  register-Encoder _ 0x13 refl (omega arith) Instruction.pop refl,
                                  (
                                    refl,
                                    count-Encoder _ 0x43 refl refl (omega arith) _ _ refl refl,
                                    (
                                      refl,
                                      count-Encoder _ 0x45 refl refl (omega arith) _ _ refl refl,
                                      (
                                        refl,
                                        branch-Encoder _ 0x31 refl (omega arith) Instruction.jnz
                                            refl,
                                        (
                                          refl,
                                          place-Encoder _ 0x17 0x23 Instruction.load
                                              Instruction.load16 (omega arith) (omega arith) refl
                                              refl,
                                          (
                                            refl,
                                            place-Encoder _ 0x18 0x24 Instruction.store
                                                Instruction.store16 (omega arith) (omega arith) refl
                                                refl,
                                            (
                                              refl,
                                              addr-Encoder _ 0x30 refl (omega arith) Instruction.jmp
                                                  refl,
                                              (
                                                refl,
                                                addr-Encoder _ 0x32 refl (omega arith)
                                                    Instruction.jeq refl,
                                                (
                                                  refl,
                                                  addr-Encoder _ 0x33 refl (omega arith)
                                                      Instruction.call refl,
                                                  tt,
                                                ),
                                              ),
                                            ),
                                          ),
                                        ),
                                      ),
                                    ),
                                  ),
                                ),
                              ),
                            ),
                          ),
                        ),
                      ),
                    ),
                  ),
                ),
              ),
            ),
          ),
        ),
      ),
    ),
  ),
)

pub parse_instruction-Encodes :
    (parts : List Bytes) (s t : Assembler)
    → parse_instruction parts s ≡ ok t
    → (i : Instruction) × (taken_instruction parts s ≡ ok i) × Encodes s t i
unfolding parse_instruction taken_instruction
parse_instruction-Encodes [] s t h = cc
parse_instruction-Encodes (mnemonic ∷ parts) s t h =
    elim (Option-cases (entry instructions mnemonic)) [
      | inl missing ↦ cc (rw (missing, parse_instruction) at h)
      | inr (method, found) ↦
          let (operands, found', encodes) =
            entry-Agree instructions language mnemonic instructions-Agree found in
          let (i, is, bytes) = encodes parts s t (rw (found, parse_instruction) at h) in
          (i, rw (found', is) refl, bytes)
    ]

-- A line that names an instruction is taken as that.
named-taken :
    (parts : List Bytes) (s : Assembler) {i : Instruction}
    → line_instruction parts s ≡ ok i
    → taken_instruction parts s ≡ ok i
unfolding line_instruction
named-taken parts s h = elim (Bool-cases (in_language parts)) [
  | inl known ↦ rw known at h
  | inr other ↦ cc (rw other at h)
]

-- A line of the language that names an instruction, with as many operands as that has, no negative number, and no
-- register for an address: if the assembler accepts it, at whatever position, and the code is in the memory, the
-- processor fetches that instruction at the next address that is a multiple of four.
pub parse_instruction-fetch :
    (parts : List Bytes) (s t : Assembler) (c : CpuState) {i : Instruction}
    → line_instruction parts s ≡ ok i
    → parse_instruction parts s ≡ ok t
    → Loaded t.code c
    → c.reg ip ≡ aligned s.pos
    → aligned s.pos + 4 ≤ 65536
    → fetch c ≡ ok i
parse_instruction-fetch parts s t c {i} names h loaded at fits =
    let (j, is, bytes) = parse_instruction-Encodes parts s t h in
    let same : j ≡ i = cc (named-taken parts s names) in
    rw (← same) (Encodes-fetch s t j c bytes loaded at fits)
