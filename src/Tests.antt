-- ===== src/Tests.antt =====
-- Runs of the definitions on small inputs, and the theorems at inputs that meet their hypotheses.
mod Linker
mod Leaf
mod Emitter
mod Emulator
mod Assembler
mod Object
mod Buffer
mod Parser
mod Compiler
