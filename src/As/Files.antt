-- ===== src/As/Files.antt =====
-- as/src/assembler.cc: files of values that name other files.
mod Outcome
mod Methods
mod Directives
pub mod Nested
