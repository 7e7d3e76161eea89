-- ===== src/As.antt =====
-- The assembler, as/src.
pub mod Text
pub mod Numbers
pub mod State
pub mod Symbols
pub mod Instructions
pub mod Assembler
pub mod Meaning
pub mod Encoding
pub mod Links
pub mod Labels
pub mod Files
pub mod Object
