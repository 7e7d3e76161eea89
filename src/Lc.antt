-- ===== src/Lc.antt =====
-- lc: the compiler of the Leaf language.
pub mod Stop
pub mod Preproc
pub mod Tokens
pub mod Types
pub mod Parser
pub mod Emit
pub mod Compiler
