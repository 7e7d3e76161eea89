-- ===== src/Ld.antt =====
-- The linker.
pub mod Store
pub mod Region
pub mod Section
pub mod Object
pub mod Linker
pub mod Output
