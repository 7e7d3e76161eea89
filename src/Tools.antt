-- ===== src/Tools.antt =====
-- The shared library of the tools, libiridtools.
pub mod Contents
pub mod Writes
pub mod Builder
pub mod Bytebuffer
