-- ===== src/Emul.antt =====
-- The emulator, emul/src.
pub mod Cpu
pub mod Stack
pub mod Registers
pub mod Instructions
pub mod Decode
pub mod Fetch
pub mod Devices
pub mod Machine
pub mod Interrupts
pub mod Halves
pub mod Calls
