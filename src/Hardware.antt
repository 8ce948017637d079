-- ===== src/Hardware.antt =====
-- The simulated hardware of machine/ that the kernel's behaviour rests on.
pub mod Interrupt
pub mod Disk
pub mod Mips
mod Tests
