-- ===== src/Zircon.antt =====
-- arch/x64/sysroot/include/zircon: the arithmetic of times.
pub mod Int
pub mod Time
mod Examples
