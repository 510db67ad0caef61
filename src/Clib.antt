-- ===== src/Clib.antt =====
-- The parts of lib/mylibc that the network code and the shell rely on.
pub mod Printf
pub mod Strtoul
pub mod Strtol
pub mod Decimal
pub mod Roundtrip
