-- ===== src/Subr.antt =====
-- sys/fs/hammer2/hammer2_subr.c: conversions of types, times, ids, names and sizes.
pub mod Types
pub mod Time
pub mod Radix
pub mod Blocks
pub mod Dirhash
mod Tests
