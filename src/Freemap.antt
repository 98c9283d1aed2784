-- ===== src/Freemap.antt =====
-- sys/fs/hammer2/hammer2_freemap.c: the allocation of storage from the freemap.
pub mod Bitmap
pub mod Bmap
pub mod Reserve
pub mod Iterate
pub mod Leaf
pub mod Adjust
mod Tests
