-- ===== src/Bulkfree.antt =====
-- sys/fs/hammer2/hammer2_bulkfree.c: the scan of the references, and the merge of what it found into the
-- live freemap.
pub mod Scan
pub mod Gather
pub mod Sync
pub mod Safety
mod Tests
