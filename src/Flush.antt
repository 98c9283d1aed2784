-- ===== src/Flush.antt =====
-- sys/fs/hammer2/hammer2_flush.c: the transactions that a flush is kept apart from other flushes by.
pub mod Trans
mod Tests
