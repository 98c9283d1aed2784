-- ===== src/Xop.antt =====
-- sys/fs/hammer2/hammer2_admin.c: the replies of an operation that runs on every element of a cluster.
pub mod Fifo
pub mod Collect
mod Tests
