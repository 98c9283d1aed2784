-- ===== src/Chain.antt =====
-- sys/fs/hammer2/hammer2_chain.c: the tables of block references that chains are found by.
pub mod Table
pub mod Lookup
mod Tests
