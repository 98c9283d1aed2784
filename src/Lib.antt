-- ===== src/Lib.antt =====
-- A model of parts of HAMMER2 for Linux, a copy-on-write file system (sys/fs/hammer2/).
--
-- The program. A mount is a cluster of elements, each with its tree of chains; an operation runs on
-- every element, and the cluster check decides from the replies which agree. The inodes of the mount are
-- locked by the CCMS lock. A chain that is modified gets new storage from the freemap, in sizes that
-- the radix functions choose; the freemap's own blocks rotate in reserved storage. A mount reads and
-- checks the headers of its volumes, and a recovery marks what the freemap lost. Blocks are read and
-- written through a table of buffers for each device, and transactions keep modifications and the
-- flush apart.
--
-- The files, each with the code it is about:
--   Ccms (hammer2_ccms.c, hammer2_ccms.h): `Cst` is `ccms_cst_t`, each call a function of the same name
--     on it and on the calling thread. A wait is a round (`shared_round`, `exclusive_round`,
--     `upgrade_round`) that is tried again. Ccms/Threads has the threads as a step relation,
--     Ccms/Invariant the invariant, Ccms/Safety and Ccms/Calls the consequences.
--   Cluster (hammer2_cluster.c): `Cluster` and `Slot` are the cluster and its elements; Cluster/Check
--     has `hammer2_cluster_check` with its passes. Cluster/Votes, Cluster/Quorum, Cluster/Verdict and
--     Cluster/Elements are its proofs.
--   Freemap (hammer2_freemap.c): `Bmap` is `struct hammer2_bmap_data`, its bitmap a function of the word
--     and the bit (Freemap/Bitmap). Freemap/Bmap has `hammer2_bmap_alloc`, with what it returns as
--     `Alloc`; Freemap/Bmap/Scan, Fitted, Overlap and Account are about it. Freemap/Reserve,
--     Freemap/Iterate, Freemap/Leaf and Freemap/Adjust have the functions for the reserved storage,
--     the search over leaves, a new leaf and the recovery.
--   Chain (hammer2_chain.c): Chain/Table has `hammer2_base_find`, with `Blockref` for the block reference
--     and `Parent` for what the functions use of the parent chain; Chain/Table/Change has
--     `hammer2_base_insert` and `hammer2_base_delete`. Order says what a sorted table is, and Find, Moves,
--     Room, Place, Insert, Delete and Refuse are the proofs. Chain/Lookup has `hammer2_chain_find` and
--     `hammer2_combined_find`, with their proofs in Scan and Nearest.
--   Bulkfree (hammer2_bulkfree.c): Bulkfree/Scan has `cbinfo_bmap_init` and `h2_bulkfree_callback`,
--     Bulkfree/Sync `h2_bulkfree_sync_adjust`; Gather and Sync/Bits are about the bits of each, and Safety
--     joins them with the allocator of Freemap/Bmap.
--   Xop (hammer2_admin.c): Xop/Fifo has `hammer2_xop_fifo_alloc` and `hammer2_xop_feed`; Moves, Ring and
--     Feed are about the queue that a FIFO stands for. Xop/Collect has `hammer2_xop_collect` over the cluster
--     check of Cluster/Check; Rounds and Ends are about how it comes to an end.
--   Flush (hammer2_flush.c): Flush/Trans has `hammer2_trans_init` as a round that is tried again
--     (`init_round`), `hammer2_trans_setflags`, `_clearflags` and `_done` on `Trans`, the word of
--     `struct hammer2_trans`. Threads, Invariant and Safety below it are as in Ccms.
--   Io (hammer2_io.c): `Dio` is `hammer2_io_t` and `Hmp` what the functions use of `hammer2_dev_t`. Io/Table
--     has the table and `hammer2_io_alloc`, Io/Fill `hammer2_io_getblk` over the answers of the block layer
--     (`Media`), Io/Put `hammer2_io_putblk` with the cleaning, Io/Dedup and Io/Shared the dedup masks.
--     Invariant says what holds of the table; Change, Owned, Alloc, Getblk and Got are about getting a
--     buffer, Cleaned, Sweep, Drop and Putblk about dropping it, Returned and Reach about any sequence,
--     Unmount about `hammer2_io_hash_cleanup_all`.
--   Ondisk (hammer2_ondisk.c): Ondisk/Header has `hammer2_read_volume_header`, Ondisk/Verify the three
--     parts of `hammer2_verify_volumes`, Ondisk/Load `hammer2_init_volumes` and `hammer2_get_volume`. Best is
--     about the header chosen; Kept and Placed about which devices are accepted; Known,
--     Accepted, Prefix, Segments, Mounted and Partition lead from the checks to where the volumes lie.
--   Subr (hammer2_subr.c): Subr/Types, Subr/Time, Subr/Radix, Subr/Blocks and Subr/Dirhash have the
--     functions of those names.
--   Base: shared notation, numbers, lists, error codes (hammer2.h) and sums over families.
--
-- Numbers are natural numbers, reduced modulo 2^w where the code's can wrap, but for the indices of a FIFO
-- in Xop: an operation has fewer than 2^31 replies of an element. In Io a shift takes its count modulo the
-- width of the word, as the machine does. A failed `KKASSERT` is a result of its own (`asserted`, or a
-- crash of the thread in Ccms). Bitmaps are read and written a bit at a time, which is what the code's
-- masks say.
--
-- Loops. A list is gone through by recursion on it. Pass 2 of the cluster check has fuel for the number of
-- elements and two more rounds: each round goes down to a lower transaction id that some element holds. The
-- radix loop has fuel 65, more than the bits of a size; the block size loop 8, more than the halvings from
-- the largest block to the smallest. The allocator's loop takes its fuel as an argument. The search for an
-- empty entry goes away from the place of insertion on both sides and has fuel for the entries of the table
-- and one; the bits of a reference have fuel for its blocks. The loop of the feed has fuel 2: a FIFO that
-- was made twice as large is not full. The collection takes its fuel as an argument, and its theorem says
-- how much is enough. The loops over volumes, headers and chains of the table of buffers have the source's
-- own bounds as fuel.
--
-- Not modelled: the storage and locking of chains, the recursion of the flush, the message transport, the
-- VFS layer. In Io the bytes of a buffer, the page cache and connection devices are left, and a walk under
-- the locks of the table and of a dio is one step; there are fewer than 2^56 references to a dio, and the
-- clock does not run back. In Flush fewer than 2^24 transactions are open, as the count has no more bits.
-- In Ondisk a uuid is the number of its bits, and what is read at a header's place is given; the devices
-- that are given are open and have a path. Of bulk free the walk of the tree, the limit on its rate and the
-- heuristic that passes over references seen before are left. In Chain the spin lock is taken to be held
-- and the flags of the chain are left, the injected panic of the debug build too; `RB_SCAN` of the copied
-- macros is a parameter, of which its comment is used: for a function that is first -1, then 0 and then 1
-- along a tree, it calls back for the items of 0, in order. In Xop the memory of the arrays and the
-- references to the chains are left, and a size is a power of two, so that a mask is a remainder. The CRC
-- of the directory hash and of the volume header is a parameter. In `hammer2_cluster_check` the bound of
-- `nchains` is not asserted, since the elements are a list. The leaf scan of `hammer2_freemap_try_alloc` is
-- a function argument of the allocator's loop, which says for each position of the iterator what error the
-- leaf gives. In `hammer2_freemap_adjust` the leaf is given, and so is the error of its
-- `hammer2_chain_modify`.
pub mod Base
pub mod Bulkfree
pub mod Ccms
pub mod Chain
pub mod Flush
pub mod Io
pub mod Ondisk
pub mod Cluster
pub mod Subr
pub mod Xop
pub mod Freemap
