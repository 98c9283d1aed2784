-- ===== src/Bulkfree/Scan.antt =====
-- `cbinfo_bmap_init` and `h2_bulkfree_callback`: the in-memory freemap that a pass gathers.
use linux_hammer.Base.{
  ℕ, zero, suc, ◌+◌, ◌-◌, ◌*◌, ◌/◌, ◌%◌, ◌^◌, Bool, true, false, not, ◌&&◌, ◌||◌, ◌==◌, ltb, leb,
  if◌then◌else◌, List, [], ◌∷◌,
}
use linux_hammer.Freemap.Bitmap.{any_set, mark}
use linux_hammer.Freemap.Bmap.{Bmap, segsize, block_size}
use linux_hammer.Freemap.Iterate.{level1_size}
use linux_hammer.Chain.Table.{Blockref}

-- The range of the pass, `sbase` to `sstop`, and what it takes from the device.
pub record BulkfreeInfo : Type 0 where
  pub sbase : ℕ
  pub sstop : ℕ
  pub allocator_beg : ℕ
  pub total_size : ℕ
  pub signaled : Bool

-- `lokey` is carried on from segment to segment.
unfoldable pub raise_lokey : ℕ → ℕ → ℕ
raise_lokey key lokey =
    let base = key / level1_size * level1_size in
    let above = if ltb lokey base then base else lokey in
    if ltb above (base + segsize) then base + segsize else above

abbrev pub blank : Bmap
blank = record { linear = 0; class = 0; avail = segsize; bitmapq = λ i j. false }

abbrev pub reserved : Bmap
reserved = record { linear = segsize; class = 0; avail = 0; bitmapq = λ i j. true }

-- The segments from `key` on, `left` of them.
unfoldable pub init_from : ℕ → ℕ → ℕ → ℕ → List Bmap
unfolding raise_lokey
init_from hikey zero key lokey = []
init_from hikey (suc left) key lokey =
    let low = raise_lokey key lokey in
    (if ltb key low || leb hikey key then reserved else blank)
    ∷ init_from hikey left (key + segsize) low

unfoldable pub cbinfo_bmap_init : BulkfreeInfo → ℕ → List Bmap
unfolding init_from
cbinfo_bmap_init c segments =
    init_from (c.total_size / segsize * segsize) segments c.sbase
      ((c.allocator_beg + (segsize - 1)) % 2 ^ 64 / segsize * segsize)

-- The highest end of what is smaller than a block, or inside one; a block of whole blocks is passed over.
unfoldable pub raise_linear : ℕ → ℕ → ℕ → ℕ
raise_linear linear off bytes =
    if not (bytes % block_size == 0)
    then (if ltb linear (off + bytes) then off + bytes else linear)
    else (if leb off linear && ltb linear (off + bytes) then off + bytes else linear)

-- One turn of `while (bytes > 0)`.
unfoldable pub mark_used : ℕ → ℕ → Bmap → Bmap
mark_used off bytes b =
    let i = off / 2 ^ 19 in
    let j = off % 2 ^ 19 / 2 ^ 14 * 2 in
    let less = if ltb bytes block_size then block_size else bytes in
    if any_set b.bitmapq i j 2
    then b
    else record b { bitmapq = mark b.bitmapq i j 2; avail = (b.avail + 2 ^ 32 - less) % 2 ^ 32 }

-- Fuel is one for each block.
unfoldable pub mark_all : ℕ → ℕ → ℕ → Bmap → Bmap
mark_all zero off bytes b = b
mark_all (suc fuel) off bytes b =
    if bytes == 0
    then b
    else mark_all fuel (off + block_size) (bytes - block_size) (mark_used off bytes b)

abbrev pub blocks_of : ℕ → ℕ
blocks_of bytes = (bytes + (block_size - 1)) / block_size

-- From `if (bmap->class == 0)` on; `off` is in the segment.
unfoldable pub use_segment : ℕ → ℕ → ℕ → Bmap → Bmap
unfolding mark_all raise_linear
use_segment class off bytes b = mark_all (blocks_of bytes) off bytes (record b {
  class = if b.class == 0 then class else b.class;
  avail = if b.class == 0 then segsize else b.avail;
  linear = raise_linear b.linear off bytes;
})

-- A segment of the array is replaced.
abbrev pub update : (ℕ → Bmap) → ℕ → Bmap → ℕ → Bmap
update bmaps n b m = if m == n then b else bmaps m

abbrev pub error_aborted : ℕ
error_aborted = 0x00001000

pub data Scanned : Type 0 where
  returned : ℕ → BulkfreeInfo → (ℕ → Bmap) → Scanned
  asserted : Scanned

-- The bytes that are recorded of an allocation at `off` of the range: it is cut at the end of the range
-- and of the segment.
unfoldable pub cut : ℕ → ℕ → ℕ → ℕ
cut room off bytes =
    let within = if ltb room (off + bytes) then room - off else bytes in
    if ltb segsize (off % segsize + within) then segsize - off % segsize else within

-- `sig` is whether a signal is pending. The limit on the rate of the scan, `bulkfree_calls` and
-- `bulkfree_ticks`, is left out: it only sleeps.
unfoldable pub h2_bulkfree_callback : Bool → BulkfreeInfo → Blockref → (ℕ → Bmap) → Scanned
unfolding use_segment cut
h2_bulkfree_callback sig c bref bmaps =
    let at = bref.data_off / 64 * 64 in
    let radix = bref.data_off % 64 in
    let off = at - c.sbase in
    if sig && not c.signaled
    then returned error_aborted (record c { signaled = true }) bmaps
    else (if ltb at c.sbase || leb c.sstop at || ltb at c.allocator_beg || leb c.total_size at
        then returned 0 c bmaps
        else (if radix == 0
            then asserted
            else returned 0 c (
                update bmaps (off / segsize) (
                  use_segment (bref.type * 256 + 16) (off % segsize)
                    (cut (c.sstop - c.sbase) off (2 ^ radix)) (bmaps (off / segsize))))))
