-- ===== src/Freemap/Bmap.antt =====
-- `hammer2_bmap_alloc`: an allocation from the bitmap of one 4MB segment.
use linux_hammer.Base.{
  ℕ, zero, suc, ◌+◌, ◌-◌, ◌*◌, ◌/◌, ◌%◌, ◌^◌, Bool, true, false, not, ◌&&◌, ◌||◌, ◌==◌, ltb, leb,
  if◌then◌else◌, Option, none, some,
}
use linux_hammer.Freemap.Bitmap.{Bitmap, any_set, mark}
pub mod Scan
pub mod Fitted
pub mod Overlap
pub mod Account

abbrev pub segsize : ℕ
segsize = 4194304

abbrev pub block_size : ℕ
block_size = 16384

abbrev pub block_radix : ℕ
block_radix = 14

-- `HAMMER2_SEGSIZE / HAMMER2_BMAP_ELEMENTS`, the storage of one word of the bitmap.
abbrev pub element_size : ℕ
element_size = 524288

abbrev pub bref_type_data : ℕ
bref_type_data = 3

-- `struct hammer2_bmap_data`; `linear` is never negative.
pub record Bmap : Type 0 where
  pub linear : ℕ
  pub class : ℕ
  pub avail : ℕ
  pub bitmapq : Bitmap

-- `ok bmap base bgsize fresh`: the segment and `*basep` afterwards, what `allocator_free` goes down
-- by, and the argument of `hammer2_io_newnz` if that is called.
pub data Alloc : Type 0 where
  ok : Bmap → ℕ → ℕ → Option ℕ → Alloc
  enospc : Alloc
  asserted : Alloc

-- `bmradix`: how many bits the allocation takes.
abbrev pub bmradix_of : ℕ → ℕ
bmradix_of radix = if leb radix block_radix then 2 else 2 * 2 ^ (radix - block_radix)

abbrev pub uses_linear : Bmap → ℕ → Bool
uses_linear b size =
    leb (b.linear % block_size + size) block_size
    && not (b.linear % block_size == 0)
    && ltb b.linear segsize

-- Where the bits are: the word and the shift, `none` if no word has room.
abbrev pub Found : Type 0
Found = Option (ℕ × ℕ)

-- `for (j = 0; j < 64; j += bmradix)`, with `left` steps to go.
unfoldable pub scan_element : Bitmap → ℕ → ℕ → ℕ → ℕ → Found
scan_element q i bmradix zero j = none
scan_element q i bmradix (suc left) j =
    let next = scan_element q i bmradix left (j + bmradix) in
    if any_set q i j bmradix then next else some (i, j)

abbrev steps_of : ℕ → ℕ
steps_of bmradix = 64 / bmradix

abbrev or_else : Found → Found → Found
or_else (some p) next = some p
or_else none next = next

-- `for (i = 0; i < 8; ++i)`, with `left` words to go.
unfoldable pub scan : Bitmap → ℕ → ℕ → ℕ → Found
scan q bmradix zero i = none
scan q bmradix (suc left) i =
    or_else (scan_element q i bmradix (steps_of bmradix) 0) (scan q bmradix left (suc i))

-- The place that `sub_key` asks for, for a data block of at least a bitmap block.
unfoldable pub preferred : ℕ → ℕ → ℕ → Found
preferred class sub_key radix =
    if class / 2 ^ 8 == bref_type_data && leb block_radix radix
    then some (sub_key % segsize / element_size, sub_key % element_size / block_size * 2)
    else none

abbrev pub word_bits : ℕ
word_bits = 64

-- `while ((pbmmask & bmmask) == 0) pbmmask <<= pbmradix;`: the 64KB group of the bits from `j`.
unfoldable pub pbuf_group : ℕ → ℕ → ℕ → ℕ → ℕ
pbuf_group zero k j n = k
pbuf_group (suc fuel) k j n =
    let next = pbuf_group fuel (k + 8) j n in if leb (k + 8) j || leb (j + n) k then next else k

-- The buffer to be made without a read, if nothing of it is allocated and it is larger than the
-- allocation. The 16 is the radix of the buffer, in low bits that are zero.
unfoldable pub fresh_pbuf : Bitmap → ℕ → ℕ → ℕ → ℕ → ℕ → ℕ → Option ℕ
unfolding pbuf_group
fresh_pbuf q i j bmradix size base offset =
    if not (any_set q i j bmradix)
      && not (size == 65536)
      && not (any_set q i (pbuf_group 8 0 j bmradix) 8)
    then some (base + offset / 65536 * 65536 + 16)
    else none

-- The tail, from the place on.
unfoldable pub take : Bmap → ℕ → ℕ → ℕ → ℕ → ℕ → ℕ → ℕ → Alloc
unfolding fresh_pbuf
take b class radix base size i j offset =
    let bmradix = bmradix_of radix in
    let bgsize =
      if ltb radix block_radix
      then (if any_set b.bitmapq i j bmradix then 0 else block_size)
      else size in
    if ltb i 8
    then ok
        (record b {
          bitmapq = mark b.bitmapq i j bmradix;
          class = if b.class == 0 then class else b.class;
          avail = (b.avail + 2 ^ 32 - bgsize) % 2 ^ 32;
        })
        ((base + offset) % 2 ^ 64) bgsize (fresh_pbuf b.bitmapq i j bmradix size base offset)
    else asserted

-- `success:`
unfoldable pub take_found : Bmap → ℕ → ℕ → ℕ → ℕ → ℕ × ℕ → Alloc
unfolding take
take_found b class radix base size (i, j) =
    let offset = i * element_size + j * (block_size / 2) in
    let b' = if size % block_size == 0 then b else record b { linear = offset + size } in
    take b' class radix base size i j offset

unfoldable pub take_scan : Bmap → ℕ → ℕ → ℕ → ℕ → Found → Alloc
unfolding take_found
take_scan b class radix base size none = enospc
take_scan b class radix base size (some p) = take_found b class radix base size p

-- The bitmap is scanned unless the preferred place is free.
unfoldable pub search_from : Bmap → ℕ → ℕ → ℕ → ℕ → Found → Alloc
unfolding take_scan scan scan_element
search_from b class radix base size none =
    take_scan b class radix base size (scan b.bitmapq (bmradix_of radix) 8 0)
search_from b class radix base size (some (i, j)) =
    if leb (j + bmradix_of radix) word_bits
    then if any_set b.bitmapq i j (bmradix_of radix)
      then take_scan b class radix base size (scan b.bitmapq (bmradix_of radix) 8 0)
      else take_found b class radix base size (i, j)
    else asserted

-- The linear iterator is in the middle of a block.
unfoldable pub take_linear : Bmap → ℕ → ℕ → ℕ → ℕ → Alloc
unfolding take
take_linear b class radix base size =
    let offset = b.linear in
    if leb (offset + size) segsize && offset % 1024 == 0
    then take (record b { linear = offset + size }) class radix base size (offset / element_size)
        (offset / (block_size / 2) % 64 / 2 * 2) offset
    else asserted

unfoldable pub hammer2_bmap_alloc : Bmap → ℕ → ℕ → ℕ → ℕ → Alloc
unfolding take_linear search_from preferred
hammer2_bmap_alloc b class sub_key radix base =
    let size = 2 ^ radix in
    if uses_linear b size
    then take_linear b class radix base size
    else search_from b class radix base size (preferred class sub_key radix)
