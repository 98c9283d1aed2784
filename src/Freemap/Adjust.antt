-- ===== src/Freemap/Adjust.antt =====
-- `hammer2_freemap_adjust`: the recovery of the freemap at mount, which marks the blocks of a reference
-- that the freemap lost.
use linux_hammer.Base.{
  ℕ, zero, suc, ◌+◌, ◌-◌, ◌*◌, ◌/◌, ◌%◌, ◌^◌, ◌≤◌, ◌<◌, ◌≡◌, refl, ◌⊎◌, inl, inr, Bool, true, false,
  not, ◌&&◌, ◌||◌, ◌==◌, ltb, leb, if◌then◌else◌, List, Option, none, some, get_elem?, set, subst,
  arith, Bool-cases, dec_lt,
}
use linux_hammer.Freemap.Bitmap.{mark, bit_of}
use linux_hammer.Freemap.Bmap.{Bmap, segsize, block_size, block_radix}
use linux_hammer.Freemap.Bmap.Scan.{Sizes-of}
pub mod Recovery

-- `done b modified bgsize`: the segment afterwards, whether the leaf was modified, and what
-- `allocator_free` goes down by. `failed` is the error of the leaf's `hammer2_chain_modify`.
pub data Adjusted : Type 0 where
  done : Bmap → Bool → ℕ → Adjusted
  failed : ℕ → Adjusted
  asserted : Adjusted

-- A block that is not marked, or half marked, becomes marked; the class is set if there was none.
unfoldable pub mark_block : ℕ → ℕ → ℕ → Bmap → Bmap
mark_block class i start b = record b {
  bitmapq = mark b.bitmapq i start 2;
  class = if b.class == 0 then class else b.class;
  avail =
      if b.bitmapq i start || b.bitmapq i (start + 1)
      then b.avail
      else (b.avail + 2 ^ 32 - block_size) % 2 ^ 32;
}

-- `if (modified) bmap->linear = 0;`, at `again`.
abbrev pub reset_linear : Bool → Bmap → Bmap
reset_linear modified b = if modified then b else record b { linear = 0 }

-- `while (count)`
unfoldable pub adjust_loop : ℕ → ℕ → ℕ → ℕ → ℕ → Bmap → Bool → ℕ → Adjusted
adjust_loop modify_error class i zero start b modified bgsize = done b modified bgsize
adjust_loop modify_error class i (suc count) start b modified bgsize =
    let kept = adjust_loop modify_error class i count (start + 2) b modified bgsize in
    let gone = if b.bitmapq i start || b.bitmapq i (start + 1) then 0 else block_size in
    let marked =
      adjust_loop modify_error class i count (start + 2)
        (mark_block class i start (reset_linear modified b)) true (bgsize + gone) in
    if leb 64 start
    then asserted
    else (if b.bitmapq i start && b.bitmapq i (start + 1)
        then kept
        else (if not modified && not (modify_error == 0) then failed modify_error else marked))

-- How many blocks a reference of the radix has.
abbrev pub count_of : ℕ → ℕ
count_of radix = if ltb radix block_radix then 1 else 2 ^ (radix - block_radix)

-- The segment that the reference is in; `type` is the reference's.
unfoldable pub adjust_segment : ℕ → ℕ → ℕ → Bmap → Adjusted
unfolding adjust_loop
adjust_segment modify_error type data_off b =
    let off = data_off / 64 * 64 in
    adjust_loop modify_error (type * 256 + 16) (off / 2 ^ 19 % 8) (count_of (data_off % 64))
      (off / 2 ^ 14 % 16 * 2) b false 0

-- The leaf: the segment is replaced, the result is the leaf's.
pub data Recovered : Type 0 where
  recovered : List Bmap → Bool → ℕ → Recovered
  failed : ℕ → Recovered
  asserted : Recovered

unfoldable pub put_segment : List Bmap → ℕ → Adjusted → Recovered
put_segment bmdata n (done b modified bgsize) = recovered (set bmdata n b) modified bgsize
put_segment bmdata n (failed error) = failed error
put_segment bmdata n asserted = asserted

unfoldable pub adjust_leaf : ℕ → ℕ → ℕ → List Bmap → Option Bmap → Recovered
unfolding adjust_segment put_segment
adjust_leaf modify_error type data_off bmdata none = asserted
adjust_leaf modify_error type data_off bmdata (some b) =
    put_segment bmdata (data_off / 2 ^ 22 % 256) (adjust_segment modify_error type data_off b)

unfoldable pub hammer2_freemap_adjust : ℕ → ℕ → ℕ → ℕ → List Bmap → Recovered
unfolding adjust_leaf
hammer2_freemap_adjust allocator_beg modify_error type data_off bmdata =
    let off = data_off / 64 * 64 in
    if data_off % 64 == 0 || ltb 16 (data_off % 64)
    then asserted
    else (if ltb off allocator_beg
        then recovered bmdata false 0
        else (if ltb (off % 2 ^ 31) segsize
            then asserted
            else adjust_leaf modify_error type data_off bmdata
                (get_elem? bmdata (data_off / 2 ^ 22 % 256))))
