-- ===== src/Bulkfree/Tests.antt =====
-- Runs of a bulkfree pass on one segment.
use linux_hammer.Base.{
  ℕ, zero, suc, sym, ap, ◌∙◌, get_elem?, ◌+◌, ◌*◌, ◌≤◌, ◌≡◌, refl, inl, inr, true, false, none,
  some, [], ◌∷◌, arith,
}
use mathlib.Core.Option.{some-injective, none-ne-some}
use linux_hammer.Freemap.Bitmap.{any_set}
use linux_hammer.Freemap.Bmap.{hammer2_bmap_alloc}
use linux_hammer.Freemap.Bmap.Fitted.{covers}
use linux_hammer.Freemap.Bmap.Overlap.{starts}
use linux_hammer.Bulkfree.Gather.{gather, Uses}
use linux_hammer.Bulkfree.Sync.{
  SyncCounts, Merge, h2_bulkfree_sync_adjust, set_linear, last_word, merged, merge_words, merge_one,
  same_word, merge_word, merge_block,
}
use linux_hammer.Bulkfree.Scan.{use_segment, mark_used}
use linux_hammer.Bulkfree.Sync.Bits.{low_bit, high_bit, sync_adjust_bits}
use linux_hammer.Bulkfree.Safety.{IsApart, alloc_after_bulkfree}

abbrev no_counts : SyncCounts
no_counts = record {
  adj_free = 0;
  count_10_00 = 0;
  count_11_10 = 0;
  count_00_11 = 0;
  count_01_11 = 0;
  count_10_11 = 0;
  count_l0cleans = 0;
  count_linadjusts = 0;
  calls = [];
}

-- A live segment with everything allocated.
abbrev full_merge : Merge
full_merge = record {
  live = record { linear = 4194304; class = 528; avail = 0; bitmapq = λ i j. true };
  counts = no_counts;
}

-- One that has lost all.
abbrev empty_merge : Merge
empty_merge = record {
  live = record { linear = 0; class = 528; avail = 4194304; bitmapq = λ i j. false };
  counts = no_counts;
}

-- 1 KB of an inode, and 64 KB of data.
abbrev two_uses : Uses
two_uses = (528, 16384, 1024) ∷ (784, 65536, 65536) ∷ []

sync_adjust_bits_example :
    ((h2_bulkfree_sync_adjust 0 (gather two_uses) full_merge).live.bitmapq 1 (2 * 3)
      ≡ low_bit true true ((gather two_uses).bitmapq 1 7) ((gather two_uses).bitmapq 1 6))
    × ((h2_bulkfree_sync_adjust 0 (gather two_uses) full_merge).live.bitmapq 1 (2 * 3 + 1)
        ≡ high_bit true true ((gather two_uses).bitmapq 1 7) ((gather two_uses).bitmapq 1 6))
sync_adjust_bits_example =
    sync_adjust_bits 0 (gather two_uses) full_merge 1 3 (omega arith) (omega arith)

the_use :
    (n o s : ℕ)
    → get_elem? {A = ℕ × ℕ} ((16384, 1024) ∷ []) n ≡ some (o, s)
    → (o ≡ 16384) × (s ≡ 1024)
the_use zero o s at =
    let e = some-injective (16384, 1024) (o, s) at in (ap (λ x. x.0) (sym e), ap (λ x. x.1) (sym e))
the_use (suc n) o s at = absurd (none-ne-some (o, s) at)

-- The one of them that is a part of a block.
abbrev one_use : Uses
one_use = (528, 16384, 1024) ∷ []

one_use-IsApart : IsApart ((16384, 1024) ∷ [])
one_use-IsApart o s o' s' (n, at) (n', at') =
    let (eo, es) = the_use n o s at in
    let (eo', es') = the_use n' o' s' at' in inl (eo ∙ sym eo', es ∙ sym es')

alloc_after_bulkfree_example : (0 + 1024 ≤ 4194304) × (covers ((16384, 1024) ∷ []) 5 ≡ false)
unfolding hammer2_bmap_alloc h2_bulkfree_sync_adjust any_set gather set_linear last_word merged
    merge_words merge_one same_word use_segment mark_used merge_word merge_block
alloc_after_bulkfree_example =
    alloc_after_bulkfree one_use empty_merge 0 1073741824
      ((omega arith, omega arith, inr (omega arith, λ e. absurd (omega arith))), tt) one_use-IsApart
      (omega arith) starts 528 0 10 (omega arith) (omega arith) {at = 1073741824} {bgsize = 16384}
      {fresh = none} refl 5 (omega arith) (omega arith)
