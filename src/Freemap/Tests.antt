-- ===== src/Freemap/Tests.antt =====
-- Runs of the freemap's functions, and its theorems at concrete values.
use linux_hammer.Base.{
  ℕ, zero, suc, ◌+◌, ◌*◌, ◌≤◌, ◌≡◌, refl, true, false, none, some, List, [], ◌∷◌, arith,
}
use linux_hammer.Freemap.Bitmap.{mark, bit_of, any_set}
use linux_hammer.Freemap.Bmap.{Bmap, uses_linear, hammer2_bmap_alloc}
use linux_hammer.Freemap.Bmap.Fitted.{covers}
use linux_hammer.Freemap.Bmap.Overlap.{Allocates, starts, allocates, alloc_apart}
use linux_hammer.Freemap.Bmap.Account.{enospc-IsFull}
use linux_hammer.Freemap.Reserve.{ok, hammer2_freemap_reserve, place, reserve_rotates, fm_base}
use linux_hammer.Freemap.Iterate.{Fiterate, left_to_try}
use linux_hammer.Freemap.Leaf.{hammer2_freemap_init, init_permits}
use linux_hammer.Freemap.Adjust.{adjust_segment, mark_block}
use linux_hammer.Freemap.Adjust.Recovery.{adjust_marks, adjust_misses_upper_half}

-- A segment with nothing allocated.
abbrev fresh_segment : Bmap
fresh_segment = record { linear = 0; class = 0; avail = 4194304; bitmapq = λ i j. false }

-- A segment with nothing free.
abbrev full_segment : Bmap
full_segment = record { linear = 4194304; class = 528; avail = 0; bitmapq = λ i j. true }

-- The first after 1KB is taken from it.
abbrev used_segment : Bmap
used_segment = record {
  linear = 1024;
  class = 528;
  avail = 4177920;
  bitmapq = mark (λ i j. false) 0 0 2;
}

one_allocation : Allocates 1073741824 fresh_segment [] used_segment ((0, 1024) ∷ [])
unfolding hammer2_bmap_alloc any_set
one_allocation =
    allocates starts 528 0 10 (omega arith) (omega arith) {bgsize = 16384} {fresh = some 1073741840}
      refl

alloc_apart_example : (1024 + 1024 ≤ 4194304) × (covers ((0, 1024) ∷ []) 1029 ≡ false)
unfolding hammer2_bmap_alloc any_set
alloc_apart_example =
    alloc_apart (omega arith) (omega arith) one_allocation 528 0 10 (omega arith) (omega arith)
      {at = 1073742848} {bgsize = 0} {fresh = none} refl 1029 (omega arith) (omega arith)

enospc-IsFull_example :
    (uses_linear full_segment 1024 ≡ false) × (any_set (λ i j. true) 3 (5 * 2) 2 ≡ true)
unfolding hammer2_bmap_alloc any_set
enospc-IsFull_example =
    enospc-IsFull full_segment 528 0 10 1073741824 (omega arith) (omega arith) refl 3 5
      (omega arith) (omega arith)

reserve_rotates_example :
    (hammer2_freemap_reserve 0 5368709120 30 6 15 ≡ ok (place 5368709120 30 0 0 + 15))
    × (hammer2_freemap_reserve (place 5368709120 30 0 7 + 15) 5368709120 30 6 15
        ≡ ok (place 5368709120 30 0 0 + 15))
    × (fm_base 5368709120 30 + 65536 ≤ place 5368709120 30 0 7)
    × (place 5368709120 30 0 7 + 32768 ≤ fm_base 5368709120 30 + 41 * 65536)
reserve_rotates_example = reserve_rotates 5368709120 0 7 (omega arith) (omega arith)

-- The search of a volume of 3GB from its second leaf on.
abbrev second_leaf : Fiterate
second_leaf = record { bpref = 1073741824; bnext = 1073741824; loops = 0; relaxed = false }

-- Three leaves, three times over, less the one it began after.
second_leaf_left : left_to_try 3221225472 second_leaf ≡ 8
unfolding left_to_try
second_leaf_left = refl

-- The first leaf, with 8MB taken by newfs, and its third segment.
init_permits_example :
    (8388608 ≤ 0 + 2 * 4194304)
    × (0 + 4194304 ≤ 0 + 2 * 4194304)
    × (0 + 2 * 4194304 + 4194304 ≤ 1073741824)
    × (fresh_segment.avail ≡ 4194304)
unfolding hammer2_freemap_init
init_permits_example =
    init_permits 8388608 1073741824 0 (omega arith) (omega arith) refl
      (fresh_segment ∷ fresh_segment ∷ fresh_segment ∷ []) 2
      {b = record { linear = 0; class = 0; avail = 4194304; bitmapq = λ i j. false }} refl 0 0 refl

abbrev segments : ℕ → List Bmap
segments zero = []
segments (suc n) = fresh_segment ∷ segments n

adjust_marks_example : bit_of (mark (λ i j. false) 0 2 2) 16384 ≡ true
unfolding adjust_segment mark_block
adjust_marks_example =
    adjust_marks 0 3 (1073741824 + 16384 + 14) fresh_segment (omega arith) (omega arith)
      (omega arith) (omega arith)
      {b' = record {
        linear = 0;
        class = 784;
        avail = 4177920;
        bitmapq = mark (λ i j. false) 0 2 2;
      }}
      {modified = true} {bgsize = 16384} refl 16384 (omega arith) (omega arith)

-- The block at 256KB: it stays free, and the one at 0 is marked.
adjust_misses_upper_half_example : bit_of (mark (λ i j. false) 0 0 2) 262144 ≡ false
unfolding adjust_segment mark_block
adjust_misses_upper_half_example =
    adjust_misses_upper_half 0 3 (1073741824 + 262144 + 14) fresh_segment (omega arith)
      (omega arith)
      {b' = record {
        linear = 0;
        class = 784;
        avail = 4177920;
        bitmapq = mark (λ i j. false) 0 0 2;
      }}
      {modified = true} {bgsize = 16384} refl
