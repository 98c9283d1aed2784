-- ===== src/Bulkfree/Sync.antt =====
-- `h2_bulkfree_sync_adjust`: the merge of a gathered segment into the live one.
use linux_hammer.Base.{
  ℕ, zero, suc, ◌+◌, ◌-◌, ◌*◌, ◌/◌, ◌%◌, ◌^◌, Bool, true, false, not, ◌&&◌, ◌||◌, ◌==◌, ltb, leb,
  if◌then◌else◌, List, [], ◌∷◌, Option, none, some,
}
use linux_hammer.Freemap.Bitmap.{Bitmap, any_set}
use linux_hammer.Freemap.Bmap.{Bmap, segsize, block_size}
pub mod Bits

-- The calls of the dedup code of hammer2_io.c.
pub data Dedup : Type 0 where
  dedup_assert : ℕ → Dedup
  dedup_delete : ℕ → Dedup

-- The counters of `cbinfo`, and the calls of the dedup code, the latest first.
pub record SyncCounts : Type 0 where
  pub adj_free : ℕ
  pub count_10_00 : ℕ
  pub count_11_10 : ℕ
  pub count_00_11 : ℕ
  pub count_01_11 : ℕ
  pub count_10_11 : ℕ
  pub count_l0cleans : ℕ
  pub count_linadjusts : ℕ
  pub calls : List Dedup

pub record Merge : Type 0 where
  pub live : Bmap
  pub counts : SyncCounts

abbrev pub write_bit : Bitmap → ℕ → ℕ → Bool → Bitmap
write_bit q i j v i' j' = if i == i' && j == j' then v else q i' j'

abbrev grow_avail : ℕ → ℕ
grow_avail avail =
    let more = (avail + block_size) % 2 ^ 32 in if ltb segsize more then segsize else more

-- `if ((int32_t)live->avail < 0) live->avail = 0;`
abbrev lose_avail : ℕ → ℕ
lose_avail avail =
    let less = (avail + 2 ^ 32 - block_size) % 2 ^ 32 in if leb (2 ^ 31) less then 0 else less

-- `mmask & 3` is 0; the two bits of `lmask` come first.
unfoldable pub drop_block : Bool → Bool → ℕ → ℕ → ℕ → Merge → Merge
drop_block false low i s off m = m
drop_block true false i s off m = record {
  live = record m.live {
    bitmapq = write_bit m.live.bitmapq i (s + 1) false;
    avail = grow_avail m.live.avail;
  };
  counts = record m.counts {
    adj_free = (m.counts.adj_free + block_size) % 2 ^ 64;
    count_10_00 = m.counts.count_10_00 + 1;
    calls = dedup_assert (off + 14) ∷ m.counts.calls;
  };
}
drop_block true true i s off m = record {
  live = record m.live { bitmapq = write_bit m.live.bitmapq i s false };
  counts = record m.counts {
    count_11_10 = m.counts.count_11_10 + 1;
    calls = dedup_delete (off + 14) ∷ m.counts.calls;
  };
}

-- `live->bitmapq[bindex] |= 3 << scount`
abbrev set_both : ℕ → ℕ → Bmap → Bmap
set_both i s b = record b { bitmapq = write_bit (write_bit b.bitmapq i s true) i (s + 1) true }

-- `mmask & 3` is 3.
unfoldable pub keep_block : Bool → Bool → ℕ → ℕ → Merge → Merge
keep_block false false i s m = record {
  live = set_both i s (record m.live { avail = lose_avail m.live.avail });
  counts = record m.counts {
    adj_free = (m.counts.adj_free + 2 ^ 64 - block_size) % 2 ^ 64;
    count_00_11 = m.counts.count_00_11 + 1;
  };
}
keep_block false true i s m = record {
  live = set_both i s m.live;
  counts = record m.counts { count_01_11 = m.counts.count_01_11 + 1 };
}
keep_block true false i s m = record {
  live = set_both i s m.live;
  counts = record m.counts { count_10_11 = m.counts.count_10_11 + 1 };
}
keep_block true true i s m = record m { live = set_both i s m.live }

-- One turn of the inner loop. `l` is the word `lmask` as it was read, `g` the word `mmask`.
unfoldable pub merge_block : (ℕ → Bool) → (ℕ → Bool) → ℕ → ℕ → ℕ → Merge → Merge
unfolding drop_block keep_block
merge_block l g i s off m =
    if not (g s) && not (g (s + 1))
    then drop_block (l (s + 1)) (l s) i s off m
    else (if g s && g (s + 1) then keep_block (l (s + 1)) (l s) i s m else m)

-- `left` blocks of the word from bit `s` on.
unfoldable pub merge_word : (ℕ → Bool) → (ℕ → Bool) → ℕ → ℕ → ℕ → ℕ → Merge → Merge
merge_word l g i zero s off m = m
merge_word l g i (suc left) s off m =
    merge_word l g i left (s + 2) (off + block_size) (merge_block l g i s off m)

-- `lmask == mmask`, for `left` bits from `j` on.
unfoldable pub same_word : (ℕ → Bool) → (ℕ → Bool) → ℕ → ℕ → Bool
same_word l g zero j = true
same_word l g (suc left) j = (if l j then g j else not (g j)) && same_word l g left (suc j)

-- One turn of the outer loop.
unfoldable pub merge_one : Bitmap → ℕ → ℕ → Merge → Merge
merge_one g i off m =
    if same_word (m.live.bitmapq i) (g i) 64 0
    then m
    else merge_word (m.live.bitmapq i) (g i) i 32 0 off m

-- `left` words to go.
unfoldable pub merge_words : Bitmap → ℕ → ℕ → ℕ → Merge → Merge
merge_words g zero i off m = m
merge_words g (suc left) i off m = merge_words g left (suc i) (off + 524288) (merge_one g i off m)

-- The last word that is not 0, of those before `n`.
unfoldable pub last_word : Bitmap → ℕ → Option ℕ
last_word q zero = none
last_word q (suc n) = if any_set q n 0 64 then some n else last_word q n

-- `bmap` is the gathered segment.
unfoldable pub set_linear : Bmap → Option ℕ → Merge → Merge
set_linear bmap none m = record {
  live = record m.live { avail = segsize; class = 0; linear = 0 };
  counts = record m.counts { count_l0cleans = m.counts.count_l0cleans + 1 };
}
set_linear bmap (some n) m =
    if ltb n 7
    then record {
      live = record m.live {
        linear =
            if ltb m.live.linear bmap.linear
              && m.live.linear / block_size == bmap.linear / block_size
            then bmap.linear
            else (bmap.linear + (block_size - 1)) / block_size * block_size;
      };
      counts = record m.counts { count_linadjusts = m.counts.count_linadjusts + 1 };
    }
    else record m { live = record m.live { linear = segsize } }

unfoldable pub merged : ℕ → Bmap → Merge → Merge
merged off bmap m = merge_words bmap.bitmapq 8 0 off m

unfoldable pub h2_bulkfree_sync_adjust : ℕ → Bmap → Merge → Merge
h2_bulkfree_sync_adjust off bmap m =
    set_linear bmap (last_word (merged off bmap m).live.bitmapq 8) (merged off bmap m)
