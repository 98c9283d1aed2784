-- ===== src/Bulkfree/Sync/Bits.antt =====
-- What the merge does to the two bits of each block.
use linux_hammer.Base.{
  ℕ, zero, suc, ◌+◌, ◌*◌, ◌/◌, ◌%◌, ◌≤◌, ◌<◌, ◌≡◌, ◌≢◌, refl, ◌⊎◌, inl, inr, Bool, true, not, ap,
  ◌∙◌, sym, ◌&&◌, ◌==◌, ltb, if◌then◌else◌, Option, none, some, arith, Bool-cases, dec_lt,
  ℕ_discrete,
}
use mathlib.Core.Path.{fun_ext}
use linux_hammer.Freemap.Bitmap.{Bitmap}
use linux_hammer.Freemap.Bmap.{Bmap, block_size}
use linux_hammer.Bulkfree.Sync.{
  Merge, merge_block, merge_word, same_word, merge_one, merge_words, set_linear, merged,
  h2_bulkfree_sync_adjust, last_word,
}

-- The bits of a block afterwards, from its two bits of the live map and of the gathered one: a block that
-- the scan found is allocated, one that it did not find goes from allocated to staged, from staged to free.
unfoldable pub low_bit : Bool → Bool → Bool → Bool → Bool
low_bit high low seen_high seen_low =
    if seen_high && seen_low
    then true
    else (if not seen_high && not seen_low then low && not high else low)

unfoldable pub high_bit : Bool → Bool → Bool → Bool → Bool
high_bit high low seen_high seen_low =
    if seen_high && seen_low
    then true
    else (if not seen_high && not seen_low then high && low else high)

-- Bit `j` of a word afterwards.
unfoldable pub new_bit : (ℕ → Bool) → (ℕ → Bool) → ℕ → Bool
unfolding low_bit high_bit
new_bit l g j =
    let s = j / 2 * 2 in
    if j % 2 == 0
    then low_bit (l (s + 1)) (l s) (g (s + 1)) (g s)
    else high_bit (l (s + 1)) (l s) (g (s + 1)) (g s)

-- One block: its bits if they were those of the word read, and no others.
block_bits :
    (l g : ℕ → Bool) (i s off : ℕ) (m : Merge)
    → s % 2 ≡ 0
    → m.live.bitmapq i s ≡ l s
    → m.live.bitmapq i (s + 1) ≡ l (s + 1)
    → ((merge_block l g i s off m).live.bitmapq i s ≡ new_bit l g s)
      × ((merge_block l g i s off m).live.bitmapq i (s + 1) ≡ new_bit l g (s + 1))
unfolding merge_block new_bit
block_bits l g i s off m even h0 h1 =
    let e0 : s / 2 * 2 ≡ s = omega arith in
    let e1 : (s + 1) / 2 * 2 ≡ s = omega arith in rw e0 (rw e1 (ground arith, ground arith))

block_others :
    (l g : ℕ → Bool) (i s off : ℕ) (m : Merge) (i' j : ℕ)
    → (i' ≢ i) ⊎ (j < s) ⊎ (s + 1 < j)
    → (merge_block l g i s off m).live.bitmapq i' j ≡ m.live.bitmapq i' j
unfolding merge_block
block_others l g i s off m i' j away = ground arith

word_others :
    (l g : ℕ → Bool) (i left s off : ℕ) (m : Merge) (i' j : ℕ)
    → (i' ≢ i) ⊎ (j < s) ⊎ (s + 2 * left ≤ j)
    → (merge_word l g i left s off m).live.bitmapq i' j ≡ m.live.bitmapq i' j
unfolding merge_word
word_others l g i zero s off m i' j away = refl
word_others l g i (suc left) s off m i' j away =
    word_others l g i left (s + 2) (off + block_size) (merge_block l g i s off m) i' j
      (farther away)
    ∙ block_others l g i s off m i' j (nearer away)
  where
    farther :
        (i' ≢ i) ⊎ (j < s) ⊎ (s + 2 * suc left ≤ j)
        → (i' ≢ i) ⊎ (j < s + 2) ⊎ (s + 2 + 2 * left ≤ j)
    farther (inl other) = inl other
    farther (inr (inl below)) = inr (inl (omega arith))
    farther (inr (inr above)) = inr (inr (omega arith))

    nearer : (i' ≢ i) ⊎ (j < s) ⊎ (s + 2 * suc left ≤ j) → (i' ≢ i) ⊎ (j < s) ⊎ (s + 1 < j)
    nearer (inl other) = inl other
    nearer (inr (inl below)) = inr (inl below)
    nearer (inr (inr above)) = inr (inr (omega arith))

word_bits :
    (l g : ℕ → Bool) (i left s off : ℕ) (m : Merge)
    → s % 2 ≡ 0
    → ((j : ℕ) → s ≤ j → m.live.bitmapq i j ≡ l j)
    → (j : ℕ) → s ≤ j
    → j < s + 2 * left
    → (merge_word l g i left s off m).live.bitmapq i j ≡ new_bit l g j
unfolding merge_word
word_bits l g i zero s off m even same j low high = absurd (omega arith)
word_bits l g i (suc left) s off m even same j low high =
    let (b0, b1) =
      block_bits l g i s off m even (same s (omega arith)) (same (s + 1) (omega arith)) in
    elim (dec_lt (s + 1) j) [
      | yes later ↦
          word_bits l g i left (s + 2) (off + block_size) (merge_block l g i s off m) (omega arith)
            (λ k le.
              block_others l g i s off m i k (inr (inr (omega arith))) ∙ same k (omega arith))
            j (omega arith) (omega arith)
      | no now ↦
          word_others l g i left (s + 2) (off + block_size) (merge_block l g i s off m) i j
            (inr (inl (omega arith)))
          ∙ elim (ℕ_discrete j s) [
            | yes first ↦ rw first b0
            | no second ↦ let at : j ≡ s + 1 = omega arith in rw at b1
          ]
    ]

same_word_lem :
    (l g : ℕ → Bool) (left j : ℕ)
    → same_word l g left j ≡ true
    → (k : ℕ) → j ≤ k
    → k < j + left
    → l k ≡ g k
unfolding same_word
same_word_lem l g zero j h k low high = absurd (omega arith)
same_word_lem l g (suc left) j h k low high = elim (dec_lt j k) [
  | yes later ↦ same_word_lem l g left (suc j) (ground (arith, h)) k later (omega arith)
  | no now ↦ let at : k ≡ j = omega arith in rw at (ground (arith, h))
]

-- Nothing changes where the words are the same.
new_bit-same :
    (l g : ℕ → Bool) (j : ℕ) → ((k : ℕ) → k < 64 → l k ≡ g k) → j < 64 → new_bit l g j ≡ l j
unfolding new_bit
new_bit-same l g j same lt = elim (ℕ_discrete (j % 2) 0) [
  | yes even ↦
      let at : j / 2 * 2 ≡ j = omega arith in
      let low = same j lt in
      let high = same (j + 1) (omega arith) in rw at (ground (arith, even, low, high))
  | no odd ↦
      let at : j / 2 * 2 + 1 ≡ j = omega arith in
      let low = same (j / 2 * 2) (omega arith) in
      let high = same j lt in rw at (ground (arith, odd, low, high))
]

one_others :
    (g : Bitmap) (i off : ℕ) (m : Merge) (i' j : ℕ)
    → i' ≢ i
    → (merge_one g i off m).live.bitmapq i' j ≡ m.live.bitmapq i' j
unfolding merge_one
one_others g i off m i' j other = elim (Bool-cases (same_word (m.live.bitmapq i) (g i) 64 0)) [
  | inl same ↦ rw same refl
  | inr differ ↦ rw differ (word_others (m.live.bitmapq i) (g i) i 32 0 off m i' j (inl other))
]

one_bits :
    (g : Bitmap) (i off : ℕ) (m : Merge) (j : ℕ)
    → j < 64
    → (merge_one g i off m).live.bitmapq i j ≡ new_bit (m.live.bitmapq i) (g i) j
unfolding merge_one
one_bits g i off m j lt = elim (Bool-cases (same_word (m.live.bitmapq i) (g i) 64 0)) [
  | inl same ↦ rw same (
      sym (
        new_bit-same (m.live.bitmapq i) (g i) j
          (λ k below.
            same_word_lem (m.live.bitmapq i) (g i) 64 0 same k (omega arith) (omega arith))
          lt))
  | inr differ ↦ rw differ (
      word_bits (m.live.bitmapq i) (g i) i 32 0 off m (omega arith) (λ k le. refl) j (omega arith)
        (omega arith))
]

words_below :
    (g : Bitmap) (left i off : ℕ) (m : Merge) (i' j : ℕ)
    → i' < i
    → (merge_words g left i off m).live.bitmapq i' j ≡ m.live.bitmapq i' j
unfolding merge_words
words_below g zero i off m i' j below = refl
words_below g (suc left) i off m i' j below =
    words_below g left (suc i) (off + 524288) (merge_one g i off m) i' j (omega arith)
    ∙ one_others g i off m i' j (λ e. absurd (omega arith))

words_bits :
    (g : Bitmap) (left i off : ℕ) (m : Merge) (i' j : ℕ)
    → i ≤ i'
    → i' < i + left
    → j < 64
    → (merge_words g left i off m).live.bitmapq i' j ≡ new_bit (m.live.bitmapq i') (g i') j
unfolding merge_words
words_bits g zero i off m i' j low high lt = absurd (omega arith)
words_bits g (suc left) i off m i' j low high lt = elim (ℕ_discrete i' i) [
  | yes now ↦
      words_below g left (suc i) (off + 524288) (merge_one g i off m) i' j (omega arith)
      ∙ rw now (one_bits g i off m j lt)
  | no later ↦
      words_bits g left (suc i) (off + 524288) (merge_one g i off m) i' j (omega arith)
        (omega arith) lt
      ∙ ap (λ w. new_bit w (g i') j) (fun_ext (λ k. one_others g i off m i' k later))
]

set_linear-bitmapq :
    (bmap : Bmap) (n : Option ℕ) (m : Merge) → (set_linear bmap n m).live.bitmapq ≡ m.live.bitmapq
unfolding set_linear
set_linear-bitmapq bmap none m = refl
set_linear-bitmapq bmap (some n) m = elim (Bool-cases (ltb n 7)) [
  | inl early ↦ rw early refl
  | inr full ↦ rw full refl
]

pub sync_bit :
    (off : ℕ) (bmap : Bmap) (m : Merge) (i j : ℕ)
    → i < 8
    → j < 64
    → (h2_bulkfree_sync_adjust off bmap m).live.bitmapq i j
      ≡ new_bit (m.live.bitmapq i) (bmap.bitmapq i) j
unfolding h2_bulkfree_sync_adjust merged
sync_bit off bmap m i j below lt =
    ap (λ q. q i j)
      (set_linear-bitmapq bmap (last_word (merged off bmap m).live.bitmapq 8) (merged off bmap m))
    ∙ words_bits bmap.bitmapq 8 0 off m i j (omega arith) (omega arith) lt

-- The merge as a table, for each of the 256 blocks of a segment. A block that the scan found (11) is
-- allocated. One that it did not find (00) goes from allocated (11) to staged (10), and from staged to
-- free, so that it takes two passes to free a block; free blocks stay free. Any other bits of the scan
-- change nothing.
pub sync_adjust_bits :
    (off : ℕ) (bmap : Bmap) (m : Merge) (i k : ℕ)
    → i < 8
    → k < 32
    → ((h2_bulkfree_sync_adjust off bmap m).live.bitmapq i (2 * k)
        ≡ low_bit
            (m.live.bitmapq i (2 * k + 1))
            (m.live.bitmapq i (2 * k))
            (bmap.bitmapq i (2 * k + 1))
            (bmap.bitmapq i (2 * k)))
      × ((h2_bulkfree_sync_adjust off bmap m).live.bitmapq i (2 * k + 1)
          ≡ high_bit
              (m.live.bitmapq i (2 * k + 1))
              (m.live.bitmapq i (2 * k))
              (bmap.bitmapq i (2 * k + 1))
              (bmap.bitmapq i (2 * k)))
unfolding new_bit
sync_adjust_bits off bmap m i k below lt =
    let l = m.live.bitmapq i in
    let g = bmap.bitmapq i in
    let even : 2 * k / 2 * 2 ≡ 2 * k = omega arith in
    let odd : (2 * k + 1) / 2 * 2 ≡ 2 * k = omega arith in
    let low : new_bit l g (2 * k)
        ≡ low_bit (l (2 * k + 1)) (l (2 * k)) (g (2 * k + 1)) (g (2 * k)) =
      rw even (ground arith) in
    let high : new_bit l g (2 * k + 1)
        ≡ high_bit (l (2 * k + 1)) (l (2 * k)) (g (2 * k + 1)) (g (2 * k)) =
      rw odd (ground arith) in
    (
      sync_bit off bmap m i (2 * k) below (omega arith) ∙ low,
      sync_bit off bmap m i (2 * k + 1) below (omega arith) ∙ high,
    )
