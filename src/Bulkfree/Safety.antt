-- ===== src/Bulkfree/Safety.antt =====
-- A bulk free pass and the allocator together: what the pass saw in use is not given out again.
use linux_hammer.Base.{
  ℕ, ◌+◌, ◌-◌, ◌*◌, ◌/◌, ◌%◌, ◌^◌, ◌≤◌, ◌<◌, ◌≡◌, ◌≢◌, refl, ◌⊎◌, inl, inr, ◌∙◌, true, false, ◌&&◌,
  ◌==◌, ltb, Option, none, some, arith, Bool-cases,
}
use linux_hammer.Freemap.Bitmap.{bit_of}
use linux_hammer.Freemap.Bmap.{Bmap, ok, segsize, block_size, hammer2_bmap_alloc}
use linux_hammer.Freemap.Bmap.Fitted.{Ranges, covers, in_tail, IsFitted}
use linux_hammer.Freemap.Bmap.Overlap.{Allocates, alloc_apart_from}
use linux_hammer.Bulkfree.Sync.{Merge, merged, last_word, set_linear, h2_bulkfree_sync_adjust}
use linux_hammer.Bulkfree.Sync.Bits.{sync_bit, new_bit, low_bit}
use linux_hammer.Bulkfree.Gather.{
  In, BothSet, IsGathered, covers-In, Uses, ranges, gather, AllShaped, gather-IsGathered,
}

-- Two ranges of the list are the same, or do not overlap.
abbrev pub IsApart : Ranges → Type 0
IsApart used =
    (o s o' s' : ℕ)
    → In used o s
    → In used o' s'
    → ((o ≡ o') × (s ≡ s')) ⊎ (o + s ≤ o') ⊎ (o' + s' ≤ o)

-- What the merge sets the iterator to: the start of a block, or the gathered one.
set_linear_lem :
    (bmap : Bmap) (n : Option ℕ) (m : Merge)
    → ((set_linear bmap n m).live.linear % 16384 ≡ 0)
      ⊎ ((set_linear bmap n m).live.linear ≡ bmap.linear)
unfolding set_linear
set_linear_lem bmap none m = inl refl
set_linear_lem bmap (some n) m = elim (Bool-cases (ltb n 7)) [
  | inr full ↦ rw full (inl refl)
  | inl early ↦
      elim (Bool-cases
        (ltb m.live.linear bmap.linear && m.live.linear / block_size == bmap.linear / block_size)) [
          | inl near ↦ rw early (rw near (inr refl))
          | inr far ↦ rw early (rw far (inl (omega arith)))
        ]
]

sync_linear :
    (off : ℕ) (bmap : Bmap) (m : Merge)
    → ((h2_bulkfree_sync_adjust off bmap m).live.linear % 16384 ≡ 0)
      ⊎ ((h2_bulkfree_sync_adjust off bmap m).live.linear ≡ bmap.linear)
unfolding h2_bulkfree_sync_adjust
sync_linear off bmap m =
    set_linear_lem bmap (last_word (merged off bmap m).live.bitmapq 8) (merged off bmap m)

-- A block that was scanned is allocated after the merge, whatever it was.
sync_set :
    (off : ℕ) (bmap : Bmap) (m : Merge) (x : ℕ)
    → x < segsize
    → BothSet bmap.bitmapq x
    → bit_of (h2_bulkfree_sync_adjust off bmap m).live.bitmapq x ≡ true
unfolding new_bit low_bit
sync_set off bmap m x lt (low, high) =
    let i : ℕ = x / 524288 in
    let j : ℕ = x / 16384 % 32 * 2 in
    let even : j / 2 * 2 ≡ j = omega arith in
    let set : new_bit (m.live.bitmapq i) (bmap.bitmapq i) j ≡ true =
      rw even (ground (arith, low, high)) in
    sync_bit off bmap m i j (omega arith) (omega arith) ∙ set

module _ (off : ℕ) (bmap : Bmap) (m : Merge) (used : Ranges) (g : IsGathered bmap used) where
  scanned_set :
      (x : ℕ)
      → covers used x ≡ true
      → bit_of (h2_bulkfree_sync_adjust off bmap m).live.bitmapq x ≡ true
  scanned_set x c =
      let (o, s, at, low, high) = covers-In used x c in
      let (some_bytes, room, shape) = g.shaped o s at in
      sync_set off bmap m x (omega arith) (g.marked o s x at low high)

  -- A byte that the iterator has still to give out is in the block of the last part that was scanned.
  in_last :
      (x : ℕ)
      → in_tail (h2_bulkfree_sync_adjust off bmap m).live.linear x ≡ true
      → (bmap.linear % 16384 ≢ 0) × (bmap.linear ≤ x) × (x / 16384 ≡ bmap.linear / 16384)
  in_last x t = elim (sync_linear off bmap m) [
    | inl start ↦ absurd (ground (arith, t, start))
    | inr same ↦
        let t' : in_tail bmap.linear x ≡ true = rw same at t in
        (ground (arith, t'), ground (arith, t'), ground (arith, t'))
  ]

  pub sync-IsFitted :
      IsApart used
      → IsFitted
          (h2_bulkfree_sync_adjust off bmap m).live.bitmapq
          (h2_bulkfree_sync_adjust off bmap m).live.linear
          used
  sync-IsFitted apart = record {
    marked = scanned_set;
    tail_marked = λ x t.
        let (odd, reach, same) = in_last x t in
        let (o, s, at, part, end) = g.last odd in
        let (some_bytes, room, shape) = g.shaped o s at in
        let y : ℕ = bmap.linear - 1 in
        let block : x / 16384 ≡ y / 16384 = omega arith in
        let word : x / 524288 ≡ y / 524288 = omega arith in
        let set = g.marked o s y at (omega arith) (omega arith) in
        let set_x : BothSet bmap.bitmapq x = rw word (rw block set) in
        sync_set off bmap m x (omega arith) set_x;
    tail_unused = λ x t.
        let (odd, reach, same) = in_last x t in
        let (o, s, at, (within, part), end) = g.last odd in
        let (some_bytes, room, shape) = g.shaped o s at in
        elim (Bool-cases (covers used x)) [
          | inr unused ↦ unused
          | inl c ↦
              let (o', s', at', low, high) = covers-In used x c in
              let (some_bytes', room', shape') = g.shaped o' s' at' in
              elim shape' [
                | inr (within', part') ↦ let r = g.ends o' s' at' part' in absurd (omega arith)
                | inl (start, size) ↦ elim (apart o s o' s' at at') [
                  | inl (eo, es) ↦ absurd (omega arith)
                  | inr (inl below) ↦ absurd (omega arith)
                  | inr (inr above) ↦ absurd (omega arith)
                ]
              ]
        ];
  }

-- No lost data: after a pass has gathered the references to a segment and is merged into the live one,
-- whatever that was, no allocation from the segment, then or after others, has a byte in common with a
-- reference that the pass gathered. The references are of whole blocks or inside a block, as the
-- allocator gives them, and two of them are the same range or do not overlap.
pub alloc_after_bulkfree :
    (uses : Uses) (m : Merge) (off base : ℕ)
    → AllShaped uses
    → IsApart (ranges uses)
    → base + segsize ≤ 2 ^ 64
    → {b : Bmap} {used : Ranges}
    → Allocates base (h2_bulkfree_sync_adjust off (gather uses) m).live (ranges uses) b used
    → (class sub_key radix : ℕ) → 10 ≤ radix
    → radix ≤ 16
    → {b' : Bmap} {at bgsize : ℕ} {fresh : Option ℕ}
    → hammer2_bmap_alloc b class sub_key radix base ≡ ok b' at bgsize fresh
    → (x : ℕ) → at - base ≤ x
    → x < at - base + 2 ^ radix
    → (at - base + 2 ^ radix ≤ segsize) × (covers used x ≡ false)
alloc_after_bulkfree uses m off base shaped apart room r class sub_key radix low high e x above
      below =
    let g = gather-IsGathered uses shaped in
    let fitted = sync-IsFitted off (gather uses) m (ranges uses) g apart in
    alloc_apart_from room fitted r class sub_key radix low high e x above below
