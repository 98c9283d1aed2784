-- ===== src/Freemap/Leaf.antt =====
-- `hammer2_freemap_init`: which segments of a new leaf are free, and how many bytes it has.
use linux_hammer.Base.{
  ℕ, zero, suc, ◌+◌, ◌-◌, ◌*◌, ◌/◌, ◌%◌, ◌^◌, ◌≤◌, ◌<◌, ◌≡◌, ◌∙◌, refl, inl, inr, true, false, ◌||◌,
  ltb, leb, if◌then◌else◌, List, [], ◌∷◌, length, get_elem?, some, subst, arith, Bool-cases,
}
use linux_hammer.Freemap.Bmap.{Bmap, segsize}
use linux_hammer.Freemap.Iterate.{level1_size}

-- The bytes from `lokey` up to `hikey` are what the leaf may give out.
unfoldable pub lokey_of : ℕ → ℕ → ℕ
lokey_of allocator_beg key =
    let above = (allocator_beg + (segsize - 1)) % 2 ^ 64 / segsize * segsize in
    let base = key / level1_size * level1_size in
    let lokey = if ltb above base then base else above in
    if ltb lokey (base + segsize) then base + segsize else lokey

unfoldable pub hikey_of : ℕ → ℕ → ℕ
hikey_of total_size key =
    let hikey = (key + level1_size) % 2 ^ 64 in
    if ltb total_size hikey then total_size / segsize * segsize else hikey

unfoldable pub init_segment : ℕ → ℕ → ℕ → Bmap → Bmap
init_segment lokey hikey key b =
    if ltb key lokey || leb hikey key
    then record b { bitmapq = λ i j. true; avail = 0; linear = segsize }
    else record b { avail = segsize }

-- The loop over the segments, with `bref.check.freemap.avail`.
unfoldable pub init_segments : ℕ → ℕ → ℕ → ℕ → List Bmap → List Bmap × ℕ
init_segments lokey hikey key avail [] = ([], avail)
init_segments lokey hikey key avail (b ∷ rest) =
    let left = if ltb key lokey || leb hikey key then avail - segsize else avail in
    let (done, total) = init_segments lokey hikey (key + segsize) left rest in
    (init_segment lokey hikey key b ∷ done, total)

-- `bmdata[]` and the available bytes of the leaf.
unfoldable pub hammer2_freemap_init : ℕ → ℕ → ℕ → List Bmap → List Bmap × ℕ
unfolding init_segments init_segment lokey_of hikey_of
hammer2_freemap_init allocator_beg total_size key bmdata =
    init_segments (lokey_of allocator_beg key) (hikey_of total_size key) key level1_size bmdata

unfoldable pub avail_sum : List Bmap → ℕ
avail_sum [] = 0
avail_sum (b ∷ rest) = b.avail + avail_sum rest

-- Each segment of the list, with the key of its first byte, has the property.
unfoldable pub Each : (ℕ → Bmap → Type 0) → ℕ → List Bmap → Type 0
Each P key [] = Unit
Each P key (b ∷ rest) = P key b × Each P (key + segsize) rest

-- A segment that has anything free is all free, and is of the part of the volume that may be given out:
-- past the static area, past the reserved segment of its 1GB, and inside the volume.
abbrev pub IsPermitted : ℕ → ℕ → ℕ → ℕ → Bmap → Type 0
IsPermitted allocator_beg total_size leaf key b =
    (i j : ℕ)
    → b.bitmapq i j ≡ false
    → (allocator_beg ≤ key)
      × (leaf + segsize ≤ key)
      × (key + segsize ≤ total_size)
      × (b.avail ≡ segsize)

module _ (lokey hikey : ℕ) where
  segments_avail :
      (bs : List Bmap) (key avail : ℕ)
      → length bs * segsize ≤ avail
      → (init_segments lokey hikey key avail bs).1
        ≡ avail - length bs * segsize + avail_sum ((init_segments lokey hikey key avail bs).0)
  unfolding init_segments init_segment avail_sum
  segments_avail [] key avail room = ground arith
  segments_avail (b ∷ rest) key avail room = elim (Bool-cases (ltb key lokey || leb hikey key)) [
    | inl out ↦
        let ih = segments_avail rest (key + segsize) (avail - segsize) (omega arith) in
        rw out (omega (arith, ih))
    | inr in' ↦
        let ih = segments_avail rest (key + segsize) avail (omega arith) in
        rw in' (omega (arith, ih))
  ]

  segments-IsPermitted :
      (beg total leaf : ℕ)
      → beg ≤ lokey
      → leaf + segsize ≤ lokey
      → hikey ≤ total
      → hikey % segsize ≡ 0
      → (bs : List Bmap) (key avail : ℕ) → key % segsize ≡ 0
      → Each (IsPermitted beg total leaf) key ((init_segments lokey hikey key avail bs).0)
  unfolding init_segments init_segment Each
  segments-IsPermitted beg total leaf low1 low2 high whole [] key avail at = tt
  segments-IsPermitted beg total leaf low1 low2 high whole (b ∷ rest) key avail at =
      elim (Bool-cases (ltb key lokey || leb hikey key)) [
        | inl out ↦
            let ih =
              segments-IsPermitted beg total leaf low1 low2 high whole rest (key + segsize)
                (avail - segsize) (omega arith) in
            rw out ((λ i j e. cc), ih)
        | inr in' ↦
            let ih =
              segments-IsPermitted beg total leaf low1 low2 high whole rest (key + segsize) avail
                (omega arith) in
            let inside : (lokey ≤ key) × (key < hikey) = ground (arith, in') in
            rw in' ((λ i j e. (omega arith, omega arith, omega arith, refl)), ih)
      ]

each-get_elem :
    (P : ℕ → Bmap → Type 0) (key : ℕ) (bs : List Bmap) (n : ℕ) {b : Bmap}
    → Each P key bs
    → get_elem? bs n ≡ some b
    → P (key + n * segsize) b
unfolding Each
each-get_elem P key [] n h e = cc
each-get_elem P key (c ∷ rest) zero {b} h e =
    let here : key + zero * segsize ≡ key = omega arith in
    let same : c ≡ b = cc in rw here (subst (P key) same (h.0))
each-get_elem P key (c ∷ rest) (suc n) h e =
    let there : key + suc n * segsize ≡ key + segsize + n * segsize = omega arith in
    rw there (each-get_elem P (key + segsize) rest n (h.1) e)

-- In a new leaf, a segment with a bit clear is past the area that newfs allocated, past the reserved
-- segment that the leaf's 1GB begins with, and wholly inside the volume, and all its bytes are counted
-- available. The leaf is at a multiple of 1GB, and it and the allocated area are at least 1GB below 2^64.
pub init_permits :
    (allocator_beg total_size leaf : ℕ)
    → allocator_beg + level1_size ≤ 2 ^ 64
    → leaf + level1_size < 2 ^ 64
    → leaf % level1_size ≡ 0
    → (bmdata : List Bmap) (n : ℕ) {b : Bmap}
    → get_elem? ((hammer2_freemap_init allocator_beg total_size leaf bmdata).0) n ≡ some b
    → (i j : ℕ) → b.bitmapq i j ≡ false
    → (allocator_beg ≤ leaf + n * segsize)
      × (leaf + segsize ≤ leaf + n * segsize)
      × (leaf + n * segsize + segsize ≤ total_size)
      × (b.avail ≡ segsize)
unfolding hammer2_freemap_init lokey_of hikey_of
init_permits beg total leaf few low at bmdata n e =
    each-get_elem (IsPermitted beg total leaf) leaf ((hammer2_freemap_init beg total leaf bmdata).0)
      n
      (segments-IsPermitted (lokey_of beg leaf) (hikey_of total leaf) beg total leaf (ground arith)
        (ground arith) (ground arith) (ground arith) bmdata leaf level1_size (omega arith))
      e

-- The leaf's available bytes are those of its 256 segments.
init_avail :
    (allocator_beg total_size leaf : ℕ) (bmdata : List Bmap)
    → length bmdata ≡ 256
    → (hammer2_freemap_init allocator_beg total_size leaf bmdata).1
      ≡ avail_sum ((hammer2_freemap_init allocator_beg total_size leaf bmdata).0)
unfolding hammer2_freemap_init
init_avail beg total leaf bmdata all =
    segments_avail (lokey_of beg leaf) (hikey_of total leaf) bmdata leaf level1_size (omega arith)
    ∙ (omega (arith, all))
