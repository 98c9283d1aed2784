-- ===== src/Freemap/Bmap/Overlap.antt =====
-- Allocations of one segment never overlap: the byte ranges that `hammer2_bmap_alloc` hands out, one
-- call after the other, with the linear iterator packing the small ones into a shared block.
use linux_hammer.Base.{
  ℕ, ◌+◌, ◌-◌, ◌*◌, ◌/◌, ◌%◌, ◌^◌, ◌≤◌, ◌<◌, ◌≡◌, refl, inl, inr, true, false, ◌&&◌, ◌==◌, ltb, leb,
  Option, [], ◌∷◌, arith, Bool-cases, Option-cases, subst,
}
use linux_hammer.Freemap.Bitmap.{any_set, mark}
use linux_hammer.Freemap.Bmap.{
  Bmap, Alloc, ok, enospc, asserted, scan, bmradix_of, uses_linear, preferred, take, take_found,
  take_scan, search_from, take_linear, hammer2_bmap_alloc, segsize,
}
use linux_hammer.Freemap.Bmap.Scan.{
  Sizes, Sizes-of, IsFree, scan-some, shapes, bmradix_even, bmradix_divides,
}
use linux_hammer.Freemap.Bmap.Fitted.{
  Ranges, covers, IsFitted, free_unused, whole-IsFitted, part-IsFitted, tail_start, packed-IsFitted,
}

-- A range given out beside those in use, and the segment after it.
pub record IsPlaced (b : Bmap) (used : Ranges) (o size : ℕ) : Type 0 where
  pub fits : o + size ≤ segsize
  pub apart : (x : ℕ) → o ≤ x → x < o + size → covers used x ≡ false
  pub fitted : IsFitted b.bitmapq b.linear ((o, size) ∷ used)

unfoldable pub Safe : Ranges → ℕ → ℕ → Alloc → Type 0
Safe used base size (ok b at bgsize fresh) = IsPlaced b used (at - base) size
Safe used base size enospc = Unit
Safe used base size asserted = Unit

module _ (used : Ranges) (class radix base : ℕ) (room : base + segsize ≤ 2 ^ 64)
    (sizes : Sizes radix) where
  take-Safe :
      (b : Bmap) (i j o : ℕ)
      → o + 2 ^ radix ≤ segsize
      → ((x : ℕ) → o ≤ x → x < o + 2 ^ radix → covers used x ≡ false)
      → IsFitted (mark b.bitmapq i j (bmradix_of radix)) b.linear ((o, 2 ^ radix) ∷ used)
      → Safe used base (2 ^ radix) (take b class radix base (2 ^ radix) i j o)
  unfolding take Safe
  take-Safe b i j o fits apart fitted = elim (Bool-cases (ltb i 8)) [
    | inl below ↦
        let same : (base + o) % 2 ^ 64 - base ≡ o = omega arith in
        rw below (rw same (record { fits = fits; apart = apart; fitted = fitted }))
    | inr beyond ↦ rw beyond tt
  ]

  found_Safe :
      (b : Bmap) (i j : ℕ)
      → IsFitted b.bitmapq b.linear used
      → IsFree b.bitmapq (bmradix_of radix) i j
      → Safe used base (2 ^ radix) (take_found b class radix base (2 ^ radix) (i, j))
  unfolding take_found
  found_Safe b i j h free =
      let below : i < 8 = free.element in
      let inside : j + bmradix_of radix ≤ 64 = free.fits in
      let o : ℕ = i * 524288 + j * 8192 in
      let apart : 2 ^ radix ≤ bmradix_of radix * 8192
          → (x : ℕ) → o ≤ x
          → x < o + 2 ^ radix
          → covers used x ≡ false =
        λ le x low high.
          (free_unused b.bitmapq b.linear used h (bmradix_of radix) i j x free low
            (omega arith)).0 in
      elim (shapes radix sizes) [
        | inl (two, small, part) ↦ rw part (
            take-Safe (record b { linear = o + 2 ^ radix }) i j o (omega arith)
              (apart (omega arith))
              (part-IsFitted b.bitmapq b.linear used h (bmradix_of radix) i j (2 ^ radix) free two
                small))
        | inr (size, whole) ↦ rw whole (
            take-Safe b i j o (omega arith) (apart (omega arith)) (
              whole-IsFitted b.bitmapq b.linear used h (bmradix_of radix) i j (2 ^ radix) free
                size))
      ]

  scan-Safe :
      (b : Bmap)
      → IsFitted b.bitmapq b.linear used
      → Safe used base
          (2 ^ radix)
          (take_scan b class radix base (2 ^ radix) (scan b.bitmapq (bmradix_of radix) 8 0))
  unfolding take_scan Safe
  scan-Safe b h = elim (Option-cases (scan b.bitmapq (bmradix_of radix) 8 0)) [
    | inl nowhere ↦ rw nowhere tt
    | inr ((i, j), at) ↦ rw at (
        found_Safe b i j h (
          scan-some b.bitmapq (bmradix_of radix) (bmradix_even radix sizes)
            (bmradix_divides radix sizes) 8 0 (omega arith) at))
  ]

  search_Safe :
      (b : Bmap) (sub_key : ℕ)
      → IsFitted b.bitmapq b.linear used
      → Safe used base
          (2 ^ radix)
          (search_from b class radix base (2 ^ radix) (preferred class sub_key radix))
  unfolding search_from preferred Safe
  search_Safe b sub_key h =
      let i : ℕ = sub_key % segsize / 524288 in
      let j : ℕ = sub_key % 524288 / 16384 * 2 in
      elim (Bool-cases (class / 2 ^ 8 == 3 && leb 14 radix)) [
        | inr anywhere ↦ rw anywhere (scan-Safe b h)
        | inl keyed ↦ elim (Bool-cases (leb (j + bmradix_of radix) 64)) [
          | inr long ↦ rw keyed (rw long tt)
          | inl short ↦ elim (Bool-cases (any_set b.bitmapq i j (bmradix_of radix))) [
            | inl busy ↦ rw keyed (rw short (rw busy (scan-Safe b h)))
            | inr free ↦ rw keyed (
                rw short (
                  rw free (
                    found_Safe b i j h (record {
                      element = omega arith;
                      even = omega arith;
                      fits = ground (arith, short);
                      clear = free;
                    }))))
          ]
        ]
      ]

  linear_Safe :
      (b : Bmap)
      → IsFitted b.bitmapq b.linear used
      → uses_linear b (2 ^ radix) ≡ true
      → Safe used base (2 ^ radix) (take_linear b class radix base (2 ^ radix))
  unfolding take_linear Safe
  linear_Safe b h packs =
      elim (Bool-cases (leb (b.linear + 2 ^ radix) segsize && b.linear % 1024 == 0)) [
        | inr misaligned ↦ rw misaligned tt
        | inl aligned ↦ rw aligned (
            take-Safe (record b { linear = b.linear + 2 ^ radix }) (b.linear / 524288)
              (b.linear / 8192 % 64 / 2 * 2) b.linear (ground (arith, aligned))
              (λ x low high. h.tail_unused x (tail_start b.linear (2 ^ radix) x packs low high))
              (packed-IsFitted b.bitmapq b.linear used h (b.linear / 524288)
                (b.linear / 8192 % 64 / 2 * 2) (bmradix_of radix) (2 ^ radix) packs))
      ]

  -- The call keeps what the segment has given out apart from what it gives out.
  alloc_Safe :
      (b : Bmap) (sub_key : ℕ)
      → IsFitted b.bitmapq b.linear used
      → Safe used base (2 ^ radix) (hammer2_bmap_alloc b class sub_key radix base)
  unfolding hammer2_bmap_alloc Safe
  alloc_Safe b sub_key h = elim (Bool-cases (uses_linear b (2 ^ radix))) [
    | inl packs ↦ rw packs (linear_Safe b h packs)
    | inr scans ↦ rw scans (search_Safe b sub_key h)
  ]

-- Requests on one segment at `base`, one call after the other, from `first` on, of which the ranges
-- `before` are in use: the segment after them, and the ranges in use, the latest first.
pub data Allocates (base : ℕ) (first : Bmap) (before : Ranges) : Bmap → Ranges → Type 0 where
  starts : Allocates base first before first before
  allocates :
      {b : Bmap} {used : Ranges}
      → Allocates base first before b used
      → (class sub_key radix : ℕ) → 10 ≤ radix
      → radix ≤ 16
      → {b' : Bmap} {at bgsize : ℕ} {fresh : Option ℕ}
      → hammer2_bmap_alloc b class sub_key radix base ≡ ok b' at bgsize fresh
      → Allocates base first before b' ((at - base, 2 ^ radix) ∷ used)

Allocates-IsFitted :
    {base : ℕ} {first : Bmap} {before : Ranges} {b : Bmap} {used : Ranges}
    → base + segsize ≤ 2 ^ 64
    → IsFitted first.bitmapq first.linear before
    → Allocates base first before b used
    → IsFitted b.bitmapq b.linear used
unfolding Safe
Allocates-IsFitted room fitted starts = fitted
Allocates-IsFitted {base} room fitted (allocates {b} {used} r class sub_key radix low high e) =
    let placed =
      alloc_Safe used class radix base room (Sizes-of radix low high) b sub_key
        (Allocates-IsFitted room fitted r) in
    (subst (Safe used base (2 ^ radix)) e placed).fitted

-- An allocation after others is apart from what is in use.
pub alloc_apart_from :
    {base : ℕ} {first : Bmap} {before : Ranges} {b : Bmap} {used : Ranges}
    → base + segsize ≤ 2 ^ 64
    → IsFitted first.bitmapq first.linear before
    → Allocates base first before b used
    → (class sub_key radix : ℕ) → 10 ≤ radix
    → radix ≤ 16
    → {b' : Bmap} {at bgsize : ℕ} {fresh : Option ℕ}
    → hammer2_bmap_alloc b class sub_key radix base ≡ ok b' at bgsize fresh
    → (x : ℕ) → at - base ≤ x
    → x < at - base + 2 ^ radix
    → (at - base + 2 ^ radix ≤ segsize) × (covers used x ≡ false)
unfolding Safe
alloc_apart_from {base} {b = b} {used = used} room fitted r class sub_key radix low high e x above
      below =
    let placed = subst (Safe used base (2 ^ radix)) e (
      alloc_Safe used class radix base room (Sizes-of radix low high) b sub_key
        (Allocates-IsFitted room fitted r)) in
    (placed.fits, placed.apart x above below)

-- A segment of which nothing is in use, its iterator at the start of a block.
fresh-IsFitted : (b : Bmap) → b.linear % 16384 ≡ 0 → IsFitted b.bitmapq b.linear []
unfolding covers
fresh-IsFitted b whole = record {
  marked = λ x c. cc;
  tail_marked = λ x t. ground arith;
  tail_unused = λ x t. refl;
}

-- Whatever was allocated before, from a segment with its iterator at the start of a block, an allocation
-- that succeeds is inside the segment, and has no byte in common with any range that the earlier
-- allocations were given: whether it packs a small request behind the linear iterator, takes the place
-- the key asks for, or scans the bitmap.
pub alloc_apart :
    {base : ℕ} {first b : Bmap} {used : Ranges}
    → base + segsize ≤ 2 ^ 64
    → first.linear % 16384 ≡ 0
    → Allocates base first [] b used
    → (class sub_key radix : ℕ) → 10 ≤ radix
    → radix ≤ 16
    → {b' : Bmap} {at bgsize : ℕ} {fresh : Option ℕ}
    → hammer2_bmap_alloc b class sub_key radix base ≡ ok b' at bgsize fresh
    → (x : ℕ) → at - base ≤ x
    → x < at - base + 2 ^ radix
    → (at - base + 2 ^ radix ≤ segsize) × (covers used x ≡ false)
alloc_apart {first = first} room whole r class sub_key radix low high e x above below =
    alloc_apart_from room (fresh-IsFitted first whole) r class sub_key radix low high e x above
      below
