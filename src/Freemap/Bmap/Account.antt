-- ===== src/Freemap/Bmap/Account.antt =====
-- When `hammer2_bmap_alloc` gives up.
use linux_hammer.Base.{
  ℕ, ◌+◌, ◌*◌, ◌/◌, ◌%◌, ◌^◌, ◌≤◌, ◌<◌, ◌≡◌, inl, inr, true, false, ◌&&◌, ◌==◌, ltb, leb,
  if◌then◌else◌, none, some, subst, arith, Bool-cases, Option-cases,
}
use linux_hammer.Freemap.Bitmap.{any_set}
use linux_hammer.Freemap.Bmap.{
  Bmap, Alloc, Found, ok, enospc, asserted, scan, bmradix_of, uses_linear, preferred, take,
  take_found, take_scan, search_from, take_linear, hammer2_bmap_alloc, block_size, element_size,
}
use linux_hammer.Freemap.Bmap.Scan.{Sizes-of, bmradix_even, bmradix_divides, scan-none}

unfoldable pub OnEnospc : Type 0 → Alloc → Type 0
OnEnospc P (ok b at bgsize fresh) = Unit
OnEnospc P enospc = P
OnEnospc P asserted = Unit

module _ (P : Type 0) (class radix base : ℕ) where
  take_answers : (b : Bmap) (i j o : ℕ) → OnEnospc P (take b class radix base (2 ^ radix) i j o)
  unfolding take OnEnospc
  take_answers b i j o = elim (Bool-cases (ltb i 8)) [
    | inl below ↦ rw below tt
    | inr beyond ↦ rw beyond tt
  ]

  found_answers : (b : Bmap) (p : ℕ × ℕ) → OnEnospc P (take_found b class radix base (2 ^ radix) p)
  unfolding take_found
  found_answers b (i, j) =
      take_answers
        (if 2 ^ radix % block_size == 0
          then b
          else record b { linear = i * element_size + j * (block_size / 2) + 2 ^ radix })
        i j (i * element_size + j * (block_size / 2))

  scan_answers :
      (b : Bmap)
      → (scan b.bitmapq (bmradix_of radix) 8 0 ≡ none → P)
      → OnEnospc P
          (take_scan b class radix base (2 ^ radix) (scan b.bitmapq (bmradix_of radix) 8 0))
  unfolding take_scan OnEnospc
  scan_answers b full = elim (Option-cases (scan b.bitmapq (bmradix_of radix) 8 0)) [
    | inl nowhere ↦ rw nowhere (full nowhere)
    | inr (p, at) ↦ rw at (found_answers b p)
  ]

  search_answers :
      (b : Bmap) (p : Found)
      → (scan b.bitmapq (bmradix_of radix) 8 0 ≡ none → P)
      → OnEnospc P (search_from b class radix base (2 ^ radix) p)
  unfolding search_from OnEnospc
  search_answers b none full = scan_answers b full
  search_answers b (some (i, j)) full = elim (Bool-cases (leb (j + bmradix_of radix) 64)) [
    | inr long ↦ rw long tt
    | inl short ↦ elim (Bool-cases (any_set b.bitmapq i j (bmradix_of radix))) [
      | inl busy ↦ rw short (rw busy (scan_answers b full))
      | inr free ↦ rw short (rw free (found_answers b (i, j)))
    ]
  ]

  linear_answers : (b : Bmap) → OnEnospc P (take_linear b class radix base (2 ^ radix))
  unfolding take_linear OnEnospc
  linear_answers b =
      elim (Bool-cases (leb (b.linear + 2 ^ radix) 4194304 && b.linear % 1024 == 0)) [
        | inl aligned ↦ rw aligned (
            take_answers (record b { linear = b.linear + 2 ^ radix }) (b.linear / element_size)
              (b.linear / (block_size / 2) % 64 / 2 * 2) b.linear)
        | inr misaligned ↦ rw misaligned tt
      ]

  alloc_answers :
      (b : Bmap) (sub_key : ℕ)
      → (uses_linear b (2 ^ radix) ≡ false → scan b.bitmapq (bmradix_of radix) 8 0 ≡ none → P)
      → OnEnospc P (hammer2_bmap_alloc b class sub_key radix base)
  unfolding hammer2_bmap_alloc
  alloc_answers b sub_key full = elim (Bool-cases (uses_linear b (2 ^ radix))) [
    | inl packs ↦ rw packs (linear_answers b)
    | inr scans ↦ rw scans (search_answers b (preferred class sub_key radix) (full scans))
  ]

-- `ENOSPC` means there is no room: the linear iterator cannot take the request, and at every aligned
-- place of every word of the bitmap, a place being as many bits as the request needs, some bit is set.
pub enospc-IsFull :
    (b : Bmap) (class sub_key radix base : ℕ)
    → 10 ≤ radix
    → radix ≤ 16
    → hammer2_bmap_alloc b class sub_key radix base ≡ enospc
    → (i k : ℕ) → i < 8
    → k < 64 / bmradix_of radix
    → (uses_linear b (2 ^ radix) ≡ false)
      × (any_set b.bitmapq i (k * bmradix_of radix) (bmradix_of radix) ≡ true)
unfolding OnEnospc
enospc-IsFull b class sub_key radix base low high e i k below lt =
    let sizes = Sizes-of radix low high in
    let P : Type 0 =
      (uses_linear b (2 ^ radix) ≡ false)
      × (any_set b.bitmapq i (k * bmradix_of radix) (bmradix_of radix) ≡ true) in
    subst (OnEnospc P) e (
      alloc_answers P class radix base b sub_key (λ scans nowhere. (
        scans,
        scan-none b.bitmapq (bmradix_of radix) (bmradix_even radix sizes)
            (bmradix_divides radix sizes) 8 0 i k nowhere (omega arith) (omega arith) lt,
      )))
