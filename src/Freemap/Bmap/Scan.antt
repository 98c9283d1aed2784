-- ===== src/Freemap/Bmap/Scan.antt =====
-- What the scan of a segment's bitmap finds, and the sizes that an allocation can have.
use linux_hammer.Base.{
  ℕ, zero, suc, ◌+◌, ◌-◌, ◌*◌, ◌/◌, ◌%◌, ◌^◌, ◌≤◌, ◌<◌, ◌≡◌, ◌⊎◌, inl, inr, true, false, ◌==◌, none,
  some, arith, Bool-cases, Option-cases, dec_lt, subst,
}
use linux_hammer.Freemap.Bitmap.{Bitmap, any_set}
use linux_hammer.Freemap.Bmap.{scan_element, scan, bmradix_of}

-- An allocation is of 1KB to 64KB: within one block, or of two or four blocks.
abbrev pub Sizes : ℕ → Type 0
Sizes radix =
    (1024 ≤ 2 ^ radix)
    × (2 ^ radix % 1024 ≡ 0)
    × (((radix < 14) × (2 ^ radix < 16384) × (bmradix_of radix ≡ 2))
        ⊎ ((radix ≡ 14) × (2 ^ radix ≡ 16384) × (bmradix_of radix ≡ 2))
        ⊎ ((radix ≡ 15) × (2 ^ radix ≡ 32768) × (bmradix_of radix ≡ 4))
        ⊎ ((radix ≡ 16) × (2 ^ radix ≡ 65536) × (bmradix_of radix ≡ 8)))

Sizes-from : (k : ℕ) → k ≤ 6 → Sizes (10 + k)
Sizes-from zero h = ground arith
Sizes-from (suc zero) h = ground arith
Sizes-from (suc (suc zero)) h = ground arith
Sizes-from (suc (suc (suc zero))) h = ground arith
Sizes-from (suc (suc (suc (suc zero)))) h = ground arith
Sizes-from (suc (suc (suc (suc (suc zero))))) h = ground arith
Sizes-from (suc (suc (suc (suc (suc (suc zero)))))) h = ground arith
Sizes-from (suc (suc (suc (suc (suc (suc (suc k))))))) h = absurd (omega arith)

pub Sizes-of : (radix : ℕ) → 10 ≤ radix → radix ≤ 16 → Sizes radix
Sizes-of radix low high =
    let same : 10 + (radix - 10) ≡ radix = omega arith in
    subst Sizes same (Sizes-from (radix - 10) (omega arith))

-- A part of one block, or the whole of its blocks.
pub shapes :
    (radix : ℕ)
    → Sizes radix
    → ((bmradix_of radix ≡ 2) × (2 ^ radix < 16384) × ((2 ^ radix % 16384 == 0) ≡ false))
      ⊎ ((2 ^ radix ≡ bmradix_of radix * 8192) × ((2 ^ radix % 16384 == 0) ≡ true))
shapes radix (low, unit, inl (lt, small, two)) = inl (two, small, ground arith)
shapes radix (low, unit, inr (inl (at, size, two))) = inr (omega arith, ground arith)
shapes radix (low, unit, inr (inr (inl (at, size, four)))) = inr (omega arith, ground arith)
shapes radix (low, unit, inr (inr (inr (at, size, eight)))) = inr (omega arith, ground arith)

pub bmradix_even : (radix : ℕ) → Sizes radix → bmradix_of radix % 2 ≡ 0
bmradix_even radix (low, unit, sizes) = ground arith

pub bmradix_divides : (radix : ℕ) → Sizes radix → 64 / bmradix_of radix * bmradix_of radix ≤ 64
bmradix_divides radix (low, unit, sizes) = omega arith

-- A range of bits in a word, all clear.
pub record IsFree (q : Bitmap) (n i j : ℕ) : Type 0 where
  pub element : i < 8
  pub even : j % 2 ≡ 0
  pub fits : j + n ≤ 64
  pub clear : any_set q i j n ≡ false

scan_element-some :
    (q : Bitmap) (i n left j : ℕ) {i' j' : ℕ}
    → i < 8
    → n % 2 ≡ 0
    → j % 2 ≡ 0
    → j + left * n ≤ 64
    → scan_element q i n left j ≡ some (i', j')
    → IsFree q n i' j'
unfolding scan_element
scan_element-some q i n zero j below n_even even room e = cc
scan_element-some q i n (suc left) j below n_even even room e =
    elim (Bool-cases (any_set q i j n)) [
      | inl used ↦
          scan_element-some q i n left (j + n) below n_even (omega arith) (omega arith)
            (ground (arith, used))
      | inr free ↦ ground (arith, free)
    ]

scan_element-none :
    (q : Bitmap) (i n left j m : ℕ)
    → scan_element q i n left j ≡ none
    → m < left
    → any_set q i (j + m * n) n ≡ true
unfolding scan_element
scan_element-none q i n zero j m e lt = absurd (omega arith)
scan_element-none q i n (suc left) j zero e lt =
    let here : j + zero * n ≡ j = omega arith in rw here (ground arith)
scan_element-none q i n (suc left) j (suc m) e lt =
    let there : j + suc m * n ≡ j + n + m * n = omega arith in
    rw there (scan_element-none q i n left (j + n) m (ground arith) (omega arith))

module _ (q : Bitmap) (n : ℕ) (n_even : n % 2 ≡ 0) (room : 64 / n * n ≤ 64) where
  pub scan-some :
      (left i : ℕ) {i' j' : ℕ} → left + i ≤ 8 → scan q n left i ≡ some (i', j') → IsFree q n i' j'
  unfolding scan
  scan-some zero i le e = cc
  scan-some (suc left) i {i'} {j'} le e = elim (Option-cases (scan_element q i n (64 / n) 0)) [
    | inl full ↦ scan-some left (suc i) (omega arith) (rw full at e)
    | inr ((a, b), here) ↦
        let free : IsFree q n a b =
          scan_element-some q i n (64 / n) 0 (omega arith) n_even (omega arith) (omega arith)
            here in
        ground (arith, free, here)
  ]

  pub scan-none :
      (left i m k : ℕ)
      → scan q n left i ≡ none
      → i ≤ m
      → m < left + i
      → k < 64 / n
      → any_set q m (k * n) n ≡ true
  unfolding scan
  scan-none zero i m k e low high lt = absurd (omega arith)
  scan-none (suc left) i m k e low high lt = elim (Option-cases (scan_element q i n (64 / n) 0)) [
    | inr (p, here) ↦ cc (rw here at e)
    | inl full ↦ elim (dec_lt i m) [
      | yes above ↦ scan-none left (suc i) m k (rw full at e) above (omega arith) lt
      | no at ↦
          let same : m ≡ i = omega arith in
          let used : any_set q i (0 + k * n) n ≡ true =
            scan_element-none q i n (64 / n) 0 k full lt in
          let flat : 0 + k * n ≡ k * n = omega arith in rw same (rw flat at used)
    ]
  ]
