-- ===== src/Freemap/Adjust/Recovery.antt =====
-- What `hammer2_freemap_adjust` marks, and what it does not.
use linux_hammer.Base.{
  ℕ, zero, suc, ◌+◌, ◌-◌, ◌*◌, ◌/◌, ◌%◌, ◌^◌, ◌≤◌, ◌<◌, ◌≡◌, refl, ◌⊎◌, inl, inr, Bool, true, false,
  not, ◌&&◌, ◌||◌, ◌==◌, leb, if◌then◌else◌, subst, arith, Bool-cases, dec_lt,
}
use linux_hammer.Freemap.Bitmap.{bit_of}
use linux_hammer.Freemap.Bmap.{Bmap, segsize, block_size}
use linux_hammer.Freemap.Bmap.Scan.{Sizes-of}
use linux_hammer.Freemap.Adjust.{
  Adjusted, done, failed, asserted, mark_block, reset_linear, adjust_loop, count_of, adjust_segment,
}

unfoldable pub After : (Bmap → Type 0) → Adjusted → Type 0
After P (done b modified bgsize) = P b
After P (failed error) = Unit
After P asserted = Unit

abbrev pub Has : ℕ → ℕ → Bmap → Type 0
Has i k b = b.bitmapq i k ≡ true

abbrev marked_segment : ℕ → ℕ → ℕ → Bmap → Bool → Bmap
marked_segment class i start b modified = mark_block class i start (reset_linear modified b)

abbrev gone_of : ℕ → ℕ → Bmap → ℕ
gone_of i start b = if b.bitmapq i start || b.bitmapq i (start + 1) then 0 else block_size

-- What holds however a turn of the loop goes holds after it.
loop_step :
    (P : Adjusted → Type 0)
    → (modify_error class i count start : ℕ) (b : Bmap) (modified : Bool) (bgsize : ℕ) → P asserted
    → P (failed modify_error)
    → (b.bitmapq i start ≡ true
        → P (adjust_loop modify_error class i count (start + 2) b modified bgsize))
    → P (
        adjust_loop modify_error class i count
          (start + 2)
          (marked_segment class i start b modified)
          true
          (bgsize + gone_of i start b))
    → P (adjust_loop modify_error class i (suc count) start b modified bgsize)
unfolding adjust_loop
loop_step P modify_error class i count start b modified bgsize stop fail kept marked =
    elim (Bool-cases (leb 64 start)) [
      | inl beyond ↦ rw beyond stop
      | inr inside ↦ elim (Bool-cases (b.bitmapq i start && b.bitmapq i (start + 1))) [
        | inl both ↦ rw inside (rw both (kept (ground arith)))
        | inr some_clear ↦ elim (Bool-cases (not modified && not (modify_error == 0))) [
          | inl fails ↦ rw inside (rw some_clear (rw fails fail))
          | inr modifies ↦ rw inside (rw some_clear (rw modifies marked))
        ]
      ]
    ]

marked-Has :
    (class i start : ℕ) (b : Bmap) (modified : Bool) (i' k : ℕ)
    → ((i' ≡ i) × (k ≡ start)) ⊎ (b.bitmapq i' k ≡ true)
    → Has i' k (marked_segment class i start b modified)
unfolding mark_block
marked-Has class i start b false i' k h = ground (arith, h)
marked-Has class i start b true i' k h = ground (arith, h)

After-asserted : (P : Bmap → Type 0) → After P asserted
unfolding After
After-asserted P = tt

After-failed : (P : Bmap → Type 0) (error : ℕ) → After P (failed error)
unfolding After
After-failed P error = tt

keeps_none :
    (P : Bmap → Type 0) (modify_error class i start : ℕ) (b : Bmap) (modified : Bool) (bgsize : ℕ)
    → P b
    → After P (adjust_loop modify_error class i zero start b modified bgsize)
unfolding adjust_loop After
keeps_none P modify_error class i start b modified bgsize h = h

-- Marking sets bits only.
loop_keeps :
    (modify_error class i count start : ℕ) (b : Bmap) (modified : Bool) (bgsize i' k : ℕ)
    → b.bitmapq i' k ≡ true
    → After (Has i' k) (adjust_loop modify_error class i count start b modified bgsize)
loop_keeps modify_error class i zero start b modified bgsize i' k h =
    keeps_none (Has i' k) modify_error class i start b modified bgsize h
loop_keeps modify_error class i (suc count) start b modified bgsize i' k h =
    loop_step (After (Has i' k)) modify_error class i count start b modified bgsize
      (After-asserted (Has i' k)) (After-failed (Has i' k) modify_error)
      (λ e. loop_keeps modify_error class i count (start + 2) b modified bgsize i' k h)
      (loop_keeps modify_error class i count (start + 2) (marked_segment class i start b modified)
        true (bgsize + gone_of i start b) i' k (marked-Has class i start b modified i' k (inr h)))

-- Every block of the reference is marked.
loop_marks :
    (modify_error class i count start : ℕ) (b : Bmap) (modified : Bool) (bgsize m : ℕ)
    → m < count
    → After (Has i (start + 2 * m)) (adjust_loop modify_error class i count start b modified bgsize)
loop_marks modify_error class i zero start b modified bgsize m lt = absurd (omega arith)
loop_marks modify_error class i (suc count) start b modified bgsize zero lt =
    let here : start + 2 * zero ≡ start = omega arith in
    rw here (
      loop_step (After (Has i start)) modify_error class i count start b modified bgsize
        (After-asserted (Has i start)) (After-failed (Has i start) modify_error)
        (λ e. loop_keeps modify_error class i count (start + 2) b modified bgsize i start e)
        (loop_keeps modify_error class i count (start + 2) (marked_segment class i start b modified)
          true (bgsize + gone_of i start b) i start
          (marked-Has class i start b modified i start (inl (refl, refl)))))
loop_marks modify_error class i (suc count) start b modified bgsize (suc m) lt =
    let there : start + 2 * suc m ≡ start + 2 + 2 * m = omega arith in
    rw there (
      loop_step (After (Has i (start + 2 + 2 * m))) modify_error class i count start b modified
        bgsize (After-asserted (Has i (start + 2 + 2 * m)))
        (After-failed (Has i (start + 2 + 2 * m)) modify_error)
        (λ e. loop_marks modify_error class i count (start + 2) b modified bgsize m (omega arith))
        (loop_marks modify_error class i count (start + 2) (marked_segment class i start b modified)
          true (bgsize + gone_of i start b) m (omega arith)))

counts :
    (radix : ℕ)
    → 10 ≤ radix
    → radix ≤ 16
    → ((count_of radix ≡ 1) × (2 ^ radix ≤ 16384))
      ⊎ ((count_of radix ≡ 2) × (2 ^ radix ≡ 32768))
      ⊎ ((count_of radix ≡ 4) × (2 ^ radix ≡ 65536))
counts radix low high =
    let (unit, even, size_of) = Sizes-of radix low high in
    elim size_of [
      | inl (small, size, bits) ↦ inl (ground arith, omega arith)
      | inr (inl (at, size, bits)) ↦ inl (rw at refl, omega arith)
      | inr (inr (inl (at, size, bits))) ↦ inr (inl (rw at refl, size))
      | inr (inr (inr (at, size, bits))) ↦ inr (inr (rw at refl, size))
    ]

count_one : (radix : ℕ) → radix ≤ 14 → count_of radix ≡ 1
count_one radix small = elim (dec_lt radix 14) [
  | yes below ↦ ground arith
  | no at ↦ let same : radix ≡ 14 = omega arith in rw same refl
]

-- Recovery marks all of a reference that lies in the lower half of the 512KB of its bitmap word: each byte
-- of it reads as allocated afterwards. The reference is of 1KB to 64KB and within its aligned group of
-- blocks.
pub adjust_marks :
    (modify_error type data_off : ℕ) (b : Bmap)
    → 10 ≤ data_off % 64
    → data_off % 64 ≤ 16
    → data_off / 64 * 64 % (count_of (data_off % 64) * 16384) + 2 ^ (data_off % 64)
      ≤ count_of (data_off % 64) * 16384
    → data_off / 2 ^ 14 % 32 < 16
    → {b' : Bmap} {modified : Bool} {bgsize : ℕ}
    → adjust_segment modify_error type data_off b ≡ done b' modified bgsize
    → (x : ℕ) → data_off / 64 * 64 % segsize ≤ x
    → x < data_off / 64 * 64 % segsize + 2 ^ (data_off % 64)
    → bit_of b'.bitmapq x ≡ true
unfolding adjust_segment After
adjust_marks modify_error type data_off b low high fits half e x above below =
    let off : ℕ = data_off / 64 * 64 in
    let i : ℕ = off / 2 ^ 19 % 8 in
    let start : ℕ = off / 2 ^ 14 % 16 * 2 in
    let m : ℕ = x / 16384 - off % segsize / 16384 in
    let n = counts (data_off % 64) low high in
    let few : m < count_of (data_off % 64) = omega arith in
    let place : (x / 524288 ≡ i) × (x / 16384 % 32 * 2 ≡ start + 2 * m) =
      (omega arith, omega arith) in
    let marks =
      loop_marks modify_error (type * 256 + 16) i (count_of (data_off % 64)) start b false 0 m
        few in
    rw (place.0) (rw (place.1) (subst (After (Has i (start + 2 * m))) e marks))

-- Marking block `start` of word `i` leaves the bits of other blocks alone.
marked_apart :
    (class i start : ℕ) (b : Bmap) (i' k : ℕ)
    → start + 2 ≤ k
    → (marked_segment class i start b false).bitmapq i' k ≡ b.bitmapq i' k
unfolding mark_block
marked_apart class i start b i' k far = ground arith

one_block :
    (modify_error class i start : ℕ) (b : Bmap) (i' k : ℕ)
    → start + 2 ≤ k
    → After
        (λ c. c.bitmapq i' k ≡ b.bitmapq i' k)
        (adjust_loop modify_error class i 1 start b false 0)
one_block modify_error class i start b i' k far =
    let P : Bmap → Type 0 = λ c. c.bitmapq i' k ≡ b.bitmapq i' k in
    loop_step (After P) modify_error class i 0 start b false 0 (After-asserted P)
      (After-failed P modify_error)
      (λ e. keeps_none P modify_error class i (start + 2) b false 0 refl)
      (keeps_none P modify_error class i (start + 2) (marked_segment class i start b false) true
        (0 + gone_of i start b) (marked_apart class i start b i' k far))

-- A reference of one block or less in the upper half of the 512KB is not marked: the bit of its first byte
-- is what it was.
pub adjust_misses_upper_half :
    (modify_error type data_off : ℕ) (b : Bmap)
    → data_off % 64 ≤ 14
    → 16 ≤ data_off / 2 ^ 14 % 32
    → {b' : Bmap} {modified : Bool} {bgsize : ℕ}
    → adjust_segment modify_error type data_off b ≡ done b' modified bgsize
    → bit_of b'.bitmapq (data_off / 64 * 64 % segsize)
      ≡ bit_of b.bitmapq (data_off / 64 * 64 % segsize)
unfolding adjust_segment After
adjust_misses_upper_half modify_error type data_off b small half e =
    let off : ℕ = data_off / 64 * 64 in
    let i' : ℕ = off % segsize / 524288 in
    let k : ℕ = off % segsize / 16384 % 32 * 2 in
    let one : count_of (data_off % 64) ≡ 1 = count_one (data_off % 64) small in
    let kept =
      one_block modify_error (type * 256 + 16) (off / 2 ^ 19 % 8) (off / 2 ^ 14 % 16 * 2) b i' k
        (omega arith) in
    subst (After (λ c. c.bitmapq i' k ≡ b.bitmapq i' k)) (rw one at e) kept
