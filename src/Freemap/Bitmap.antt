-- ===== src/Freemap/Bitmap.antt =====
-- The bitmap of a 4MB segment (`bitmapq[]` of `struct hammer2_bmap_data`): eight 64-bit words, read
-- and written bit by bit. A mask of `n` ones shifted left by `j` is the range of bits from `j`.
use linux_hammer.Base.{
  ℕ, zero, suc, ◌+◌, ◌*◌, ◌/◌, ◌%◌, ◌≤◌, ◌<◌, ◌≡◌, Bool, true, false, ◌&&◌, ◌||◌, ◌==◌, ltb, leb,
  arith, dec_lt,
}

-- `bitmapq[i]`, bit `j`
abbrev pub Bitmap : Type 0
Bitmap = ℕ → ℕ → Bool

-- `(bitmapq[i] & mask) != 0`
unfoldable pub any_set : Bitmap → ℕ → ℕ → ℕ → Bool
any_set q i j zero = false
any_set q i j (suc n) = q i j || any_set q i (suc j) n

-- `bitmapq[i] |= mask`
abbrev pub mark : Bitmap → ℕ → ℕ → ℕ → Bitmap
mark q i j n i' j' = (i == i' && leb j j' && ltb j' (j + n)) || q i' j'

-- All of the mask is clear.
pub any_set-clear :
    (q : Bitmap) (i j n k : ℕ) → any_set q i j n ≡ false → j ≤ k → k < j + n → q i k ≡ false
unfolding any_set
any_set-clear q i j zero k h le lt = absurd (omega arith)
any_set-clear q i j (suc n) k h le lt = elim (dec_lt j k) [
  | yes above ↦ any_set-clear q i (suc j) n k (ground arith) above (omega arith)
  | no at ↦ let same : k ≡ j = omega arith in rw same (ground arith)
]

-- The two bits of a 16KB block are read by the lower one: the bit for a byte of the segment.
abbrev pub bit_of : Bitmap → ℕ → Bool
bit_of q x = q (x / 524288) (x / 16384 % 32 * 2)

-- A byte that the mask stands for has its bit in the mask.
pub bit_of-clear :
    (q : Bitmap) (i j n x : ℕ)
    → any_set q i j n ≡ false
    → j % 2 ≡ 0
    → j + n ≤ 64
    → i * 524288 + j * 8192 ≤ x
    → x < i * 524288 + (j + n) * 8192
    → bit_of q x ≡ false
bit_of-clear q i j n x h even fits low high =
    let element : x / 524288 ≡ i = omega arith in
    rw element (any_set-clear q i j n (x / 16384 % 32 * 2) h (omega arith) (omega arith))

pub bit_of-mark :
    (q : Bitmap) (i j n x : ℕ)
    → j % 2 ≡ 0
    → j + n ≤ 64
    → i * 524288 + j * 8192 ≤ x
    → x < i * 524288 + (j + n) * 8192
    → bit_of (mark q i j n) x ≡ true
bit_of-mark q i j n x even fits low high = ground arith

pub mark_keeps : (q : Bitmap) (i j n x : ℕ) → bit_of q x ≡ true → bit_of (mark q i j n) x ≡ true
mark_keeps q i j n x h = ground arith
