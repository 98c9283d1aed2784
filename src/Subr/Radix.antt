-- ===== src/Subr/Radix.antt =====
-- `hammer2_getradix`: the least radix whose power of two holds a number of bytes.
use linux_hammer.Base.{
  ℕ, zero, suc, ◌+◌, ◌^◌, ◌≤◌, ◌<◌, ◌≡◌, ◌==◌, ltb, leb, if◌then◌else◌, Option, none, some, arith,
  Bool-cases, inl, inr, ap, dec_lt, ltb→lt,
}
use native.Mathlib.Nat.{pow-suc}

abbrev pub pbufsize : ℕ
pbufsize = 65536

abbrev pub pbufradix : ℕ
pbufradix = 16

abbrev pub lbufsize : ℕ
lbufsize = 16384

abbrev pub lbufradix : ℕ
lbufradix = 14

abbrev pub alloc_min : ℕ
alloc_min = 1024

abbrev pub radix_min : ℕ
radix_min = 10

-- The radix that the loop begins at.
unfoldable pub first_radix : ℕ → ℕ
first_radix bytes =
    if bytes == pbufsize
    then pbufradix
    else if leb lbufsize bytes
    then lbufradix
    else if leb alloc_min bytes
    then radix_min
    else 0

-- `while ((1 << radix) < bytes) ++radix;` `none`: the fuel ran out.
unfoldable pub raise_radix : ℕ → ℕ → ℕ → Option ℕ
raise_radix zero radix bytes = none
raise_radix (suc fuel) radix bytes =
    let more = raise_radix fuel (suc radix) bytes in
    if ltb (2 ^ radix) bytes then more else some radix

-- A shift of a 64-bit word is by less than 64 bits.
abbrev pub radix_fuel : ℕ
radix_fuel = 65

unfoldable pub hammer2_getradix : ℕ → Option ℕ
unfolding first_radix raise_radix
hammer2_getradix bytes = raise_radix radix_fuel (first_radix bytes) bytes

-- No smaller radix would do.
abbrev IsLeast : ℕ → ℕ → Type 0
IsLeast radix bytes = (r : ℕ) → r < radix → 2 ^ r < bytes

IsLeast-suc :
    (radix bytes : ℕ) → IsLeast radix bytes → 2 ^ radix < bytes → IsLeast (suc radix) bytes
IsLeast-suc radix bytes least more r lt = elim (dec_lt r radix) [
  | yes below ↦ least r below
  | no at ↦ let same : r ≡ radix = omega arith in rw same more
]

raise_radix_lem :
    (fuel radix bytes top : ℕ)
    → bytes ≤ 2 ^ top
    → radix ≤ top
    → top < fuel + radix
    → IsLeast radix bytes
    → (r : ℕ) × (raise_radix fuel radix bytes ≡ some r)
      × (bytes ≤ 2 ^ r)
      × (r ≤ top)
      × IsLeast r bytes
unfolding raise_radix
raise_radix_lem zero radix bytes top fits le enough least = absurd (omega arith)
raise_radix_lem (suc fuel) radix bytes top fits le enough least =
    elim (Bool-cases (ltb (2 ^ radix) bytes)) [
      | inr done ↦ (radix, rw done, ground arith, le, least)
      | inl more ↦ elim (dec_lt radix top) [
        | yes below ↦
            let (r, runs, holds, small, least_of_r) =
              raise_radix_lem fuel (suc radix) bytes top fits below (omega arith)
                (IsLeast-suc radix bytes least (ground arith)) in
            (r, rw more runs, holds, small, least_of_r)
        | no at ↦
            let same : radix ≡ top = omega arith in
            absurd (omega (arith, ap (λ r. 2 ^ r) same, ltb→lt (2 ^ radix) bytes more))
      ]
    ]

pow_pos : (k : ℕ) → 0 < 2 ^ k
pow_pos zero = omega arith
pow_pos (suc k) = omega (arith, pow-suc 2 k, pow_pos k)

pub pow_mono : (r k : ℕ) → r < k → 2 ^ r < 2 ^ k
pow_mono r zero lt = absurd (omega arith)
pow_mono r (suc k) lt = elim (dec_lt r k) [
  | yes below ↦ omega (arith, pow-suc 2 k, pow_mono r k below)
  | no at ↦
      let same : r ≡ k = omega arith in omega (arith, pow-suc 2 k, pow_pos k, ap (λ n. 2 ^ n) same)
]

first_radix-IsLeast : (bytes : ℕ) → IsLeast (first_radix bytes) bytes
unfolding first_radix
first_radix-IsLeast bytes r lt = ground (arith, pow_mono r 16, pow_mono r 14, pow_mono r 10)

first_radix-le : (bytes : ℕ) → first_radix bytes ≤ 16
unfolding first_radix
first_radix-le bytes = ground arith

-- For any number of bytes up to 2 ^ 63 the loop ends within its fuel, with the least radix, at most 63,
-- whose power of two is not below the number; so 0 has the radix 0.
pub getradix-IsLeast :
    (bytes : ℕ)
    → bytes ≤ 2 ^ 63
    → (r : ℕ) × (hammer2_getradix bytes ≡ some r)
      × (bytes ≤ 2 ^ r)
      × (r ≤ 63)
      × ((s : ℕ) → s < r → 2 ^ s < bytes)
unfolding hammer2_getradix
getradix-IsLeast bytes fits =
    raise_radix_lem radix_fuel (first_radix bytes) bytes 63 fits
      (omega (arith, first_radix-le bytes)) (omega arith) (first_radix-IsLeast bytes)
