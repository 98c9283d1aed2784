-- ===== src/Subr/Blocks.antt =====
-- The logical block of a file offset and the physical size of a file's last block.
use mathlib.Core.Option
use linux_hammer.Base.{
  ℕ, zero, suc, ◌+◌, ◌-◌, ◌*◌, ◌/◌, ◌%◌, ◌^◌, ◌≤◌, ◌<◌, ◌≡◌, refl, ◌⊎◌, ◌&&◌, leb, if◌then◌else◌,
  arith, Option, none, some, dec_lt,
}
use linux_hammer.Subr.Radix.{pbufsize, alloc_min}

-- `x & ~HAMMER2_PBUFMASK64` on an uint64_t
abbrev round_down : ℕ → ℕ
round_down x = x / pbufsize * pbufsize

-- `*lbasep`, `*leofp` and the value of `hammer2_calc_logical`.
pub record Logical : Type 0 where
  pub lbase : ℕ
  pub leof : ℕ
  pub size : ℕ

unfoldable pub hammer2_calc_logical : ℕ → ℕ → Logical
hammer2_calc_logical file_size uoff = record {
  lbase = round_down uoff;
  leof = round_down ((file_size + (pbufsize - 1)) % 2 ^ 64);
  size = pbufsize;
}

-- `while (pblksize >= eofbytes && pblksize >= HAMMER2_ALLOC_MIN) pblksize >>= 1;` `none`: the fuel
-- ran out.
unfoldable pub shrink : ℕ → ℕ → ℕ → Option ℕ
shrink zero eofbytes pblksize = none
shrink (suc fuel) eofbytes pblksize =
    let less = shrink fuel eofbytes (pblksize / 2) in
    if leb eofbytes pblksize && leb alloc_min pblksize then less else some pblksize

-- From 65536 the seventh halving is below 1024.
abbrev pub shrink_fuel : ℕ
shrink_fuel = 8

unfoldable pub hammer2_calc_physical : ℕ → ℕ → Option ℕ
unfolding hammer2_calc_logical shrink
hammer2_calc_physical file_size lbase =
    let lblksize = (hammer2_calc_logical file_size lbase).size in
    if leb ((lbase + lblksize) % 2 ^ 64) file_size
    then some lblksize
    else if leb file_size lbase
    then some 0
    else Option.map (λ p. p * 2) (shrink shrink_fuel (file_size - lbase) lblksize)

-- The block of an offset holds it, and the end of the file is rounded up to a block: `leof` is the
-- least multiple of the block size that is not below the file's size, which is at most 2 ^ 64 less
-- a block.
calc_logical_covers :
    (file_size uoff : ℕ)
    → file_size ≤ 2 ^ 64 - pbufsize
    → let b = hammer2_calc_logical file_size uoff in
      (b.lbase ≤ uoff)
      × (uoff < b.lbase + b.size)
      × (b.lbase % b.size ≡ 0)
      × (file_size ≤ b.leof)
      × (b.leof < file_size + b.size)
      × (b.leof % b.size ≡ 0)
unfolding hammer2_calc_logical
calc_logical_covers file_size uoff fits = omega arith

-- The size that the halving stops at, for the bytes at the end of a file.
stop : ℕ → ℕ
stop eofbytes =
    if leb eofbytes 1024
    then 512
    else if leb eofbytes 2048
    then 1024
    else if leb eofbytes 4096
    then 2048
    else if leb eofbytes 8192
    then 4096
    else if leb eofbytes 16384
    then 8192
    else if leb eofbytes 32768
    then 16384
    else 32768

shrink-stop :
    (eofbytes : ℕ)
    → eofbytes ≤ pbufsize
    → shrink shrink_fuel eofbytes pbufsize ≡ some (stop eofbytes)
unfolding shrink stop
shrink-stop eofbytes small = ground arith

abbrev Fits : ℕ → ℕ → Type 0
Fits eofbytes p =
    (eofbytes ≤ p)
    × (alloc_min ≤ p)
    × (p ≤ pbufsize)
    × (pbufsize % p ≡ 0)
    × ((p ≡ alloc_min) ⊎ (p / 2 < eofbytes))

stop-Fits : (eofbytes : ℕ) → eofbytes ≤ pbufsize → Fits eofbytes (stop eofbytes * 2)
unfolding stop
stop-Fits eofbytes small = ground arith

-- The physical size of the block at an offset, for a block that does not wrap. A block that the file
-- fills has the whole logical size, one past its end has none. The block that holds the end of the
-- file has the least power of two between 1024 and 65536 that is not below the bytes left: the size
-- divides the logical one, and is 1024 or its half does not hold them.
pub calc_physical_fits :
    (file_size lbase : ℕ)
    → lbase + pbufsize < 2 ^ 64
    → (p : ℕ) × (hammer2_calc_physical file_size lbase ≡ some p)
      × (lbase + pbufsize ≤ file_size → p ≡ pbufsize)
      × (file_size ≤ lbase → p ≡ 0)
      × (lbase < file_size
          → file_size < lbase + pbufsize
          → (file_size ≤ lbase + p)
            × (alloc_min ≤ p)
            × (p ≤ pbufsize)
            × (pbufsize % p ≡ 0)
            × ((p ≡ alloc_min) ⊎ (lbase + p / 2 < file_size)))
unfolding hammer2_calc_physical
calc_physical_fits file_size lbase fits = elim (dec_lt file_size (lbase + pbufsize)) [
  | no full ↦
      (pbufsize, ground arith, λ _. refl, λ h. absurd (omega arith), λ h k. absurd (omega arith))
  | yes partial ↦ elim (dec_lt lbase file_size) [
    | no past ↦ (0, ground arith, λ h. absurd (omega arith), λ _. refl, λ h. absurd (omega arith))
    | yes within ↦
        let eofbytes = file_size - lbase in
        let fits_it : Fits eofbytes (stop eofbytes * 2) = stop-Fits eofbytes (omega arith) in
        (
          stop eofbytes * 2,
          ground (arith, shrink-stop eofbytes),
          λ h. absurd (omega arith),
          λ h. absurd (omega arith),
          λ h k. (
            omega (arith, fits_it.0),
            fits_it.1,
            fits_it.2,
            fits_it.3,
            ground (arith, fits_it.4),
          ),
        )
  ]
]
