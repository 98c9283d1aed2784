-- ===== src/Freemap/Reserve.antt =====
-- `hammer2_freemap_reserve`: where a block of the freemap itself is stored, in rotation among eight
-- places of the reserved area of its zone.
use linux_hammer.Base.{
  ℕ, zero, suc, ◌+◌, ◌-◌, ◌*◌, ◌/◌, ◌%◌, ◌^◌, ◌≤◌, ◌<◌, ◌≡◌, ◌≢◌, ==_self, dec_lt, refl, ◌⊎◌, inl,
  inr, ◌&&◌, ◌==◌, ltb, leb, if◌then◌else◌, Option, none, some, arith,
}
use linux_hammer.Base.Error.{eio}
use linux_hammer.Subr.Radix.{pbufsize}

abbrev pub zone_freemap_00 : ℕ
zone_freemap_00 = 1

abbrev pub zone_freemap_inc : ℕ
zone_freemap_inc = 5

abbrev pub zone_freemap_end : ℕ
zone_freemap_end = 41

abbrev pub nfreemaps : ℕ
nfreemaps = 8

abbrev pub freemap_node : ℕ
freemap_node = 5

abbrev pub freemap_leaf : ℕ
freemap_leaf = 6

-- `H2FMBASE`
abbrev pub fm_base : ℕ → ℕ → ℕ
fm_base key radix = key / 2 ^ radix * 2 ^ radix

-- The freemap's level of a key range: its `HAMMER2_ZONEFM_LEVEL`, and the type its blocks have.
pub record Level : Type 0 where
  pub zone_fm : ℕ
  pub bref_type : ℕ

unfoldable pub level_of : ℕ → Option Level
level_of keybits =
    if keybits == 62
    then some (record { zone_fm = 4; bref_type = freemap_node })
    else (if keybits == 54
        then some (record { zone_fm = 3; bref_type = freemap_node })
        else (if keybits == 46
            then some (record { zone_fm = 2; bref_type = freemap_node })
            else (if keybits == 38
                then some (record { zone_fm = 1; bref_type = freemap_node })
                else (if keybits == 30
                    then some (record { zone_fm = 0; bref_type = freemap_leaf })
                    else none))))

-- `ok data_off`, or the error; `asserted` if a `KKASSERT` fails.
pub data Reserved : Type 0 where
  ok : ℕ → Reserved
  failed : ℕ → Reserved
  asserted : Reserved

-- The index of the copy that comes after the one at `data_off`.
unfoldable pub next_index : ℕ → Option ℕ
next_index data_off =
    let off = data_off / 64 * 64 % 4194304 / pbufsize in
    let index = (off - zone_freemap_00) / zone_freemap_inc in
    if data_off / 64 == 0
    then some 0
    else (if leb zone_freemap_00 off && ltb off zone_freemap_end && ltb index nfreemaps
        then some (if index + 1 == nfreemaps then 0 else index + 1)
        else none)

unfoldable pub place : ℕ → ℕ → ℕ → ℕ → ℕ
place key keybits zone_fm index =
    fm_base key keybits + (index * zone_freemap_inc + zone_freemap_00 + zone_fm) * pbufsize

unfoldable pub reserve_at : ℕ → ℕ → ℕ → ℕ → ℕ → Option Level → Reserved
reserve_at key keybits type radix index none = failed eio
reserve_at key keybits type radix index (some level) =
    if type == level.bref_type && 2 ^ radix == 32768
    then ok (place key keybits (level.zone_fm) index + radix)
    else asserted

unfoldable pub reserve_index : ℕ → ℕ → ℕ → ℕ → Option ℕ → Reserved
reserve_index key keybits type radix none = asserted
reserve_index key keybits type radix (some index) =
    reserve_at key keybits type radix index (level_of keybits)

unfoldable pub hammer2_freemap_reserve : ℕ → ℕ → ℕ → ℕ → ℕ → Reserved
hammer2_freemap_reserve data_off key keybits type radix =
    reserve_index key keybits type radix (next_index data_off)

next_index-place :
    (base i z : ℕ)
    → base % 4194304 ≡ 0
    → i < 8
    → z < 5
    → next_index (base + (i * 5 + 1 + z) * 65536 + 15) ≡ some ((i + 1) % 8)
unfolding next_index
next_index-place base i z whole few low = ground arith

-- The type of the freemap's blocks of a level, 0 for the leaves.
abbrev pub type_at : ℕ → ℕ
type_at level = if level == 0 then freemap_leaf else freemap_node

known_level :
    (level : ℕ)
    → level < 5
    → level_of (30 + 8 * level) ≡ some (record { zone_fm = level; bref_type = type_at level })
unfolding level_of
known_level zero low = refl
known_level (suc zero) low = refl
known_level (suc (suc zero)) low = refl
known_level (suc (suc (suc zero))) low = refl
known_level (suc (suc (suc (suc zero)))) low = refl
known_level (suc (suc (suc (suc (suc level))))) low = absurd (omega arith)

base_whole : (key level : ℕ) → level < 5 → fm_base key (30 + 8 * level) % 4194304 ≡ 0
base_whole key zero low = omega arith
base_whole key (suc zero) low = omega arith
base_whole key (suc (suc zero)) low = omega arith
base_whole key (suc (suc (suc zero))) low = omega arith
base_whole key (suc (suc (suc (suc zero)))) low = omega arith
base_whole key (suc (suc (suc (suc (suc level))))) low = absurd (omega arith)

first : next_index 0 ≡ some 0
unfolding next_index
first = refl

reserve_known :
    (data_off key level index : ℕ)
    → level < 5
    → next_index data_off ≡ some index
    → hammer2_freemap_reserve data_off key (30 + 8 * level) (type_at level) 15
      ≡ ok (place key (30 + 8 * level) level index + 15)
unfolding hammer2_freemap_reserve reserve_index reserve_at
reserve_known data_off key level index low e =
    rw e (rw (known_level level low) (rw (==_self (type_at level)) refl))

-- A block of the freemap goes to copy 0 the first time, and each time after that to the copy after the one
-- it is in, the last copy followed by the first. This is at every level of the freemap. The copies are in
-- the reserved segment that its key's range begins with, clear of its first 64KB.
pub reserve_rotates :
    (key level index : ℕ)
    → level < 5
    → index < 8
    → (hammer2_freemap_reserve 0 key (30 + 8 * level) (type_at level) 15
        ≡ ok (place key (30 + 8 * level) level 0 + 15))
      × (hammer2_freemap_reserve
            (place key (30 + 8 * level) level index + 15)
            key
            (30 + 8 * level)
            (type_at level)
            15
          ≡ ok (place key (30 + 8 * level) level ((index + 1) % 8) + 15))
      × (fm_base key (30 + 8 * level) + 65536 ≤ place key (30 + 8 * level) level index)
      × (place key (30 + 8 * level) level index + 32768 ≤ fm_base key (30 + 8 * level) + 41 * 65536)
unfolding place
reserve_rotates key level index low few = (
  reserve_known 0 key level 0 low first,
  reserve_known (place key (30 + 8 * level) level index + 15) key level ((index + 1) % 8) low (
      next_index-place (fm_base key (30 + 8 * level)) index level (base_whole key level low) few
        low),
  omega arith,
  omega arith,
)

-- Two different copies, or blocks of two levels, never share storage of a range.
reserve_apart :
    (key keybits level index level' index' : ℕ)
    → level < 5
    → level' < 5
    → (index ≢ index') ⊎ (level ≢ level')
    → (place key keybits level index + 65536 ≤ place key keybits level' index')
      ⊎ (place key keybits level' index' + 65536 ≤ place key keybits level index)
unfolding place
reserve_apart key keybits level index level' index' low low' differ =
    elim (dec_lt (index * 5 + level) (index' * 5 + level')) [
      | yes before ↦ inl (omega arith)
      | no here ↦ elim (dec_lt (index' * 5 + level') (index * 5 + level)) [
        | yes after ↦ inr (omega arith)
        | no same ↦ absurd (omega arith)
      ]
    ]
