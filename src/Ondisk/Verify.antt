-- ===== src/Ondisk/Verify.antt =====
-- `hammer2_verify_volumes` and its three parts: 0 or EINVAL.
use linux_hammer.Base.{
  ℕ, zero, suc, ◌+◌, ◌-◌, ◌%◌, ◌^◌, Bool, true, false, not, ◌&&◌, ◌||◌, ◌==◌, ltb, leb,
  if◌then◌else◌, Option, none, some,
}
use linux_hammer.Ondisk.{
  max_volumes, root_volume, no_offset, volume_align, version_multi_volumes, einval, Volume,
  VolumeData, is_present, any_from,
}
use linux_hammer.Freemap.Iterate.{level1_size}

abbrev pub hammer2_fstype_uuid : ℕ
hammer2_fstype_uuid = 0x5cbb9ad1862d11dca94d01301bb8a9f5

-- The checks of one volume.
abbrev pub is_wrong : Volume → Bool
is_wrong v =
    not v.opened
    || v.offset == no_offset
    || v.size == no_offset
    || ltb v.mediasize v.size
    || v.size == 0

unfoldable pub hammer2_verify_volumes_common : (ℕ → Volume) → VolumeData → ℕ
unfolding any_from
hammer2_verify_volumes_common volumes root =
    if not (root.volu_id == root_volume)
    then einval
    else (if not (root.fstype == hammer2_fstype_uuid)
        then einval
        else (if any_from (λ i. is_present (volumes i) && is_wrong (volumes i)) max_volumes 0
            then einval
            else 0))

-- `nvolumes` after the loop, `left` turns from `i` on.
unfoldable pub count_present : (ℕ → Volume) → ℕ → ℕ → ℕ → ℕ
count_present volumes zero i n = n
count_present volumes (suc left) i n =
    count_present volumes left (suc i) (if is_present (volumes i) then n + 1 else n)

-- `total_size` after the loop.
unfoldable pub sum_sizes : (ℕ → Volume) → ℕ → ℕ → ℕ → ℕ
sum_sizes volumes zero i total = total
sum_sizes volumes (suc left) i total =
    sum_sizes volumes left (suc i)
      (if is_present (volumes i) then (total + (volumes i).size) % 2 ^ 64 else total)

abbrev pub is_id : ℕ → Option ℕ → Bool
is_id n none = false
is_id n (some m) = n == m

-- The root volume is there: `hammer2_init_volumes` has found it.
unfoldable pub hammer2_verify_volumes_1 : (ℕ → Volume) → VolumeData → ℕ
unfolding any_from count_present
hammer2_verify_volumes_1 volumes root =
    if not (count_present volumes max_volumes 0 0 == 1)
    then einval
    else (if not (root.nvolumes == 0)
          || not (root.total_size == 0)
          || any_from (λ i. not (root.volu_loff i == 0)) max_volumes 0
        then einval
        else (if not (is_id root_volume (volumes root_volume).id)
              || not ((volumes root_volume).offset == 0)
              || not ((volumes root_volume).size % volume_align == 0)
            then einval
            else 0))

-- `vol->id <= (vol-1)->id`
abbrev pub id_le : Option ℕ → Option ℕ → Bool
id_le none b = true
id_le (some a) none = false
id_le (some a) (some b) = leb a b

-- "Check vs previous volume."
abbrev pub is_out_of_line : (ℕ → Volume) → ℕ → Bool
is_out_of_line volumes zero = not ((volumes zero).offset == 0)
is_out_of_line volumes (suc i) =
    id_le (volumes (suc i)).id (volumes i).id
    || not ((volumes (suc i)).offset == ((volumes i).offset + (volumes i).size) % 2 ^ 64)

-- "Check size for non-last and last volumes."
abbrev is_odd_size : ℕ → ℕ → ℕ → Bool
is_odd_size nvolumes i size =
    if not (i + 1 == nvolumes)
    then ltb size level1_size || not (size % level1_size == 0)
    else not (size % volume_align == 0)

abbrev pub is_misplaced : (ℕ → Volume) → ℕ → ℕ → Bool
is_misplaced volumes nvolumes i =
    not ((volumes i).offset % level1_size == 0)
    || is_out_of_line volumes i
    || is_odd_size nvolumes i (volumes i).size

unfoldable pub hammer2_verify_volumes_2 : (ℕ → Volume) → VolumeData → ℕ
unfolding any_from count_present sum_sizes
hammer2_verify_volumes_2 volumes root =
    let n = count_present volumes max_volumes 0 0 in
    if not (root.nvolumes == n) || not (root.total_size == sum_sizes volumes max_volumes 0 0)
    then einval
    else (if any_from (λ i. root.volu_loff i == no_offset) n 0
          || any_from (λ i. not (root.volu_loff i == no_offset)) (max_volumes - n) n
        then einval
        else (if any_from (λ i. is_present (volumes i) && is_misplaced volumes root.nvolumes i)
              max_volumes 0
            then einval
            else 0))

unfoldable pub hammer2_verify_volumes : (ℕ → Volume) → VolumeData → ℕ
unfolding hammer2_verify_volumes_common hammer2_verify_volumes_1 hammer2_verify_volumes_2
hammer2_verify_volumes volumes root =
    let error = hammer2_verify_volumes_common volumes root in
    if not (error == 0)
    then error
    else (if leb version_multi_volumes root.version
        then hammer2_verify_volumes_2 volumes root
        else hammer2_verify_volumes_1 volumes root)
