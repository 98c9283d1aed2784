-- ===== src/Ondisk/Accepted.antt =====
-- What holds of the volumes when `hammer2_init_volumes` accepts them.
use linux_hammer.Base.{
  ℕ, ◌-◌, ◌%◌, ◌<◌, ◌≡◌, ◌≢◌, ◌⊎◌, subst, inl, inr, Bool, true, false, ◌==◌, leb, ◌&&◌, ◌||◌, not,
  if◌then◌else◌, List, Bool-cases, arith,
}
use linux_hammer.Ondisk.{
  max_volumes, root_volume, no_offset, volume_align, version_multi_volumes, einval, Volume,
  VolumeData, is_present, any_from,
}
use linux_hammer.Ondisk.Header.{Device, Icrc32}
use linux_hammer.Ondisk.Verify.{
  hammer2_fstype_uuid, is_id, is_wrong, is_misplaced, count_present, sum_sizes,
  hammer2_verify_volumes_common, hammer2_verify_volumes_1, hammer2_verify_volumes_2,
  hammer2_verify_volumes,
}
use linux_hammer.Ondisk.Segments.{any_from-none}
use linux_hammer.Ondisk.Load.{
  Loading, start_loading, Loaded, loading, failed, asserted, load_devices, finish_loading,
  hammer2_init_volumes,
}

IsAccepted : Loaded → Type 0
IsAccepted (loading l) =
    (l.rootvoldata.version ≢ 0) × (hammer2_verify_volumes l.volumes l.rootvoldata ≡ 0)
IsAccepted (failed e) = Unit
IsAccepted asserted = Unit

finish_loading-IsAccepted : (r : Loaded) → IsAccepted (finish_loading r)
unfolding IsAccepted finish_loading
finish_loading-IsAccepted (loading l) = elim (Bool-cases (l.rootvoldata.version == 0)) [
  | inl missing ↦ rw missing tt
  | inr there ↦ elim (Bool-cases (hammer2_verify_volumes l.volumes l.rootvoldata == 0)) [
    | inl good ↦ rw (there, good) (ground (arith, there), ground (arith, good))
    | inr bad ↦ rw (there, bad) tt
  ]
]
finish_loading-IsAccepted (failed e) = tt
finish_loading-IsAccepted asserted = tt

pub init_volumes-accepted :
    (icrc32 : Icrc32) (devices : List Device) (l : Loading)
    → hammer2_init_volumes icrc32 devices ≡ loading l
    → (l.rootvoldata.version ≢ 0) × (hammer2_verify_volumes l.volumes l.rootvoldata ≡ 0)
unfolding hammer2_init_volumes IsAccepted
init_volumes-accepted icrc32 devices l returns =
    subst IsAccepted returns (finish_loading-IsAccepted (load_devices icrc32 devices start_loading))

-- Three checks that were passed.
three_passed :
    (a b c : Bool)
    → (if a then einval else (if b then einval else (if c then einval else 0))) ≡ 0
    → (a ≡ false) × (b ≡ false) × (c ≡ false)
three_passed a b c h = ground (arith, h)

and_false : {a b : Bool} → a ≡ true → (a && b) ≡ false → b ≡ false
and_false h k = ground (arith, h, k)

no_error :
    (error rest : ℕ) → (if not (error == 0) then error else rest) ≡ 0 → (error ≡ 0) × (rest ≡ 0)
no_error error rest h = ground (arith, h)

equals : (a b : ℕ) → not (a == b) ≡ false → a ≡ b
equals a b h = ground (arith, h)

or_false : (a b : Bool) → (a || b) ≡ false → (a ≡ false) × (b ≡ false)
or_false a b h = ground (arith, h)

module _ (volumes : ℕ → Volume) (root : VolumeData) where
  -- The checks that a volume must pass, in the loops over the volumes.
  abbrev common_bad : ℕ → Bool
  common_bad i = is_present (volumes i) && is_wrong (volumes i)

  abbrev many_bad : ℕ → Bool
  many_bad i = is_present (volumes i) && is_misplaced volumes root.nvolumes i

  common_passed :
      hammer2_verify_volumes_common volumes root ≡ 0 → any_from common_bad max_volumes 0 ≡ false
  unfolding hammer2_verify_volumes_common
  common_passed h =
      let (_, _, c) =
        three_passed (not (root.volu_id == root_volume)) (not (root.fstype == hammer2_fstype_uuid))
          (any_from common_bad max_volumes 0) h in
      c

  one_passed :
      hammer2_verify_volumes_1 volumes root ≡ 0
      → (not (count_present volumes max_volumes 0 0 == 1) ≡ false)
        × ((not (is_id root_volume (volumes root_volume).id)
              || not ((volumes root_volume).offset == 0)
              || not ((volumes root_volume).size % volume_align == 0))
            ≡ false)
  unfolding hammer2_verify_volumes_1
  one_passed h =
      let (a, _, c) =
        three_passed (not (count_present volumes max_volumes 0 0 == 1))
          (not (root.nvolumes == 0)
            || not (root.total_size == 0)
            || any_from (λ i. not (root.volu_loff i == 0)) max_volumes 0)
          (not (is_id root_volume (volumes root_volume).id)
            || not ((volumes root_volume).offset == 0)
            || not ((volumes root_volume).size % volume_align == 0))
          h in
      (a, c)

  many_passed :
      hammer2_verify_volumes_2 volumes root ≡ 0
      → ((not (root.nvolumes == count_present volumes max_volumes 0 0)
            || not (root.total_size == sum_sizes volumes max_volumes 0 0))
          ≡ false)
        × (any_from many_bad max_volumes 0 ≡ false)
  unfolding hammer2_verify_volumes_2
  many_passed h =
      let n = count_present volumes max_volumes 0 0 in
      let (a, _, c) =
        three_passed
          (not (root.nvolumes == n) || not (root.total_size == sum_sizes volumes max_volumes 0 0))
          (any_from (λ i. root.volu_loff i == no_offset) n 0
            || any_from (λ i. not (root.volu_loff i == no_offset)) (max_volumes - n) n)
          (any_from many_bad max_volumes 0) h in
      (a, c)

  pub common-checked :
      hammer2_verify_volumes_common volumes root ≡ 0
      → (i : ℕ) → i < max_volumes
      → is_present (volumes i) ≡ true
      → is_wrong (volumes i) ≡ false
  common-checked h i lt here =
      and_false here
        (any_from-none common_bad max_volumes 0 i (common_passed h) (omega arith) (omega arith))

  pub one-checked :
      hammer2_verify_volumes_1 volumes root ≡ 0
      → (count_present volumes max_volumes 0 0 ≡ 1) × ((volumes 0).offset ≡ 0)
  one-checked h =
      let (a, c) = one_passed h in
      (equals (count_present volumes max_volumes 0 0) 1 a, ground (arith, c))

  pub many-counted :
      hammer2_verify_volumes_2 volumes root ≡ 0
      → (root.nvolumes ≡ count_present volumes max_volumes 0 0)
        × (root.total_size ≡ sum_sizes volumes max_volumes 0 0)
  many-counted h =
      let (a, _) = many_passed h in
      let (n, t) =
        or_false (not (root.nvolumes == count_present volumes max_volumes 0 0))
          (not (root.total_size == sum_sizes volumes max_volumes 0 0)) a in
      (
        equals root.nvolumes (count_present volumes max_volumes 0 0) n,
        equals root.total_size (sum_sizes volumes max_volumes 0 0) t,
      )

  pub many-placed :
      hammer2_verify_volumes_2 volumes root ≡ 0
      → (i : ℕ) → i < max_volumes
      → is_present (volumes i) ≡ true
      → is_misplaced volumes root.nvolumes i ≡ false
  many-placed h i lt here =
      let (_, c) = many_passed h in
      and_false here (any_from-none many_bad max_volumes 0 i c (omega arith) (omega arith))

  verify_volumes_passed :
      hammer2_verify_volumes volumes root ≡ 0
      → (hammer2_verify_volumes_common volumes root ≡ 0)
        × ((if leb version_multi_volumes root.version
              then hammer2_verify_volumes_2 volumes root
              else hammer2_verify_volumes_1 volumes root)
            ≡ 0)
  unfolding hammer2_verify_volumes
  verify_volumes_passed h =
      no_error (hammer2_verify_volumes_common volumes root)
        (if leb version_multi_volumes root.version
          then hammer2_verify_volumes_2 volumes root
          else hammer2_verify_volumes_1 volumes root)
        h

  pub verify_volumes-checked :
      hammer2_verify_volumes volumes root ≡ 0
      → (hammer2_verify_volumes_common volumes root ≡ 0)
        × (((leb version_multi_volumes root.version ≡ true)
              × (hammer2_verify_volumes_2 volumes root ≡ 0))
            ⊎ ((leb version_multi_volumes root.version ≡ false)
                × (hammer2_verify_volumes_1 volumes root ≡ 0)))
  verify_volumes-checked h =
      let (c, r) = verify_volumes_passed h in
      (
        c,
        elim (Bool-cases (leb version_multi_volumes root.version)) [
          | inl e ↦ inl (e, rw e at r)
          | inr e ↦ inr (e, rw e at r)
        ],
      )
