-- ===== src/Ondisk/Mounted.antt =====
-- What the checks make of the volumes of a mount: they stand side by side.
use linux_hammer.Base.{
  ℕ, zero, suc, ◌+◌, ◌%◌, ◌^◌, ◌≤◌, ◌<◌, ◌≡◌, ◌≢◌, ap, subst, ◌∙◌, inl, inr, true, false,
  Bool-cases, arith,
}
use linux_hammer.Freemap.Iterate.{level1_size}
use linux_hammer.Ondisk.{max_volumes, no_offset, Volume, is_present}
use linux_hammer.Ondisk.Verify.{
  is_wrong, is_misplaced, hammer2_verify_volumes, hammer2_verify_volumes_1,
  hammer2_verify_volumes_2,
}
use linux_hammer.Ondisk.Load.{Loading, mount_dev}
use linux_hammer.Ondisk.Known.{IsSlot, Known}
use linux_hammer.Ondisk.Segments.{start_of, IsSegmented, start_of-small}
use linux_hammer.Ondisk.Prefix.{run}
use linux_hammer.Ondisk.Accepted.{
  common-checked, one-checked, many-counted, many-placed, verify_volumes-checked,
}

-- A device is smaller than 2^58 bytes, so that the 64 sizes add up without a wrap.
unfoldable pub IsSmall : ℕ → Type 0
IsSmall size = size < 2 ^ 58

there_sound :
    (i : ℕ) (v : Volume)
    → IsSlot IsSmall i v
    → is_present v ≡ true
    → is_wrong v ≡ false
    → (v.opened ≡ true) × (v.size < 2 ^ 58)
unfolding IsSlot IsSmall
there_sound i v (inl (e, _, _)) here right = absurd (ground (arith, e, here))
there_sound i v (inr (_, opened, small)) here right = (opened, ground (arith, right))

-- A volume that is not there has no offset and no size.
gone_unset :
    (i : ℕ) (v : Volume)
    → IsSlot IsSmall i v
    → is_present v ≡ false
    → (v.offset ≡ no_offset) × (v.size ≡ no_offset)
unfolding IsSlot
gone_unset i v (inl (_, o, s)) gone = (o, s)
gone_unset i v (inr (e, _, _)) gone = absurd (ground (arith, e, gone))

-- A volume in its place follows the one before it.
placed_next :
    (volumes : ℕ → Volume) (n i : ℕ)
    → is_misplaced volumes n (suc i) ≡ false
    → ((volumes (suc i)).offset % 2 ^ 30 ≡ 0)
      × ((volumes (suc i)).offset ≡ ((volumes i).offset + (volumes i).size) % 2 ^ 64)
placed_next volumes n i h = (ground (arith, h), ground (arith, h))

placed_aligned :
    (volumes : ℕ → Volume) (n i : ℕ)
    → is_misplaced volumes n i ≡ false
    → (volumes i).offset % level1_size ≡ 0
placed_aligned volumes n zero h = ground (arith, h)
placed_aligned volumes n (suc i) h = let (aligned, _) = placed_next volumes n i h in aligned

placed_first :
    (volumes : ℕ → Volume) (n : ℕ) → is_misplaced volumes n 0 ≡ false → (volumes 0).offset ≡ 0
placed_first volumes n h = ground (arith, h)

only : (P : ℕ → Type 0) (i : ℕ) → i < 1 → P 0 → P i
only P i lt p = subst P (omega arith) p

module _ (l : Loading) (known : Known IsSmall l) where
  pub accepted_sound :
      hammer2_verify_volumes l.volumes l.rootvoldata ≡ 0
      → (i : ℕ) → i < max_volumes
      → is_present (l.volumes i) ≡ true
      → ((l.volumes i).opened ≡ true) × ((l.volumes i).size < 2 ^ 58)
  accepted_sound h i lt here =
      let (common, _) = verify_volumes-checked l.volumes l.rootvoldata h in
      there_sound i (l.volumes i) (known.slots i) here
        (common-checked l.volumes l.rootvoldata common i lt here)

  module _ (many : hammer2_verify_volumes_2 l.volumes l.rootvoldata ≡ 0) where
    -- The volumes that are there come first.
    many_closed :
        (i : ℕ)
        → suc i < max_volumes
        → is_present (l.volumes i) ≡ false
        → is_present (l.volumes (suc i)) ≡ false
    many_closed i lt gone = elim (Bool-cases (is_present (l.volumes (suc i)))) [
      | inl here ↦
          let (o, s) = gone_unset i (l.volumes i) (known.slots i) gone in
          let (aligned, next) =
            placed_next l.volumes l.rootvoldata.nvolumes i
              (many-placed l.volumes l.rootvoldata many (suc i) lt here) in
          absurd (omega arith)
      | inr e ↦ e
    ]

    many_starts :
        (k : ℕ)
        → k ≤ max_volumes
        → ((j : ℕ) → j < k → is_present (l.volumes j) ≡ true)
        → ((j : ℕ) → j < k → (l.volumes j).size < 2 ^ 58)
        → (i : ℕ) → i < k
        → (l.volumes i).offset ≡ start_of l.volumes i
    unfolding start_of
    many_starts k few there small zero lt =
        placed_first l.volumes l.rootvoldata.nvolumes
          (many-placed l.volumes l.rootvoldata many 0 (omega arith) (there 0 lt))
    many_starts k few there small (suc i) lt =
        let (_, next) =
          placed_next l.volumes l.rootvoldata.nvolumes i
            (many-placed l.volumes l.rootvoldata many (suc i) (omega arith) (there (suc i) lt)) in
        let before = many_starts k few there small i (omega arith) in
        omega (arith, start_of-small l.volumes k few small i (omega arith))

  -- What a mount takes from the headers: `k` volumes side by side, of which `total` is the end.
  pub record Mounted (k total : ℕ) : Type 0 where
    pub segmented : IsSegmented l.volumes k
    pub ends : total ≡ start_of l.volumes k
    pub there : (i : ℕ) → i < k → is_present (l.volumes i) ≡ true
    pub aligned : (i : ℕ) → i < k → (l.volumes i).offset % level1_size ≡ 0

  module _ (accepted : hammer2_verify_volumes l.volumes l.rootvoldata ≡ 0) where
    many-Mounted :
        hammer2_verify_volumes_2 l.volumes l.rootvoldata ≡ 0
        → Mounted l.rootvoldata.nvolumes l.rootvoldata.total_size
    unfolding start_of
    many-Mounted many =
        let small : (i : ℕ)
            → i < max_volumes
            → is_present (l.volumes i) ≡ true
            → (l.volumes i).size < 2 ^ 58 =
          λ i lt here. let (_, s) = accepted_sound accepted i lt here in s in
        let r =
          run l.volumes (many_closed many) small max_volumes 0 0 (omega arith) (omega arith) in
        let (counted, summed) = many-counted l.volumes l.rootvoldata many in
        let k : l.rootvoldata.nvolumes ≡ r.m = omega (arith, counted, r.count) in
        let few : l.rootvoldata.nvolumes ≤ max_volumes = omega (arith, k, r.within) in
        let there : (j : ℕ) → j < l.rootvoldata.nvolumes → is_present (l.volumes j) ≡ true =
          λ j lt. r.there j (omega arith) (omega arith) in
        let sizes : (j : ℕ) → j < l.rootvoldata.nvolumes → (l.volumes j).size < 2 ^ 58 =
          λ j lt. small j (omega arith) (there j lt) in
        record {
          segmented = record {
            few = few;
            starts = many_starts many l.rootvoldata.nvolumes few there sizes;
            small = sizes;
          };
          ends = summed ∙ r.sum ∙ ap (start_of l.volumes) (omega arith);
          there = there;
          aligned = λ i lt.
              placed_aligned l.volumes l.rootvoldata.nvolumes i
                (many-placed l.volumes l.rootvoldata many i (omega arith) (there i lt));
        }

    one-Mounted :
        is_present (l.volumes 0) ≡ true
        → hammer2_verify_volumes_1 l.volumes l.rootvoldata ≡ 0
        → Mounted 1 (l.volumes 0).size
    unfolding start_of
    one-Mounted here one =
        let (_, first) = one-checked l.volumes l.rootvoldata one in
        let (_, small) = accepted_sound accepted 0 (omega arith) here in
        record {
          segmented = record {
            few = omega arith;
            starts = λ i lt. only (λ x. (l.volumes x).offset ≡ start_of l.volumes x) i lt first;
            small = λ i lt. only (λ x. (l.volumes x).size < 2 ^ 58) i lt small;
          };
          ends = omega arith;
          there = λ i lt. only (λ x. is_present (l.volumes x) ≡ true) i lt here;
          aligned = λ i lt.
              only (λ x. (l.volumes x).offset % level1_size ≡ 0) i lt (omega (arith, first));
        }

    pub mounted :
        l.rootvoldata.version ≢ 0 → Mounted (mount_dev l).nvolumes (mount_dev l).total_size
    unfolding mount_dev
    mounted version =
        let (_, rest) = verify_volumes-checked l.volumes l.rootvoldata accepted in
        elim rest [
          | inl (many, checked) ↦ rw many (many-Mounted checked)
          | inr (one, checked) ↦ elim (Bool-cases l.root_found) [
            | inl root ↦
                let (here, same) = known.found root in rw (one, same) (one-Mounted here checked)
            | inr none_there ↦ absurd (version (known.missing none_there))
          ]
        ]
