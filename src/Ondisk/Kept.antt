-- ===== src/Ondisk/Kept.antt =====
-- `hammer2_init_volumes`: a volume that is written is not written again.
use linux_hammer.Base.{
  ℕ, ◌+◌, ◌≡◌, sym, ap, subst, ◌∙◌, inl, inr, Bool, true, false, ◌==◌, leb, ltb, ◌||◌, none, some,
  List, [], ◌∷◌, Bool-cases, ℕ_discrete, arith,
}
use linux_hammer.Ondisk.{
  max_volumes, root_volume, version_multi_volumes, Volume, VolumeData, is_present,
}
use linux_hammer.Ondisk.Header.{Device, Icrc32, BestHeader, hammer2_read_volume_header}
use linux_hammer.Ondisk.Load.{
  Loading, Loaded, loading, failed, asserted, differs, write_volume, volume_of, put_volume,
  load_header, unless_failed, load_devices,
}

-- If the loading goes on, volume `i` is `v`.
unfoldable pub Keeps : ℕ → Volume → Loaded → Type 0
Keeps i v (loading l) = l.volumes i ≡ v
Keeps i v (failed e) = Unit
Keeps i v asserted = Unit

not_both : {b : Bool} → b ≡ true → b ≡ false → ⊥
not_both h k = ground (arith, h, k)

module _ (i : ℕ) (v : Volume) where
  put_volume-Keeps :
      (d : Device) (zone : ℕ) (h : VolumeData) (l : Loading)
      → write_volume l.volumes h.volu_id (volume_of d h) i ≡ v
      → Keeps i v (put_volume d zone h l)
  unfolding put_volume Keeps
  put_volume-Keeps d zone h l is = elim (Bool-cases (h.volu_id == root_volume)) [
    | inl root ↦ elim (Bool-cases l.root_found) [
      | inl twice ↦ rw (put_volume, root, twice) tt
      | inr once ↦ rw (put_volume, root, once) is
    ]
    | inr other ↦ rw (put_volume, other) is
  ]

  pub load_header-Keeps :
      (d : Device) (zone : ℕ) (h : VolumeData) (l : Loading)
      → (is_present (l.volumes h.volu_id) ≡ false
          → write_volume l.volumes h.volu_id (volume_of d h) i ≡ v)
      → Keeps i v (load_header d (some (zone, h)) l)
  unfolding load_header Keeps
  load_header-Keeps d zone h l is = elim (Bool-cases (leb max_volumes h.volu_id)) [
    | inl great ↦ rw great tt
    | inr small ↦ elim (Bool-cases (is_present (l.volumes h.volu_id))) [
      | inl taken ↦ rw (small, taken) tt
      | inr gone ↦ elim (Bool-cases (differs l.first h)) [
        | inl mixed ↦ rw (small, gone, mixed) tt
        | inr alike ↦
            elim (Bool-cases (ltb h.version 1 || ltb (version_multi_volumes + 1) h.version)) [
              | inl bad ↦ rw (small, gone, alike, bad) tt
              | inr good ↦ rw (small, gone, alike, good) (put_volume-Keeps d zone h l (is gone))
            ]
      ]
    ]
  ]

  -- A volume that is there is not written again.
  there_kept :
      (l : Loading) (n : ℕ) (w : Volume)
      → l.volumes i ≡ v
      → is_present v ≡ true
      → is_present (l.volumes n) ≡ false
      → write_volume l.volumes n w i ≡ v
  there_kept l n w at there gone = elim (ℕ_discrete i n) [
    | yes e ↦
        let off = subst (λ x. is_present (l.volumes x) ≡ false) (sym e) gone in
        absurd (not_both (ap is_present at ∙ there) off)
    | no ne ↦ let other : (i == n) ≡ false = ground arith in rw other at
  ]

  pub best-Keeps :
      (d : Device) (best : BestHeader) (l : Loading)
      → l.volumes i ≡ v
      → is_present v ≡ true
      → Keeps i v (load_header d best l)
  unfolding load_header Keeps
  best-Keeps d none l at there = tt
  best-Keeps d (some (zone, h)) l at there =
      load_header-Keeps d zone h l (there_kept l h.volu_id (volume_of d h) at there)

  unless_failed-Keeps :
      (r : Loaded) (next : Loading → Loaded)
      → ((l : Loading) → l.volumes i ≡ v → Keeps i v (next l))
      → Keeps i v r
      → Keeps i v (unless_failed r next)
  unfolding Keeps
  unless_failed-Keeps (loading l) next keeps at = keeps l at
  unless_failed-Keeps (failed e) next keeps at = tt
  unless_failed-Keeps asserted next keeps at = tt

  pub load_devices-Keeps :
      (icrc32 : Icrc32) (ds : List Device) (l : Loading)
      → l.volumes i ≡ v
      → is_present v ≡ true
      → Keeps i v (load_devices icrc32 ds l)
  unfolding load_devices Keeps
  load_devices-Keeps icrc32 [] l at there = at
  load_devices-Keeps icrc32 (d ∷ ds) l at there =
      unless_failed-Keeps (load_header d (hammer2_read_volume_header icrc32 d) l)
        (load_devices icrc32 ds) (λ next kept. load_devices-Keeps icrc32 ds next kept there)
        (best-Keeps d (hammer2_read_volume_header icrc32 d) l at there)
