-- ===== src/Ondisk/Known.antt =====
-- `hammer2_init_volumes`: what is known of the volumes and of the root volume at each turn of the loop.
use linux_hammer.Base.{
  ℕ, ◌+◌, ◌≡◌, refl, sym, subst, ◌⊎◌, inl, inr, true, false, ◌==◌, ==_self, leb, ltb, ◌||◌, none,
  some, List, [], ◌∷◌, Bool-cases, ℕ_discrete, arith,
}
use linux_hammer.Ondisk.{
  max_volumes, root_volume, no_offset, version_multi_volumes, Volume, VolumeData, is_present,
}
use linux_hammer.Ondisk.Header.{Device, Icrc32, BestHeader, hammer2_read_volume_header}
use linux_hammer.Ondisk.Verify.{hammer2_verify_volumes}
use linux_hammer.Ondisk.Load.{
  Loading, start_loading, Loaded, loading, failed, asserted, differs, write_volume, volume_of,
  put_volume, load_header, unless_failed, load_devices, finish_loading, hammer2_init_volumes,
}

module _ (Fits : ℕ → Type 0) where
  -- Every device has a size that fits.
  unfoldable pub AllFit : List Device → Type 0
  AllFit [] = Unit
  AllFit (d ∷ ds) = Fits d.mediasize × AllFit ds

  -- Volume `i` is as it was made at first, or has the id `i` and is open.
  unfoldable pub IsSlot : ℕ → Volume → Type 0
  IsSlot i v =
      ((v.id ≡ none) × (v.offset ≡ no_offset) × (v.size ≡ no_offset))
      ⊎ ((v.id ≡ some i) × (v.opened ≡ true) × Fits v.mediasize)

  pub record Known (l : Loading) : Type 0 where
    pub slots : (i : ℕ) → IsSlot i (l.volumes i)
    pub found :
        l.root_found ≡ true
        → (is_present (l.volumes 0) ≡ true) × (l.rootvoldata.volu_size ≡ (l.volumes 0).size)
    pub missing : l.root_found ≡ false → l.rootvoldata.version ≡ 0

  -- The function does not stop at the assertion, and what it returns is known.
  unfoldable pub IsKnown : Loaded → Type 0
  IsKnown (loading l) = Known l
  IsKnown (failed e) = Unit
  IsKnown asserted = ⊥

  start_loading-Known : Known start_loading
  unfolding IsSlot
  start_loading-Known = record {
    slots = λ i. inl (refl, refl, refl);
    found = λ h. absurd (ground arith);
    missing = λ h. refl;
  }

  write_volume-IsSlot :
      (volumes : ℕ → Volume) (n : ℕ) (v : Volume)
      → IsSlot n v
      → ((i : ℕ) → IsSlot i (volumes i))
      → (i : ℕ) → IsSlot i (write_volume volumes n v i)
  write_volume-IsSlot volumes n v slot slots i = elim (ℕ_discrete i n) [
    | yes e ↦ rw (e, ==_self n) slot
    | no ne ↦ let other : (i == n) ≡ false = ground arith in rw other (slots i)
  ]

  put_volume-IsKnown :
      (d : Device) (zone : ℕ) (h : VolumeData) (l : Loading)
      → Fits d.mediasize
      → is_present (l.volumes h.volu_id) ≡ false
      → Known l
      → IsKnown (put_volume d zone h l)
  unfolding put_volume IsKnown IsSlot
  put_volume-IsKnown d zone h l fits gone known =
      let slots =
        write_volume-IsSlot l.volumes h.volu_id (volume_of d h) (inr (refl, refl, fits))
          known.slots in
      elim (Bool-cases (h.volu_id == root_volume)) [
        | inl root ↦
            let e : 0 ≡ h.volu_id = ground (arith, root) in
            let same : (0 == h.volu_id) ≡ true = ground (arith, e) in
            elim (Bool-cases l.root_found) [
              | inl twice ↦
                  let (there, _) = known.found twice in
                  let none_there = subst (λ x. is_present (l.volumes x) ≡ false) (sym e) gone in
                  absurd (ground (arith, there, none_there))
              | inr once ↦
                  rw (root, once)
                    (record {
                      slots = slots;
                      found = λ f. rw same (refl, refl);
                      missing = λ f. absurd (ground arith);
                    })
            ]
        | inr other ↦
            let apart : (0 == h.volu_id) ≡ false = ground (arith, other) in
            rw other (record {
              slots = slots;
              found = λ f. rw apart (known.found f);
              missing = known.missing;
            })
      ]

  load_header-IsKnown :
      (d : Device) (best : BestHeader) (l : Loading)
      → Fits d.mediasize
      → Known l
      → IsKnown (load_header d best l)
  unfolding load_header IsKnown
  load_header-IsKnown d none l fits known = tt
  load_header-IsKnown d (some (zone, h)) l fits known =
      elim (Bool-cases (leb max_volumes h.volu_id)) [
        | inl great ↦ rw great tt
        | inr small ↦ elim (Bool-cases (is_present (l.volumes h.volu_id))) [
          | inl taken ↦ rw (small, taken) tt
          | inr gone ↦ elim (Bool-cases (differs l.first h)) [
            | inl mixed ↦ rw (small, gone, mixed) tt
            | inr alike ↦
                elim (Bool-cases (ltb h.version 1 || ltb (version_multi_volumes + 1) h.version)) [
                  | inl bad ↦ rw (small, gone, alike, bad) tt
                  | inr good ↦
                      rw (small, gone, alike, good) (put_volume-IsKnown d zone h l fits gone known)
                ]
          ]
        ]
      ]

  unless_failed-IsKnown :
      (r : Loaded) (next : Loading → Loaded)
      → ((l : Loading) → Known l → IsKnown (next l))
      → IsKnown r
      → IsKnown (unless_failed r next)
  unfolding IsKnown
  unless_failed-IsKnown (loading l) next keeps known = keeps l known
  unless_failed-IsKnown (failed e) next keeps known = tt
  unless_failed-IsKnown asserted next keeps known = known

  load_devices-IsKnown :
      (icrc32 : Icrc32) (devices : List Device) (l : Loading)
      → AllFit devices
      → Known l
      → IsKnown (load_devices icrc32 devices l)
  unfolding load_devices IsKnown AllFit
  load_devices-IsKnown icrc32 [] l fit known = known
  load_devices-IsKnown icrc32 (d ∷ ds) l (fits, fit) known =
      unless_failed-IsKnown (load_header d (hammer2_read_volume_header icrc32 d) l)
        (load_devices icrc32 ds) (λ next k. load_devices-IsKnown icrc32 ds next fit k)
        (load_header-IsKnown d (hammer2_read_volume_header icrc32 d) l fits known)

  finish_loading-IsKnown : (r : Loaded) → IsKnown r → IsKnown (finish_loading r)
  unfolding IsKnown finish_loading
  finish_loading-IsKnown (loading l) known = elim (Bool-cases (l.rootvoldata.version == 0)) [
    | inl missing ↦ rw missing tt
    | inr there ↦ elim (Bool-cases (hammer2_verify_volumes l.volumes l.rootvoldata == 0)) [
      | inl good ↦ rw (there, good) known
      | inr bad ↦ rw (there, bad) tt
    ]
  ]
  finish_loading-IsKnown (failed e) known = tt
  finish_loading-IsKnown asserted known = known

  pub init_volumes-IsKnown :
      (icrc32 : Icrc32) (devices : List Device)
      → AllFit devices
      → IsKnown (hammer2_init_volumes icrc32 devices)
  unfolding hammer2_init_volumes
  init_volumes-IsKnown icrc32 devices fit =
      finish_loading-IsKnown (load_devices icrc32 devices start_loading)
        (load_devices-IsKnown icrc32 devices start_loading fit start_loading-Known)
