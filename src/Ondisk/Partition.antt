-- ===== src/Ondisk/Partition.antt =====
-- The addresses of a mounted file system, and the volume that each is in.
use linux_hammer.Base.{
  ℕ, zero, suc, ◌+◌, ◌*◌, ◌/◌, ◌%◌, ◌^◌, ◌≤◌, ◌<◌, ◌≡◌, refl, ◌≢◌, ap, Option, none, subst, inl,
  inr, true, leb, some, List, Bool-cases, arith,
}
use mathlib.Core.Option.{some-injective, none-ne-some}
use linux_hammer.Freemap.Iterate.{level1_size}
use linux_hammer.Ondisk.{version_multi_volumes, Volume}
use linux_hammer.Ondisk.Header.{Device, Icrc32}
use linux_hammer.Ondisk.Load.{
  Loading, loading, hammer2_init_volumes, mount_dev, holds_offset, search_volume,
  hammer2_get_volume, VolumeAt, no_volume_at, volume_at, unopened, check_volume,
}
use linux_hammer.Ondisk.Known.{AllFit, Known, IsKnown, init_volumes-IsKnown}
use linux_hammer.Ondisk.Segments.{start_of, IsSegmented, start_of-small, locate, search-found}
use linux_hammer.Ondisk.Accepted.{init_volumes-accepted}
use linux_hammer.Ondisk.Mounted.{IsSmall, accepted_sound, Mounted, mounted}

mount_dev-volumes : (l : Loading) → (mount_dev l).volumes ≡ l.volumes
unfolding mount_dev
mount_dev-volumes l = elim (Bool-cases (leb version_multi_volumes l.rootvoldata.version)) [
  | inl e ↦ rw e refl
  | inr e ↦ rw e refl
]

get_volume-found :
    (l : Loading) (offset k j : ℕ)
    → IsSegmented l.volumes k
    → (mount_dev l).nvolumes ≡ k
    → j < k
    → start_of l.volumes j ≤ offset / 64 * 64
    → offset / 64 * 64 < start_of l.volumes j + (l.volumes j).size
    → (l.volumes j).opened ≡ true
    → hammer2_get_volume (mount_dev l) offset ≡ volume_at j
unfolding hammer2_get_volume check_volume
get_volume-found l offset k j segmented e lt from to opened =
    let found : search_volume l.volumes (offset / 64 * 64) k 0 ≡ some j =
      search-found l.volumes k segmented k 0 j (offset / 64 * 64) (omega arith) (omega arith) lt
        from to in
    rw (mount_dev-volumes l, e, found) (rw (check_volume, opened) refl)

module _ (icrc32 : Icrc32) (devices : List Device) (l : Loading)
    (returns : hammer2_init_volumes icrc32 devices ≡ loading l)
    (small : AllFit IsSmall devices) where
  init_volumes-Known : Known IsSmall l
  unfolding IsKnown
  init_volumes-Known =
      subst (IsKnown IsSmall) returns (init_volumes-IsKnown IsSmall icrc32 devices small)

  init_volumes-Mounted :
      Mounted l init_volumes-Known (mount_dev l).nvolumes (mount_dev l).total_size
  init_volumes-Mounted =
      let (version, accepted) = init_volumes-accepted icrc32 devices l returns in
      mounted l init_volumes-Known accepted version

  pub mounted_opened : (j : ℕ) → j < (mount_dev l).nvolumes → (l.volumes j).opened ≡ true
  mounted_opened j lt =
      let m = init_volumes-Mounted in
      let (version, accepted) = init_volumes-accepted icrc32 devices l returns in
      let (opened, _) =
        accepted_sound l init_volumes-Known accepted j (omega (arith, lt, m.segmented.few))
          (m.there j lt) in
      opened

  -- After `hammer2_init_volumes` has returned 0 for devices of less than 2^58 bytes each,
  -- `hammer2_get_volume` finds a volume for every offset below the mount's `total_size`: it is one of the
  -- mount's `nvolumes`, its device is open, and the offset, less the radix in its low bits, is from the
  -- volume's own offset on and before its end, which does not wrap.
  pub get_volume_total :
      (offset : ℕ)
      → offset < (mount_dev l).total_size
      → (j : ℕ) × (hammer2_get_volume (mount_dev l) offset ≡ volume_at j)
        × (j < (mount_dev l).nvolumes)
        × ((l.volumes j).opened ≡ true)
        × ((l.volumes j).offset ≤ offset / 64 * 64)
        × (offset / 64 * 64 < (l.volumes j).offset + (l.volumes j).size)
        × ((l.volumes j).offset + (l.volumes j).size < 2 ^ 64)
  get_volume_total offset below =
      let m = init_volumes-Mounted in
      let (j, lt, from, to) =
        locate l.volumes (mount_dev l).nvolumes (offset / 64 * 64) (omega (arith, m.ends, below)) in
      let at = m.segmented.starts j lt in
      let sizes =
        start_of-small l.volumes (mount_dev l).nvolumes m.segmented.few m.segmented.small j lt in
      let opened = mounted_opened j lt in
      (
        j,
        get_volume-found l offset (mount_dev l).nvolumes j m.segmented refl lt from to opened,
        lt,
        opened,
        omega (arith, at, from),
        omega (arith, at, to),
        omega (arith, at, sizes),
      )

  -- After `hammer2_init_volumes` has returned 0 for devices of less than 2^58 bytes each, the volumes of
  -- the mount do not overlap: of its `nvolumes`, the one that has the offset, less the radix in its low
  -- bits, is the one that `hammer2_get_volume` gives.
  pub get_volume_only :
      (offset j : ℕ)
      → j < (mount_dev l).nvolumes
      → (l.volumes j).offset ≤ offset / 64 * 64
      → offset / 64 * 64 < (l.volumes j).offset + (l.volumes j).size
      → hammer2_get_volume (mount_dev l) offset ≡ volume_at j
  get_volume_only offset j lt from to =
      let m = init_volumes-Mounted in
      let at = m.segmented.starts j lt in
      get_volume-found l offset (mount_dev l).nvolumes j m.segmented refl lt
        (omega (arith, at, from)) (omega (arith, at, to)) (mounted_opened j lt)

-- A volume that `hammer2_get_volume` gives is one of the mount's.
search_below :
    (volumes : ℕ → Volume) (x left i j : ℕ) → search_volume volumes x left i ≡ some j → j < left + i
unfolding search_volume
search_below volumes x zero i j found = absurd (none-ne-some j found)
search_below volumes x (suc left) i j found = elim (Bool-cases (holds_offset (volumes i) x)) [
  | inl here ↦ omega (arith, some-injective i j (rw here at found))
  | inr other ↦ omega (arith, search_below volumes x left (suc i) j (rw other at found))
]

index_of : VolumeAt → Option ℕ
index_of no_volume_at = none
index_of (volume_at i) = some i
index_of unopened = none

check-found :
    (volumes : ℕ → Volume) (o : Option ℕ) (i : ℕ)
    → check_volume volumes o ≡ volume_at i
    → o ≡ some i
unfolding check_volume index_of
check-found volumes none i e = ap index_of e
check-found volumes (some k) i e = elim (Bool-cases (volumes k).opened) [
  | inl opened ↦ ap index_of (rw opened at e)
  | inr closed ↦ absurd (none-ne-some i (ap index_of (rw closed at e)))
]

check-unopened :
    (volumes : ℕ → Volume) (o : Option ℕ)
    → ((i : ℕ) → o ≡ some i → (volumes i).opened ≡ true)
    → check_volume volumes o ≢ unopened
unfolding check_volume
check-unopened volumes none opened e = absurd (cc (e))
check-unopened volumes (some i) opened e = absurd (cc (rw (opened i refl) at e))

-- The volumes of a mount of such devices start at multiples of 1 GiB.
pub mounted_aligned :
    (icrc32 : Icrc32) (devices : List Device) (l : Loading)
    → hammer2_init_volumes icrc32 devices ≡ loading l
    → AllFit IsSmall devices
    → (x i : ℕ) → hammer2_get_volume (mount_dev l) x ≡ volume_at i
    → ((mount_dev l).volumes i).offset % level1_size ≡ 0
unfolding hammer2_get_volume
mounted_aligned icrc32 devices l returns small x i got =
    let found =
      check-found (mount_dev l).volumes
        (search_volume (mount_dev l).volumes (x / 64 * 64) (mount_dev l).nvolumes 0) i got in
    let m = init_volumes-Mounted icrc32 devices l returns small in
    let below = search_below (mount_dev l).volumes (x / 64 * 64) (mount_dev l).nvolumes 0 i found in
    rw (mount_dev-volumes l) (m.aligned i (omega arith))

-- Their devices are open.
pub mounted_IsOpened :
    (icrc32 : Icrc32) (devices : List Device) (l : Loading)
    → hammer2_init_volumes icrc32 devices ≡ loading l
    → AllFit IsSmall devices
    → (x : ℕ) → hammer2_get_volume (mount_dev l) x ≢ unopened
unfolding hammer2_get_volume
mounted_IsOpened icrc32 devices l returns small x =
    check-unopened (mount_dev l).volumes
      (search_volume (mount_dev l).volumes (x / 64 * 64) (mount_dev l).nvolumes 0)
      (λ i found.
        let below =
          search_below (mount_dev l).volumes (x / 64 * 64) (mount_dev l).nvolumes 0 i found in
        rw (mount_dev-volumes l)
          (mounted_opened icrc32 devices l returns small i (omega (arith, below))))
