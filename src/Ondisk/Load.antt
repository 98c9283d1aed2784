-- ===== src/Ondisk/Load.antt =====
-- `hammer2_init_volumes`, the sizes that a mount takes from it, and `hammer2_get_volume`.
use linux_hammer.Base.{
  ℕ, zero, suc, ◌+◌, ◌*◌, ◌/◌, ◌%◌, ◌^◌, Bool, true, false, not, ◌&&◌, ◌||◌, ◌==◌, ltb, leb,
  if◌then◌else◌, Option, none, some, List, [], ◌∷◌,
}
use linux_hammer.Ondisk.{
  max_volumes, root_volume, no_offset, version_multi_volumes, einval, enxio, Volume, VolumeData,
  is_present,
}
use linux_hammer.Ondisk.Header.{Device, Icrc32, BestHeader, hammer2_read_volume_header}
use linux_hammer.Ondisk.Verify.{hammer2_verify_volumes}

abbrev pub no_volume : Volume
no_volume = record {
  id = none;
  opened = false;
  mediasize = 0;
  offset = no_offset;
  size = no_offset;
}

abbrev pub no_voldata : VolumeData
no_voldata = record {
  magic = 0;
  volu_size = 0;
  version = 0;
  volu_id = 0;
  nvolumes = 0;
  fsid = 0;
  fstype = 0;
  mirror_tid = 0;
  total_size = 0;
  icrc_sect0 = 0;
  icrc_sect1 = 0;
  icrc_volheader = 0;
  volu_loff = λ i. 0;
}

-- The variables of the loop: `first` has `v`, `nvolumes`, `fsid` and `fstype`, which are those of the first
-- header; `root_found` is whether `*rootvoldevvp` is set.
pub record Loading : Type 0 where
  pub volumes : ℕ → Volume
  pub first : Option VolumeData
  pub rootvoldata : VolumeData
  pub rootvolzone : ℕ
  pub root_found : Bool

abbrev pub start_loading : Loading
start_loading = record {
  volumes = λ i. no_volume;
  first = none;
  rootvoldata = no_voldata;
  rootvolzone = 0;
  root_found = false;
}

-- The loop goes on, or `goto done` with an error.
pub data Loaded : Type 0 where
  loading : Loading → Loaded
  failed : ℕ → Loaded
  asserted : Loaded

-- "All headers must have the same version, nvolumes and uuid."
abbrev pub differs : Option VolumeData → VolumeData → Bool
differs none h = false
differs (some first) h =
    not (first.version == h.version)
    || not (first.nvolumes == h.nvolumes)
    || not (first.fsid == h.fsid)
    || not (first.fstype == h.fstype)

abbrev pub first_header : Option VolumeData → VolumeData → VolumeData
first_header none h = h
first_header (some first) h = first

abbrev pub write_volume : (ℕ → Volume) → ℕ → Volume → ℕ → Volume
write_volume volumes n v i = if i == n then v else volumes i

abbrev pub volume_of : Device → VolumeData → Volume
volume_of d h = record {
  id = some h.volu_id;
  opened = true;
  mediasize = d.mediasize;
  offset = h.volu_loff h.volu_id;
  size = h.volu_size;
}

-- "All per-volume tests passed."
unfoldable pub put_volume : Device → ℕ → VolumeData → Loading → Loaded
put_volume d zone h l =
    let next : Loading = record l {
      volumes = write_volume l.volumes h.volu_id (volume_of d h);
      first = some (first_header l.first h);
    } in
    if h.volu_id == root_volume
    then (if l.root_found
        then asserted
        else loading (record next { rootvoldata = h; rootvolzone = zone; root_found = true }))
    else loading next

-- One turn of the loop, after the header is read. The version is an int there: one of 2^31 or more is
-- negative, and too small instead of too great.
unfoldable pub load_header : Device → BestHeader → Loading → Loaded
unfolding put_volume
load_header d none l = failed einval
load_header d (some (zone, h)) l =
    if leb max_volumes h.volu_id
    then failed einval
    else (if is_present (l.volumes h.volu_id)
        then failed einval
        else (if differs l.first h
            then failed enxio
            else (if ltb h.version 1 || ltb (version_multi_volumes + 1) h.version
                then failed einval
                else put_volume d zone h l)))

abbrev pub unless_failed : Loaded → (Loading → Loaded) → Loaded
unless_failed (loading l) next = next l
unless_failed (failed e) next = failed e
unless_failed asserted next = asserted

unfoldable pub load_devices : Icrc32 → List Device → Loading → Loaded
load_devices icrc32 [] l = loading l
load_devices icrc32 (d ∷ ds) l =
    unless_failed (load_header d (hammer2_read_volume_header icrc32 d) l) (load_devices icrc32 ds)

-- From `done` on.
unfoldable pub finish_loading : Loaded → Loaded
finish_loading (loading l) =
    if l.rootvoldata.version == 0
    then failed einval
    else (let error = hammer2_verify_volumes l.volumes l.rootvoldata in
        if error == 0 then loading l else failed error)
finish_loading (failed e) = failed e
finish_loading asserted = asserted

-- `loading` is the return of 0.
unfoldable pub hammer2_init_volumes : Icrc32 → List Device → Loaded
unfolding finish_loading load_devices
hammer2_init_volumes icrc32 devices = finish_loading (load_devices icrc32 devices start_loading)

-- What `hammer2_get_volume` reads of `hammer2_dev_t`.
pub record Dev : Type 0 where
  pub nvolumes : ℕ
  pub total_size : ℕ
  pub volumes : ℕ → Volume

-- "Must use hmp instead of volume header for these two", in the mount.
unfoldable pub mount_dev : Loading → Dev
mount_dev l =
    if leb version_multi_volumes l.rootvoldata.version
    then record {
      nvolumes = l.rootvoldata.nvolumes;
      total_size = l.rootvoldata.total_size;
      volumes = l.volumes;
    }
    else record { nvolumes = 1; total_size = l.rootvoldata.volu_size; volumes = l.volumes }

abbrev pub holds_offset : Volume → ℕ → Bool
holds_offset v offset = leb v.offset offset && ltb offset ((v.offset + v.size) % 2 ^ 64)

-- The loop, `left` turns from `i` on: the index of the volume.
unfoldable pub search_volume : (ℕ → Volume) → ℕ → ℕ → ℕ → Option ℕ
search_volume volumes offset zero i = none
search_volume volumes offset (suc left) i =
    let rest = search_volume volumes offset left (suc i) in
    if holds_offset (volumes i) offset then some i else rest

-- What `hammer2_get_volume` gives: null after `hpanic`, the index of the volume, or an assertion that fails.
pub data VolumeAt : Type 0 where
  no_volume_at : VolumeAt
  volume_at : ℕ → VolumeAt
  unopened : VolumeAt

-- The assertions on `dev`, `dev->bdev_file` and `dev->path` of the volume found, which are set together.
unfoldable pub check_volume : (ℕ → Volume) → Option ℕ → VolumeAt
check_volume volumes none = no_volume_at
check_volume volumes (some i) = if (volumes i).opened then volume_at i else unopened

unfoldable pub hammer2_get_volume : Dev → ℕ → VolumeAt
unfolding search_volume check_volume
hammer2_get_volume dev offset =
    check_volume dev.volumes (search_volume dev.volumes (offset / 64 * 64) dev.nvolumes 0)
