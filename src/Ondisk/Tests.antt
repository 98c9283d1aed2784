-- ===== src/Ondisk/Tests.antt =====
-- Two devices of one file system, and what a mount makes of them.
use linux_hammer.Base.{
  ℕ, ◌+◌, ◌*◌, ◌/◌, ◌^◌, false, ◌≤◌, ◌<◌, ◌≡◌, ◌≢◌, refl, true, ◌==◌, if◌then◌else◌, none, some,
  List, [], ◌∷◌, arith,
}
use linux_hammer.Ondisk.{no_offset, VolumeData}
use linux_hammer.Ondisk.Header.{
  volume_bytes, volume_id_hbo, num_volhdrs, Folio, Device, Icrc32, hammer2_read_volume_header,
}
use linux_hammer.Ondisk.Verify.{hammer2_fstype_uuid, hammer2_verify_volumes}
use linux_hammer.Ondisk.Load.{
  Loading, start_loading, Loaded, loading, failed, asserted, load_header, hammer2_init_volumes,
  mount_dev, volume_at, hammer2_get_volume,
}
use linux_hammer.Io.Table.{asserted as asserted_io}
use linux_hammer.Io.Fill.{Media, got, no_memory, dop_read, hammer2_io_getblk}
use linux_hammer.Io.Reach.{start_table, begin, mounted_getblk_asserts}
use linux_hammer.Ondisk.Best.{IsNewest, read_volume_header-IsNewest}
use linux_hammer.Ondisk.Known.{AllFit}
use linux_hammer.Ondisk.Mounted.{IsSmall}
use linux_hammer.Ondisk.Partition.{get_volume_total, get_volume_only}
use linux_hammer.Ondisk.Placed.{AllPlaced, init_volumes-AllPlaced}

-- A sum over the first bytes, for the kernel's CRC.
abbrev sum_crc : Icrc32
sum_crc bytes offset size = bytes offset + bytes (offset + 1)

abbrev loff : ℕ → ℕ
loff i = if i == 0 then 0 else (if i == 1 then 2 ^ 30 else no_offset)

abbrev volume_header : ℕ → ℕ → ℕ → VolumeData
volume_header id size tid = record {
  magic = volume_id_hbo;
  volu_size = size;
  version = 2;
  volu_id = id;
  nvolumes = 2;
  fsid = 77;
  fstype = hammer2_fstype_uuid;
  mirror_tid = tid;
  total_size = 2 ^ 30 + 2 ^ 23;
  icrc_sect0 = 1;
  icrc_sect1 = 1025;
  icrc_volheader = 1;
  volu_loff = loff;
}

abbrev folio_of : VolumeData → Folio
folio_of h = record { folio_size = volume_bytes; bytes = λ i. i; header = h }

-- The second place has the newer header; that of the third cannot be read.
abbrev first_device : Device
first_device = record {
  mediasize = 5 * 2 ^ 31;
  read = λ i.
      if i == 0
      then some (folio_of (volume_header 0 (2 ^ 30) 5))
      else (if i == 1 then some (folio_of (volume_header 0 (2 ^ 30) 6)) else none);
}

abbrev second_device : Device
second_device = record {
  mediasize = 2 ^ 24;
  read = λ i. some (folio_of (volume_header 1 (2 ^ 23) 6));
}

abbrev two_devices : List Device
two_devices = first_device ∷ second_device ∷ []

abbrev loading_of : Loaded → Loading
loading_of (loading l) = l
loading_of (failed e) = start_loading
loading_of asserted = start_loading

both : Loading
unfolding hammer2_init_volumes load_header hammer2_read_volume_header hammer2_verify_volumes
both = loading_of (hammer2_init_volumes sum_crc two_devices)

both_returned : hammer2_init_volumes sum_crc two_devices ≡ loading both
unfolding hammer2_init_volumes load_header hammer2_read_volume_header hammer2_verify_volumes both
both_returned = refl

small_devices : AllFit IsSmall two_devices
unfolding AllFit IsSmall
small_devices = (omega arith, (omega arith, tt))

below_total : 2 ^ 30 + 100 < (mount_dev both).total_size
unfolding hammer2_init_volumes load_header hammer2_read_volume_header hammer2_verify_volumes both
    mount_dev
below_total = omega arith

second_there : 1 < (mount_dev both).nvolumes
unfolding hammer2_init_volumes load_header hammer2_read_volume_header hammer2_verify_volumes both
    mount_dev
second_there = omega arith

second_from : (both.volumes 1).offset ≤ (2 ^ 30 + 100) / 64 * 64
unfolding hammer2_init_volumes load_header hammer2_read_volume_header hammer2_verify_volumes both
second_from = omega arith

second_to : (2 ^ 30 + 100) / 64 * 64 < (both.volumes 1).offset + (both.volumes 1).size
unfolding hammer2_init_volumes load_header hammer2_read_volume_header hammer2_verify_volumes both
second_to = omega arith

abbrev any_media : Media
any_media = record {
  buf_only = false;
  read_folio = λ p. no_memory;
  grab_folio = λ p. got 4096 true;
  room = λ p. true;
  read_error = λ p. 5;
}

-- The second volume before the first is the same file system.
swapped :
    hammer2_get_volume
      (mount_dev (loading_of (hammer2_init_volumes sum_crc (second_device ∷ first_device ∷ []))))
      (2 ^ 30 + 100)
    ≡ volume_at 1
unfolding hammer2_init_volumes load_header hammer2_read_volume_header hammer2_verify_volumes
    hammer2_get_volume mount_dev
swapped = refl

-- A device given twice, and one that is not given.
twice : hammer2_init_volumes sum_crc (first_device ∷ first_device ∷ []) ≡ failed 22
unfolding hammer2_init_volumes load_header hammer2_read_volume_header hammer2_verify_volumes
twice = refl

missing : hammer2_init_volumes sum_crc (first_device ∷ []) ≡ failed 22
unfolding hammer2_init_volumes load_header hammer2_read_volume_header hammer2_verify_volumes
missing = refl

read_volume_header-IsNewest_example :
    IsNewest sum_crc first_device num_volhdrs (hammer2_read_volume_header sum_crc first_device)
read_volume_header-IsNewest_example = read_volume_header-IsNewest sum_crc first_device

get_volume_total_example :
    (j : ℕ) × (hammer2_get_volume (mount_dev both) (2 ^ 30 + 100) ≡ volume_at j)
    × (j < (mount_dev both).nvolumes)
    × ((both.volumes j).opened ≡ true)
    × ((both.volumes j).offset ≤ (2 ^ 30 + 100) / 64 * 64)
    × ((2 ^ 30 + 100) / 64 * 64 < (both.volumes j).offset + (both.volumes j).size)
    × ((both.volumes j).offset + (both.volumes j).size < 2 ^ 64)
get_volume_total_example =
    get_volume_total sum_crc two_devices both both_returned small_devices (2 ^ 30 + 100) below_total

get_volume_only_example : hammer2_get_volume (mount_dev both) (2 ^ 30 + 100) ≡ volume_at 1
get_volume_only_example =
    get_volume_only sum_crc two_devices both both_returned small_devices (2 ^ 30 + 100) 1
      second_there second_from second_to

mounted_getblk_asserts_example :
    hammer2_io_getblk 5 any_media
      (start_table (mount_dev both))
      3
      (2 ^ 30 + 65536 + 10)
      (2 ^ 10)
      dop_read
    ≢ asserted_io
mounted_getblk_asserts_example =
    mounted_getblk_asserts sum_crc two_devices both (start_table (mount_dev both)) 5 any_media 3
      (2 ^ 30 + 65536 + 10) dop_read both_returned small_devices begin

init_volumes-AllPlaced_example : AllPlaced sum_crc both.volumes two_devices
init_volumes-AllPlaced_example = init_volumes-AllPlaced sum_crc two_devices both both_returned
