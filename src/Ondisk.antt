-- ===== src/Ondisk.antt =====
-- sys/fs/hammer2/hammer2_ondisk.c: the volumes of a file system, as a mount finds and checks them.
use linux_hammer.Base.{ℕ, zero, suc, ◌-◌, ◌*◌, ◌^◌, Bool, true, false, ◌||◌, Option, none, some}
pub mod Header
pub mod Verify
pub mod Load
pub mod Best
pub mod Known
pub mod Segments
pub mod Prefix
pub mod Kept
pub mod Placed
pub mod Accepted
pub mod Mounted
pub mod Partition
mod Tests

abbrev pub max_volumes : ℕ
max_volumes = 64

abbrev pub root_volume : ℕ
root_volume = 0

-- (hammer2_off_t)-1
abbrev pub no_offset : ℕ
no_offset = 2 ^ 64 - 1

abbrev pub volume_align : ℕ
volume_align = 8 * 2 ^ 20

abbrev pub version_multi_volumes : ℕ
version_multi_volumes = 2

abbrev pub einval : ℕ
einval = 22

abbrev pub enxio : ℕ
enxio = 6

-- `struct hammer2_volume`: `id` is `none` for -1, `opened` is whether `dev` is set. The device
-- of a list then has its `path` and, since it is open, its `bdev_file`; `mediasize` is the size that the block
-- layer gives for it.
pub record Volume : Type 0 where
  pub id : Option ℕ
  pub opened : Bool
  pub mediasize : ℕ
  pub offset : ℕ
  pub size : ℕ

-- What is read of `struct hammer2_volume_data`; a uuid is the number of its 128 bits.
pub record VolumeData : Type 0 where
  pub magic : ℕ
  pub volu_size : ℕ
  pub version : ℕ
  pub volu_id : ℕ
  pub nvolumes : ℕ
  pub fsid : ℕ
  pub fstype : ℕ
  pub mirror_tid : ℕ
  pub total_size : ℕ
  pub icrc_sect0 : ℕ
  pub icrc_sect1 : ℕ
  pub icrc_volheader : ℕ
  pub volu_loff : ℕ → ℕ

abbrev pub is_present : Volume → Bool
is_present v = elim v.id [ none ↦ false | some n ↦ true ]

-- A `for` loop that returns at the first `i` for which a test fails: `left` turns from `i` on.
unfoldable pub any_from : (ℕ → Bool) → ℕ → ℕ → Bool
any_from bad zero i = false
any_from bad (suc left) i = bad i || any_from bad left (suc i)
