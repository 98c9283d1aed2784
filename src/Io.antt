-- ===== src/Io.antt =====
-- sys/fs/hammer2/hammer2_io.c: the buffers of a device (`hammer2_io_t`), their table and their references.
use linux_hammer.Base.{
  ℕ, zero, suc, ◌+◌, ◌-◌, ◌*◌, ◌/◌, ◌%◌, ◌^◌, Bool, true, false, not, ◌&&◌, ◌||◌, ◌==◌,
  if◌then◌else◌, Option, none, some, List, [], ◌∷◌,
}
use linux_hammer.Ondisk.Load.{Dev}
pub mod Dedup
pub mod Table
pub mod Fill
pub mod Put
pub mod Invariant
pub mod Change
pub mod Owned
pub mod Alloc
pub mod Getblk
pub mod Got
pub mod Cleaned
pub mod Sweep
pub mod Drop
pub mod Putblk
pub mod Shared
pub mod Unmount
pub mod Returned
pub mod Reach
mod Tests

abbrev pub dio_psize : ℕ
dio_psize = 65536

abbrev pub iohash_size : ℕ
iohash_size = 32768

-- What the buffer is: `dio->folio`, or the buffer of its own, `dio->buf`.
pub data Held : Type 0 where
  nothing : Held
  folio : Held
  own : Held

-- `struct hammer2_io`. `refs` is the word less its flags, which are `good`, `dirty` and `flush`: there are
-- fewer than 2^56 references. The masks are functions of the number of the bit.
pub record Dio : Type 0 where
  pub held : Held
  pub refs : ℕ
  pub good : Bool
  pub dirty : Bool
  pub flush : Bool
  pub dbase : ℕ
  pub pbase : ℕ
  pub act : ℕ
  pub btype : ℕ
  pub ticks : ℕ
  pub error : ℕ
  pub dedup_valid : ℕ → Bool
  pub dedup_alloc : ℕ → Bool

-- What the functions read and write of `hammer2_dev_t`; a chain of the table is a list.
pub record Hmp : Type 0 where
  pub iohash : ℕ → List Dio
  pub iofree_count : ℕ
  pub io_iterator : ℕ
  pub dev : Dev

abbrev pub is_held : Held → Bool
is_held nothing = false
is_held folio = true
is_held own = true

-- `dio->psize` is that of every dio.
abbrev pub radix_of : ℕ → ℕ
radix_of data_off = data_off % 64

abbrev pub lbase_of : ℕ → ℕ
lbase_of data_off = data_off / 64 * 64

abbrev pub pbase_of : ℕ → ℕ
pbase_of data_off = data_off / dio_psize * dio_psize

-- `1 << n` of an int, widened to 64 bits: the machine takes the count modulo 32, and bit 31 is the sign.
abbrev pub int_shift : ℕ → ℕ
int_shift n = if n % 32 == 31 then 2 ^ 64 - 2 ^ 31 else 2 ^ (n % 32)

-- `1 << radix`, and 0 for no radix.
abbrev pub lsize_of : ℕ → ℕ
lsize_of data_off = if radix_of data_off == 0 then 0 else int_shift (radix_of data_off)
