-- ===== src/Io/Reach.antt =====
-- The table of a device after any sequence of the operations.
use linux_hammer.Base.{ℕ, ◌<◌, ◌≡◌, ◌≢◌, refl, subst, ◌∙◌, Bool, some, List, [], arith}
use linux_hammer.Base.Family.{tally-none}
use linux_hammer.Ondisk.Header.{Device, Icrc32}
use linux_hammer.Ondisk.Load.{Dev, Loading, loading, hammer2_init_volumes, mount_dev}
use linux_hammer.Ondisk.Known.{AllFit}
use linux_hammer.Ondisk.Mounted.{IsSmall}
use linux_hammer.Ondisk.Partition.{mounted_aligned, mounted_IsOpened}
use linux_hammer.Io.{iohash_size, Dio, Hmp, pbase_of, radix_of, int_shift}
use linux_hammer.Io.Table.{dio_of, alloced, asserted}
use linux_hammer.Io.Fill.{Media, Dop, hammer2_io_getblk}
use linux_hammer.Io.Put.{Write, hammer2_io_ref, hammer2_io_setflags}
use linux_hammer.Io.Shared.{Env, putblk, hammer2_io_dedup_set, hammer2_io_dedup_delete}
use linux_hammer.Io.Invariant.{free_of, IsChain, Inv}
use linux_hammer.Io.Alloc.{IsAligned, IsOpened, IsGot}
use linux_hammer.Io.Putblk.{setflags-IsPut}
use linux_hammer.Io.Returned.{
  IsTableOf, IsReturned, returned, put-IsReturned, set-IsReturned, delete-IsReturned,
  getblk_of-IsGot, is_got, not_asserted, ref-Inv, ref-dev,
}

abbrev pub start_table : Dev → Hmp
start_table dev = record { iohash = λ slot. []; iofree_count = 0; io_iterator = 0; dev = dev }

-- One operation that returns. Who refers to a dio or sets its flags has a reference to it.
pub data Step (hmp : Hmp) : Hmp → Type 0 where
  gets :
      {next : Hmp} (now : ℕ) (media : Media) (btype lbase p : ℕ) (op : Dop)
      → hammer2_io_getblk now media hmp btype lbase (int_shift (radix_of lbase)) op ≡ alloced next p
      → Step hmp next
  puts :
      {next : Hmp} (env : Env) (p : ℕ) (d : Dio) (ws : List Write)
      → dio_of hmp p ≡ some d
      → putblk env hmp p ≡ some (next, ws)
      → Step hmp next
  refers : (p : ℕ) (d : Dio) → dio_of hmp p ≡ some d → 0 < d.refs → Step hmp (hammer2_io_ref hmp p)
  flags :
      (through : Bool) (p : ℕ) (d : Dio)
      → dio_of hmp p ≡ some d
      → 0 < d.refs
      → Step hmp (hammer2_io_setflags through hmp p)
  shares :
      {next : Hmp} (env : Env) (data_off btype : ℕ) (ws : List Write)
      → hammer2_io_dedup_set env hmp data_off btype ≡ some (next, ws)
      → Step hmp next
  unshares :
      {next : Hmp} (env : Env) (btype data_off bytes : ℕ) (ws : List Write)
      → hammer2_io_dedup_delete env hmp btype data_off bytes ≡ some (next, ws)
      → Step hmp next

pub data Reach (dev : Dev) : Hmp → Type 0 where
  begin : Reach dev (start_table dev)
  later : {hmp next : Hmp} → Reach dev hmp → Step hmp next → Reach dev next

start-Inv : (dev : Dev) → Inv (start_table dev)
unfolding IsChain free_of
start-Inv dev = record {
  chains = λ slot. tt;
  counted = omega (arith, tally-none free_of iohash_size (λ slot. []) (λ slot. refl));
}

step-IsTableOf :
    (dev : Dev) (hmp next : Hmp)
    → IsAligned dev
    → IsTableOf dev hmp
    → Step hmp next
    → IsTableOf dev next
unfolding IsTableOf
step-IsTableOf dev hmp next aligned (inv, same) (gets now media btype lbase p op returns) =
    let got = getblk_of-IsGot now media dev hmp btype lbase op aligned (inv, same) in
    let (owned, kept, _) =
      is_got dev (pbase_of lbase) next p (subst (IsGot dev (pbase_of lbase)) returns got) in
    (owned.inv, kept)
step-IsTableOf dev hmp next aligned (inv, same) (puts env p d ws at returns) =
    returned dev next ws
      (subst (IsReturned dev) returns (put-IsReturned env dev hmp p d at (inv, same)))
step-IsTableOf dev hmp next aligned (inv, same) (refers p d at used) =
    (ref-Inv hmp p d at used inv, ref-dev hmp p ∙ same)
step-IsTableOf dev hmp next aligned (inv, same) (flags through p d at used) =
    let (put, _) = setflags-IsPut through hmp p d at used inv in (put.inv, put.dev ∙ same)
step-IsTableOf dev hmp next aligned (inv, same) (shares env data_off btype ws returns) =
    returned dev next ws (
      subst (IsReturned dev) returns
        (set-IsReturned env dev hmp data_off btype aligned (inv, same)))
step-IsTableOf dev hmp next aligned (inv, same) (unshares env btype data_off bytes ws returns) =
    returned dev next ws (
      subst (IsReturned dev) returns
        (delete-IsReturned env dev hmp btype data_off bytes aligned (inv, same)))

reach-IsTableOf : (dev : Dev) (hmp : Hmp) → IsAligned dev → Reach dev hmp → IsTableOf dev hmp
unfolding IsTableOf
reach-IsTableOf dev hmp aligned begin = (start-Inv dev, refl)
reach-IsTableOf dev next aligned (later {hmp = hmp} before step) =
    step-IsTableOf dev hmp next aligned (reach-IsTableOf dev hmp aligned before) step

-- However the dios of a device are got, put, referenced, marked and shared, from an empty table on and with
-- volumes that start at multiples of 1 GiB: every chain has sound dios of its own blocks, no block has
-- two, and `iofree_count` is the number of the dios without a reference, modulo 2^32.
pub table_holds : (dev : Dev) (hmp : Hmp) → IsAligned dev → Reach dev hmp → Inv hmp
unfolding IsTableOf
table_holds dev hmp aligned reached = let (inv, _) = reach-IsTableOf dev hmp aligned reached in inv

-- In a table that is reached so, of open volumes, `hammer2_io_getblk` fails no assertion, whatever the
-- offset, the operation and the answers of the block layer, if the size is the int `1 << radix`.
getblk_asserts :
    (dev : Dev) (hmp : Hmp) (now : ℕ) (media : Media) (btype lbase : ℕ) (op : Dop)
    → IsAligned dev
    → IsOpened dev
    → Reach dev hmp
    → hammer2_io_getblk now media hmp btype lbase (int_shift (radix_of lbase)) op ≢ asserted
getblk_asserts dev hmp now media btype lbase op aligned opened reached e =
    not_asserted dev (pbase_of lbase) opened (
      subst (IsGot dev (pbase_of lbase)) e (
        getblk_of-IsGot now media dev hmp btype lbase op aligned
          (reach-IsTableOf dev hmp aligned reached)))

-- On a file system that `hammer2_init_volumes` has accepted, of devices of less than 2^58 bytes each,
-- `hammer2_io_getblk` never fails an assertion: after any sequence of the operations, whatever the offset
-- and the answers of the block layer, if the size is the int `1 << radix` of the offset's radix.
pub mounted_getblk_asserts :
    (icrc32 : Icrc32) (devices : List Device) (l : Loading) (hmp : Hmp) (now : ℕ) (media : Media)
    (btype lbase : ℕ) (op : Dop)
    → hammer2_init_volumes icrc32 devices ≡ loading l
    → AllFit IsSmall devices
    → Reach (mount_dev l) hmp
    → hammer2_io_getblk now media hmp btype lbase (int_shift (radix_of lbase)) op ≢ asserted
unfolding IsAligned IsOpened
mounted_getblk_asserts icrc32 devices l hmp now media btype lbase op returns small reached =
    getblk_asserts (mount_dev l) hmp now media btype lbase op
      (mounted_aligned icrc32 devices l returns small)
      (mounted_IsOpened icrc32 devices l returns small) reached
