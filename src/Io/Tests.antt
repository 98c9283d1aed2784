-- ===== src/Io/Tests.antt =====
-- A buffer that is made, marked, put and cleaned, on a device of one volume.
use linux_hammer.Base.{
  Bool-cases, Option, none, ◌==◌, ℕ, ◌+◌, ◌*◌, ◌^◌, ◌≡◌, refl, inl, inr, true, false, some, List,
  [], ◌∷◌, arith,
}
use linux_hammer.Ondisk.{Volume}
use linux_hammer.Ondisk.Load.{Dev, hammer2_get_volume}
use linux_hammer.Io.{dio_psize, folio, Dio, Hmp}
use linux_hammer.Io.Dedup.{
  hammer2_dedup_mask, dedup_delete, dedup_assert, set_all, IsBlock, touches, IsApart, AllApart,
  dedup_mask_touches, deleted_stays_clear,
}
use linux_hammer.Io.Table.{
  hammer2_io_hashv, dio_of, new_dio, Alloced, null, alloced, asserted, hammer2_io_alloc,
}
use linux_hammer.Io.Fill.{Media, got, dop_new, fill_dio, hammer2_io_getblk}
use linux_hammer.Io.Put.{Write, hammer2_io_putblk}
use linux_hammer.Io.Invariant.{Inv}
use linux_hammer.Io.Alloc.{IsAligned}
use linux_hammer.Io.Drop.{IsPut}
use linux_hammer.Io.Putblk.{putblk_writes}
use linux_hammer.Io.Unmount.{hammer2_io_hash_cleanup_all, AllFree, cleanup_all_frees}
use linux_hammer.Io.Reach.{puts, start_table, Reach, begin, later, gets, table_holds}

abbrev only_volume : Volume
only_volume = record { id = some 0; opened = true; mediasize = 2 ^ 31; offset = 0; size = 2 ^ 31 }

abbrev one_dev : Dev
one_dev = record { nvolumes = 1; total_size = 2 ^ 31; volumes = λ i. only_volume }

one_dev-IsAligned : IsAligned one_dev
unfolding IsAligned
one_dev-IsAligned p i at = refl

abbrev fine_media : Media
fine_media = record {
  buf_only = false;
  read_folio = λ p. got dio_psize true;
  grab_folio = λ p. got dio_psize true;
  room = λ p. true;
  read_error = λ p. 0;
}

-- The third KiB of the buffer at 3 * 64 KiB.
abbrev third_kib : ℕ
third_kib = 3 * 65536 + 2 * 1024 + 10

abbrev hmp_of : Alloced → Hmp
hmp_of null = start_table one_dev
hmp_of (alloced hmp p) = hmp
hmp_of asserted = start_table one_dev

got_table : Hmp
unfolding hammer2_io_getblk
got_table = hmp_of (hammer2_io_getblk 7 fine_media (start_table one_dev) 3 third_kib 1024 dop_new)

got_returned :
    hammer2_io_getblk 7 fine_media (start_table one_dev) 3 third_kib 1024 dop_new
    ≡ alloced got_table (3 * 65536)
unfolding hammer2_io_getblk hammer2_io_alloc fill_dio dio_of hammer2_get_volume got_table
got_returned = refl

abbrev got_dio : Dio
got_dio = record (new_dio (3 * 65536) 0 3) {
  held = folio;
  good = true;
  dirty = true;
  act = 6;
  ticks = 7;
}

got_there : dio_of got_table (3 * 65536) ≡ some got_dio
unfolding hammer2_io_getblk hammer2_io_alloc fill_dio dio_of hammer2_get_volume got_table
got_there = refl

got_reached : Reach one_dev got_table
got_reached = later begin (gets 7 fine_media 3 third_kib (3 * 65536) dop_new got_returned)

table_holds_example : Inv got_table
table_holds_example = table_holds one_dev got_table one_dev-IsAligned got_reached

got_Inv : Inv got_table
got_Inv = table_holds one_dev got_table one_dev-IsAligned got_reached

putblk_writes_example :
    (next : Hmp) × (hammer2_io_putblk 9 100 0 false got_table (3 * 65536)
      ≡ some (next, record { block = 3 * 65536; through = false } ∷ []))
    × IsPut got_table next (3 * 65536)
putblk_writes_example = putblk_writes 9 100 0 false got_table (3 * 65536) got_dio got_there got_Inv

third-IsBlock : IsBlock got_dio third_kib 1024
third-IsBlock = record {
  after = omega arith;
  aligned = omega arith;
  starts = omega arith;
  within = omega arith;
}

dedup_mask_touches_example :
    hammer2_dedup_mask got_dio third_kib 1024 2 ≡ touches got_dio third_kib 1024 2
dedup_mask_touches_example = dedup_mask_touches got_dio third_kib 1024 2 third-IsBlock (omega arith)

-- The KiB before it and the 4 KiB after it.
abbrev beside : List ℕ
beside = (3 * 65536 + 1024 + 10) ∷ (3 * 65536 + 4096 + 12) ∷ []

beside_apart : AllApart got_dio third_kib 1024 beside
unfolding AllApart IsApart
beside_apart = (
  record { after = omega arith; aligned = omega arith; starts = omega arith; within = omega arith },
  inr (omega arith),
  (
    record {
      after = omega arith;
      aligned = omega arith;
      starts = omega arith;
      within = omega arith;
    },
    inl (omega arith),
    tt,
  ),
)

deleted_stays_clear_example :
    dedup_assert third_kib 1024 (set_all beside (dedup_delete third_kib 1024 got_dio)) ≡ true
deleted_stays_clear_example =
    deleted_stays_clear got_dio third_kib 1024 beside third-IsBlock beside_apart

abbrev put_of : Option (Hmp × List Write) → Hmp
put_of none = start_table one_dev
put_of (some (hmp, ws)) = hmp

-- The buffer put again.
put_table : Hmp
unfolding hammer2_io_putblk
put_table = put_of (hammer2_io_putblk 9 100 0 false got_table (3 * 65536))

put_returned :
    hammer2_io_putblk 9 100 0 false got_table (3 * 65536)
    ≡ some (put_table, record { block = 3 * 65536; through = false } ∷ [])
unfolding put_table hammer2_io_putblk got_table hammer2_io_getblk hammer2_io_alloc fill_dio dio_of
    hammer2_get_volume
put_returned = refl

put_Inv : Inv put_table
put_Inv = table_holds one_dev put_table one_dev-IsAligned (
    later got_reached (
      puts (record { now = 9; hz = 100; limit = 0; device_error = false }) (3 * 65536) got_dio
        (record { block = 3 * 65536; through = false } ∷ []) got_there put_returned))

put_free : (s : ℕ) → AllFree (put_table.iohash s)
unfolding put_table hammer2_io_putblk got_table hammer2_io_getblk hammer2_io_alloc fill_dio dio_of
    hammer2_get_volume AllFree
put_free s = elim (Bool-cases (hammer2_io_hashv (3 * 65536) == s)) [
  | inl e ↦ rw e (refl, tt)
  | inr e ↦ rw e tt
]

cleanup_all_frees_example :
    (next : Hmp) × (hammer2_io_hash_cleanup_all put_table ≡ some (next, 0))
    × ((s : ℕ) → next.iohash s ≡ [])
    × (next.iofree_count ≡ 0)
cleanup_all_frees_example = cleanup_all_frees put_table put_Inv put_free
