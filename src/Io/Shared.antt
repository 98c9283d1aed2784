-- ===== src/Io/Shared.antt =====
-- `hammer2_io_dedup_set`, `hammer2_io_dedup_delete` and `hammer2_io_dedup_assert` on the table.
use linux_hammer.Base.{
  ℕ, ◌+◌, ◌%◌, ◌^◌, Bool, true, false, not, ◌||◌, ◌==◌, ltb, if◌then◌else◌, Option, none, some,
  List, [],
}
use linux_hammer.Freemap.Bmap.{bref_type_data}
use linux_hammer.Io.{dio_psize, Dio, Hmp, lbase_of}
use linux_hammer.Io.Dedup.{dedup_set, dedup_delete, dedup_assert}
use linux_hammer.Io.Table.{dio_of, with_dio, Alloced, null, alloced, asserted, hammer2_io_alloc}
use linux_hammer.Io.Put.{Write, hammer2_io_putblk}

-- The time, `hz`, `hammer2_dio_limit` and whether the device is in error.
pub record Env : Type 0 where
  pub now : ℕ
  pub hz : ℕ
  pub limit : ℕ
  pub device_error : Bool

abbrev pub putblk : Env → Hmp → ℕ → Option (Hmp × List Write)
putblk env hmp p = hammer2_io_putblk env.now env.hz env.limit env.device_error hmp p

-- The masks of the dio are changed, and it is put.
unfoldable pub change_masks : Env → (Dio → Dio) → Hmp → Alloced → Option (Hmp × List Write)
unfolding hammer2_io_putblk with_dio
change_masks env f hmp null = some (hmp, [])
change_masks env f hmp (alloced next p) = putblk env (with_dio next p f) p
change_masks env f hmp asserted = none

unfoldable pub hammer2_io_dedup_set : Env → Hmp → ℕ → ℕ → Option (Hmp × List Write)
unfolding change_masks hammer2_io_alloc dedup_set
hammer2_io_dedup_set env hmp data_off btype =
    change_masks env (dedup_set data_off) hmp (hammer2_io_alloc env.now hmp data_off btype true)

-- "bad data_off": the masks stay as they are.
unfoldable pub delete_masks : ℕ → ℕ → Dio → Dio
unfolding dedup_delete
delete_masks data_off bytes dio =
    if ltb data_off dio.pbase || ltb (dio.pbase + dio_psize) ((lbase_of data_off + bytes) % 2 ^ 64)
    then dio
    else dedup_delete data_off bytes dio

unfoldable pub hammer2_io_dedup_delete : Env → Hmp → ℕ → ℕ → ℕ → Option (Hmp × List Write)
unfolding change_masks hammer2_io_alloc delete_masks
hammer2_io_dedup_delete env hmp btype data_off bytes =
    if lbase_of data_off == 0 || not (btype == bref_type_data)
    then some (hmp, [])
    else change_masks env (delete_masks data_off bytes) hmp
        (hammer2_io_alloc env.now hmp data_off btype false)

unfoldable pub assert_masks : Env → ℕ → ℕ → Hmp → Alloced → Option (Hmp × List Write)
unfolding dio_of hammer2_io_putblk dedup_assert
assert_masks env data_off bytes hmp null = some (hmp, [])
assert_masks env data_off bytes hmp asserted = none
assert_masks env data_off bytes hmp (alloced next p) = elim (dio_of next p) [
  | none ↦ none
  | some d ↦ if dedup_assert data_off bytes d then putblk env next p else none
]

unfoldable pub hammer2_io_dedup_assert : Env → Hmp → ℕ → ℕ → Option (Hmp × List Write)
unfolding assert_masks hammer2_io_alloc
hammer2_io_dedup_assert env hmp data_off bytes =
    assert_masks env data_off bytes hmp (hammer2_io_alloc env.now hmp data_off bref_type_data false)
