-- ===== src/Io/Put.antt =====
-- `hammer2_io_putblk` and what is built on it, with the cleaning of the table. The buffer that a write
-- is given is left out: a write is named by its dio.
use linux_hammer.Base.{
  ℕ, zero, suc, ◌+◌, ◌-◌, ◌*◌, ◌/◌, ◌%◌, ◌^◌, Bool, true, false, not, ◌&&◌, ◌||◌, ◌==◌, ltb, leb,
  if◌then◌else◌, Option, none, some, List, [], ◌∷◌,
}
use linux_hammer.Base.Family.{put}
use linux_hammer.Io.{iohash_size, Held, nothing, folio, own, is_held, Dio, Hmp}
use linux_hammer.Io.Table.{dio_of, with_dio, inc_free, add_ref}

-- A block given to the page cache or the device; `through` is whether it is written out at once.
pub record Write : Type 0 where
  pub block : ℕ
  pub through : Bool

abbrev pub is_folio : Held → Bool
is_folio nothing = false
is_folio folio = true
is_folio own = false

-- The walk over a chain: the dios that stay, and how many are freed; `none` is an assertion that fails.
-- The clock does not run back.
abbrev pub cool : ℕ → ℕ → Dio → Dio
cool now hz d = if d.act == 0 then d else record d { act = d.act - (now - d.ticks) / hz - 1 }

unfoldable pub stays_cached : ℕ → ℕ → Dio → Bool
stays_cached now hz d = not (d.refs == 0) || not ((cool now hz d).act == 0)

unfoldable pub clean_chain : ℕ → ℕ → List Dio → Option (List Dio × ℕ)
unfolding stays_cached
clean_chain now hz [] = some ([], 0)
clean_chain now hz (d ∷ ds) = elim (clean_chain now hz ds) [
  | none ↦ none
  | some (kept, freed) ↦
      if stays_cached now hz d
      then some ((if d.refs == 0 then cool now hz d else d) ∷ kept, freed)
      else (if is_folio d.held then none else some (kept, freed + 1))
]

-- The loop, with `maxscan` turns left; `i` is `io_iterator`.
unfoldable pub clean_slots : ℕ → ℕ → ℕ → ℕ → Hmp → Option Hmp
unfolding clean_chain
clean_slots now hz zero count hmp = some hmp
clean_slots now hz (suc maxscan) count hmp = elim (count == 0) [
  | true ↦ some hmp
  | false ↦
      let slot = hmp.io_iterator % iohash_size in
      elim (clean_chain now hz (hmp.iohash slot)) [
        | none ↦ none
        | some (kept, freed) ↦ clean_slots now hz maxscan (count - freed) (record hmp {
          iohash = put hmp.iohash slot kept;
          io_iterator = (hmp.io_iterator + 1) % 2 ^ 32;
          iofree_count = (hmp.iofree_count + freed * (2 ^ 32 - 1)) % 2 ^ 32;
        })
      ]
]

-- `iofree_count` is an int: from 2^31 on it is negative.
abbrev pub count_to_free : ℕ → ℕ → ℕ
count_to_free free limit = if leb (2 ^ 31) free then 0 else free + 32 - limit

-- The iterator is read once before the loop and once in each turn: it is one ahead of `i` after it.
unfoldable pub clean_table : ℕ → ℕ → ℕ → ℕ → Hmp → Option Hmp
unfolding clean_slots
clean_table now hz maxscan count hmp =
    if count == 0 then some hmp else elim (clean_slots now hz maxscan count hmp) [
      | none ↦ none
      | some next ↦ some (record next { io_iterator = (next.io_iterator + 1) % 2 ^ 32 })
    ]

unfoldable pub hammer2_io_hash_cleanup : ℕ → ℕ → ℕ → Hmp → Option Hmp
unfolding clean_table
hammer2_io_hash_cleanup now hz limit hmp =
    clean_table now hz iohash_size (count_to_free hmp.iofree_count limit) hmp

abbrev pub dio_limit_of : ℕ → ℕ
dio_limit_of limit =
    if ltb limit 256 then 256 else (if ltb (1024 * 1024) limit then 1024 * 1024 else limit)

-- The end of `hammer2_io_putblk`, under the lock of the table. `limit` is `hammer2_dio_limit`.
unfoldable pub put_cleanup : ℕ → ℕ → ℕ → Hmp → Option Hmp
unfolding hammer2_io_hash_cleanup
put_cleanup now hz limit hmp =
    if ltb hmp.iofree_count (2 ^ 31) && ltb (dio_limit_of limit) hmp.iofree_count
    then hammer2_io_hash_cleanup now hz (dio_limit_of limit) hmp
    else some hmp

-- The drop under the lock of the dio.
abbrev pub drop_ref : Dio → Dio
drop_ref d =
    if d.refs == 1
    then record d { refs = 0; good = false; dirty = false; held = nothing }
    else record d { refs = d.refs - 1 }

-- What the last drop writes.
unfoldable pub written : Bool → Dio → List Write
written device_error d =
    if d.refs == 1 && is_held d.held && d.good && d.dirty && not device_error
    then record { block = d.pbase; through = d.flush } ∷ []
    else []

-- The first part of `hammer2_io_putblk`: the table, the writes, and whether it was the last drop.
unfoldable pub put_drop : Bool → Hmp → ℕ → Dio → Hmp × List Write × Bool
unfolding with_dio written
put_drop device_error hmp pbase d =
    if d.refs == 0
    then (hmp, [], false)
    else (let next = with_dio hmp pbase drop_ref in
        if d.refs == 1
        then (
          record next { iofree_count = inc_free hmp.iofree_count },
          written device_error d,
          true,
        )
        else (next, [], false))

-- The rest, after the last drop.
unfoldable pub put_rest : ℕ → ℕ → ℕ → Hmp × List Write × Bool → Option (Hmp × List Write)
unfolding put_cleanup
put_rest now hz limit (next, writes, false) = some (next, writes)
put_rest now hz limit (next, writes, true) = elim (put_cleanup now hz limit next) [
  | none ↦ none
  | some clean ↦ some (clean, writes)
]

-- The table and the writes; `none` is an assertion that fails.
unfoldable pub hammer2_io_putblk : ℕ → ℕ → ℕ → Bool → Hmp → ℕ → Option (Hmp × List Write)
unfolding dio_of put_drop put_rest
hammer2_io_putblk now hz limit device_error hmp pbase = elim (dio_of hmp pbase) [
  | none ↦ none
  | some d ↦ put_rest now hz limit (put_drop device_error hmp pbase d)
]

unfoldable pub hammer2_io_ref : Hmp → ℕ → Hmp
unfolding with_dio
hammer2_io_ref hmp pbase = with_dio hmp pbase add_ref

abbrev pub add_flags : Bool → Dio → Dio
add_flags through d = record d { dirty = true; flush = through || d.flush }

-- `hammer2_io_setflags`, for the flags `HAMMER2_DIO_DIRTY` and, if `through`, `HAMMER2_DIO_FLUSH`.
unfoldable pub hammer2_io_setflags : Bool → Hmp → ℕ → Hmp
unfolding with_dio
hammer2_io_setflags through hmp pbase = with_dio hmp pbase (add_flags through)

unfoldable pub hammer2_io_bdwrite : ℕ → ℕ → ℕ → Bool → Hmp → ℕ → Option (Hmp × List Write)
unfolding hammer2_io_putblk hammer2_io_setflags
hammer2_io_bdwrite now hz limit device_error hmp pbase =
    hammer2_io_putblk now hz limit device_error (hammer2_io_setflags false hmp pbase) pbase

-- `hammer2_io_bawrite` does the same.
unfoldable pub hammer2_io_bwrite : ℕ → ℕ → ℕ → Bool → Hmp → ℕ → Option (Hmp × List Write)
unfolding hammer2_io_putblk hammer2_io_setflags
hammer2_io_bwrite now hz limit device_error hmp pbase =
    hammer2_io_putblk now hz limit device_error (hammer2_io_setflags true hmp pbase) pbase
