-- ===== src/Io/Table.antt =====
-- The table of a device's dios: `hammer2_io_hash_lookup`, `hammer2_io_hash_enter`, `hammer2_io_alloc`
-- and `hammer2_io_hash_cleanup`. A dio is named by its `pbase`: the table has one for each.
use linux_hammer.Base.{
  ℕ, ◌+◌, ◌-◌, ◌/◌, ◌%◌, ◌^◌, Bool, false, not, ◌||◌, ◌==◌, ltb, if◌then◌else◌, Option, none, some,
  List, [], ◌∷◌,
}
use linux_hammer.Base.Family.{put}
use linux_hammer.Freemap.Iterate.{level1_size}
use linux_hammer.Ondisk.Load.{no_volume_at, volume_at, unopened, hammer2_get_volume}
use linux_hammer.Io.{iohash_size, nothing, Dio, Hmp, lbase_of, pbase_of, lsize_of}

-- The sum of two ints is cut to the bits of the mask.
abbrev pub hammer2_io_hashv : ℕ → ℕ
hammer2_io_hashv pbase = (pbase + pbase / 2 ^ 16) % iohash_size

-- The walk down a chain to the dio of `pbase`.
unfoldable pub find : ℕ → List Dio → Option Dio
find pbase [] = none
find pbase (d ∷ ds) = let rest = find pbase ds in if d.pbase == pbase then some d else rest

-- A change of that dio.
unfoldable pub update_dio : ℕ → (Dio → Dio) → List Dio → List Dio
update_dio pbase f [] = []
update_dio pbase f (d ∷ ds) =
    let rest = update_dio pbase f ds in if d.pbase == pbase then f d ∷ ds else d ∷ rest

-- `*xiop = dio`, after the walk to the end of the chain.
unfoldable pub add_last : Dio → List Dio → List Dio
add_last dio [] = dio ∷ []
add_last dio (d ∷ ds) = d ∷ add_last dio ds

unfoldable pub dio_of : Hmp → ℕ → Option Dio
unfolding find
dio_of hmp pbase = find pbase (hmp.iohash (hammer2_io_hashv pbase))

unfoldable pub with_dio : Hmp → ℕ → (Dio → Dio) → Hmp
unfolding update_dio
with_dio hmp pbase f =
    let slot = hammer2_io_hashv pbase in
    record hmp { iohash = put hmp.iohash slot (update_dio pbase f (hmp.iohash slot)) }

-- `atomic_add_int(&hmp->iofree_count, 1)`, and -1
abbrev pub inc_free : ℕ → ℕ
inc_free n = (n + 1) % 2 ^ 32

abbrev pub dec_free : ℕ → ℕ
dec_free n = (n + (2 ^ 32 - 1)) % 2 ^ 32

abbrev pub add_ref : Dio → Dio
add_ref d = record d { refs = d.refs + 1 }

-- A reference to a dio that is in the table.
unfoldable pub take_ref : Hmp → Dio → Hmp
unfolding with_dio
take_ref hmp d =
    let next = with_dio hmp d.pbase add_ref in
    if d.refs == 0 then record next { iofree_count = dec_free hmp.iofree_count } else next

-- The table, with a reference to the dio of `pbase` if it has one.
unfoldable pub hammer2_io_hash_lookup : Hmp → ℕ → Option Hmp
unfolding dio_of take_ref
hammer2_io_hash_lookup hmp pbase = elim (dio_of hmp pbase) [
  | none ↦ none
  | some d ↦ some (take_ref hmp d)
]

-- The dio is entered at the end of its chain, or the one that is there is referenced.
unfoldable pub hammer2_io_hash_enter : Hmp → Dio → Hmp
unfolding dio_of take_ref add_last
hammer2_io_hash_enter hmp dio =
    let slot = hammer2_io_hashv dio.pbase in
    elim (dio_of hmp dio.pbase) [
      | none ↦ record hmp { iohash = put hmp.iohash slot (add_last dio (hmp.iohash slot)) }
      | some d ↦ take_ref hmp d
    ]

-- A new dio, zeroed but for what `hammer2_io_alloc` sets.
abbrev pub new_dio : ℕ → ℕ → ℕ → Dio
new_dio pbase dbase btype = record {
  held = nothing;
  refs = 1;
  good = false;
  dirty = false;
  flush = false;
  dbase = dbase;
  pbase = pbase;
  act = 5;
  btype = btype;
  ticks = 0;
  error = 0;
  dedup_valid = λ i. false;
  dedup_alloc = λ i. false;
}

-- `null`, or the dio of `pbase`, locked; `asserted` if a `KKASSERT` fails.
pub data Alloced : Type 0 where
  null : Alloced
  alloced : Hmp → ℕ → Alloced
  asserted : Alloced

-- "illegal base"
abbrev pub is_illegal : ℕ → Bool
is_illegal data_off =
    pbase_of data_off == 0
    || not (
        pbase_of ((lbase_of data_off + lsize_of data_off + (2 ^ 64 - 1)) % 2 ^ 64)
        == pbase_of data_off)

abbrev pub touch : ℕ → Dio → Dio
touch now d = record d { ticks = now; act = if ltb d.act 10 then d.act + 1 else d.act }

-- From `dio->ticks` on, with `hammer2_assert_io_refs`, which the callers assert again of the dio returned.
unfoldable pub end_alloc : ℕ → Hmp → ℕ → Alloced
unfolding dio_of with_dio
end_alloc now hmp pbase =
    let next = with_dio hmp pbase (touch now) in
    elim (dio_of next pbase) [
      | none ↦ asserted
      | some d ↦ if d.refs == 0 then asserted else alloced next pbase
    ]

-- The dio of an address that has none, from the volume that it is in.
unfoldable pub create_dio : ℕ → Hmp → ℕ → ℕ → Alloced
unfolding hammer2_io_hash_enter end_alloc
create_dio now hmp pbase btype = elim (hammer2_get_volume hmp.dev pbase) [
  | no_volume_at ↦ null
  | volume_at i ↦
      let dbase = (hmp.dev.volumes i).offset in
      if dbase % level1_size == 0
      then end_alloc now (hammer2_io_hash_enter hmp (new_dio pbase dbase btype)) pbase
      else asserted
  | unopened ↦ asserted
]

unfoldable pub hammer2_io_alloc : ℕ → Hmp → ℕ → ℕ → Bool → Alloced
unfolding hammer2_io_hash_lookup create_dio end_alloc
hammer2_io_alloc now hmp data_off btype createit =
    let pbase = pbase_of data_off in
    if is_illegal data_off then null else elim (hammer2_io_hash_lookup hmp pbase) [
      | some next ↦ end_alloc now next pbase
      | none ↦ if createit then create_dio now hmp pbase btype else null
    ]
