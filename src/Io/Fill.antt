-- ===== src/Io/Fill.antt =====
-- `hammer2_io_getblk`: a referenced dio, with its buffer read or made. What is in a buffer is left out, so
-- `HAMMER2_DOP_NEW` zeroes nothing here; a connection device (`hmp->rconn`) is left out too.
use linux_hammer.Base.{
  ℕ, suc, ◌-◌, Bool, true, false, not, ◌&&◌, ◌||◌, ◌==◌, ltb, leb, if◌then◌else◌, Option, none,
  some,
}
use linux_hammer.Io.{
  dio_psize, Held, nothing, folio, own, is_held, Dio, Hmp, radix_of, lbase_of, int_shift,
}
use linux_hammer.Io.Table.{dio_of, with_dio, Alloced, null, alloced, asserted, hammer2_io_alloc}

-- The errno of the kernel.
abbrev pub errno_eio : ℕ
errno_eio = 5

abbrev pub errno_enomem : ℕ
errno_enomem = 12

-- A folio of the page cache, by its size and whether it is up to date; `refused e` is the error `e + 1`,
-- and `no_memory` is `-ENOMEM`.
pub data Answer : Type 0 where
  got : ℕ → Bool → Answer
  no_memory : Answer
  refused : ℕ → Answer

-- The block layer, for the `pbase` of a dio: `read_folio` is `mapping_read_folio_gfp`, `grab_folio` is
-- `__filemap_get_folio`, `room` is whether `vmalloc` succeeds, and `read_error` is that of
-- `hammer2_io_buf_io`. `buf_only` is `hammer2_io_buf_only`.
pub record Media : Type 0 where
  pub buf_only : Bool
  pub read_folio : ℕ → Answer
  pub grab_folio : ℕ → Answer
  pub room : ℕ → Bool
  pub read_error : ℕ → ℕ

-- The error, and what the dio holds then.
abbrev pub Filled : Type 0
Filled = ℕ × Held

unfoldable pub hammer2_io_buf_get : Media → Bool → Dio → Filled
hammer2_io_buf_get media read dio =
    if not (media.room dio.pbase)
    then (errno_enomem, nothing)
    else (if read
        then (if media.read_error dio.pbase == 0
            then (0, own)
            else (media.read_error dio.pbase, nothing))
        else (0, own))

abbrev pub hammer2_io_folio_check : ℕ → ℕ
hammer2_io_folio_check size = if leb dio_psize size then 0 else errno_eio

unfoldable pub read_answer : Media → Dio → Answer → Filled
unfolding hammer2_io_buf_get
read_answer media dio (got size uptodate) =
    if hammer2_io_folio_check size == 0 then (0, folio) else (hammer2_io_folio_check size, nothing)
read_answer media dio no_memory = hammer2_io_buf_get media true dio
read_answer media dio (refused e) = (suc e, nothing)

unfoldable pub hammer2_bread : Media → Dio → Filled
unfolding read_answer hammer2_io_buf_get
hammer2_bread media dio =
    if media.buf_only
    then hammer2_io_buf_get media true dio
    else read_answer media dio (media.read_folio dio.pbase)

unfoldable pub grab_answer : Media → Dio → Answer → Filled
unfolding hammer2_io_buf_get
grab_answer media dio (got size uptodate) =
    if not (hammer2_io_folio_check size == 0)
    then (hammer2_io_folio_check size, nothing)
    else (if ltb dio_psize size && not uptodate then (errno_eio, nothing) else (0, folio))
grab_answer media dio no_memory = hammer2_io_buf_get media false dio
grab_answer media dio (refused e) = (suc e, nothing)

unfoldable pub hammer2_getblk_new : Media → Dio → Filled
unfolding grab_answer hammer2_io_buf_get
hammer2_getblk_new media dio =
    if media.buf_only
    then hammer2_io_buf_get media false dio
    else grab_answer media dio (media.grab_folio dio.pbase)

pub data Dop : Type 0 where
  dop_new : Dop
  dop_newnz : Dop
  dop_read : Dop
  dop_readq : Dop

abbrev pub creates : Dop → Bool
creates dop_new = true
creates dop_newnz = true
creates dop_read = false
creates dop_readq = false

-- The assertions of `hammer2_io_data`, which only `HAMMER2_DOP_NEW` calls here.
abbrev pub data_fails : Dop → ℕ → Dio → Bool
data_fails dop_new lbase dio =
    not (is_held dio.held)
    || ltb (lbase_of lbase) dio.pbase
    || leb dio_psize (lbase_of lbase - dio.pbase)
data_fails _ lbase dio = false

abbrev pub mark_dirty : Dop → Dio → Dio
mark_dirty op dio = if creates op then record dio { dirty = true } else dio

-- The end of `hammer2_io_getblk`, with the error and the buffer of the read; `none` is an assertion that fails.
unfoldable pub finish_fill : Filled → Dio → Option Dio
finish_fill (error, held) dio =
    if not (error == 0) && is_held held
    then none
    else some (record dio { held = held; error = error; good = error == 0 })

-- The whole buffer is made.
unfoldable pub finish_whole : Dop → Dio → Filled → Option Dio
unfolding finish_fill
finish_whole op dio (error, held) =
    finish_fill (error, held) (if error == 0 then mark_dirty op dio else dio)

unfoldable pub fill_whole : Media → Dop → Dio → Option Dio
unfolding finish_whole hammer2_getblk_new hammer2_bread
fill_whole media op dio =
    finish_whole op dio
      (if creates op then hammer2_getblk_new media dio else hammer2_bread media dio)

-- A part of it is.
unfoldable pub finish_part : Dop → ℕ → Dio → Filled → Option Dio
unfolding finish_fill
finish_part op lbase dio (error, held) =
    let filled : Dio = record dio { held = held } in
    if is_held held
    then (if not (error == 0) || data_fails op lbase filled
        then none
        else finish_fill (error, held) (mark_dirty op filled))
    else finish_fill (error, held) filled

unfoldable pub fill_part : Media → Dop → ℕ → Dio → Option Dio
unfolding finish_part hammer2_bread
fill_part media op lbase dio = finish_part op lbase dio (hammer2_bread media dio)

-- From the unlock of the table on.
unfoldable pub fill_dio : Media → Dop → ℕ → ℕ → Dio → Option Dio
unfolding fill_whole fill_part
fill_dio media op lbase lsize dio =
    if dio.good
    then (if data_fails op lbase dio then none else some (mark_dirty op dio))
    else (if is_held dio.held
        then none
        else (if dio.pbase == lbase_of lbase && dio_psize == lsize
            then fill_whole media op dio
            else fill_part media op lbase dio))

unfoldable pub fill_alloced : Media → Dop → ℕ → ℕ → Alloced → Alloced
unfolding fill_dio dio_of with_dio
fill_alloced media op lbase lsize null = null
fill_alloced media op lbase lsize asserted = asserted
fill_alloced media op lbase lsize (alloced hmp pbase) = elim (dio_of hmp pbase) [
  | none ↦ asserted
  | some d ↦ elim (fill_dio media op lbase lsize d) [
    | none ↦ asserted
    | some filled ↦ alloced (with_dio hmp pbase (λ d. filled)) pbase
  ]
]

abbrev pub is_readq : Dop → Bool
is_readq dop_readq = true
is_readq _ = false

unfoldable pub hammer2_io_getblk : ℕ → Media → Hmp → ℕ → ℕ → ℕ → Dop → Alloced
unfolding fill_alloced hammer2_io_alloc
hammer2_io_getblk now media hmp btype lbase lsize op =
    if not (int_shift (radix_of lbase) == lsize)
    then asserted
    else fill_alloced media op lbase lsize
        (hammer2_io_alloc now hmp lbase btype (not (is_readq op)))
