-- ===== src/Io/Getblk.antt =====
-- `hammer2_io_getblk`: no assertion fails, and the dio returned is sound.
use linux_hammer.Base.{
  ℕ, ◌<◌, ◌≡◌, refl, sym, ◌∙◌, inl, inr, Bool, true, false, not, ◌&&◌, ◌||◌, ◌==◌, ltb, leb,
  if◌then◌else◌, Option, none, some, Bool-cases, arith,
}
use linux_hammer.Io.{dio_psize, Held, is_held, Dio, pbase_of, lbase_of}
use linux_hammer.Io.Fill.{
  Answer, got, no_memory, refused, Media, Filled, hammer2_io_buf_get, read_answer, hammer2_bread,
  grab_answer, hammer2_getblk_new, Dop, dop_new, dop_newnz, dop_read, dop_readq, creates,
  data_fails, mark_dirty, finish_fill, finish_whole, fill_whole, finish_part, fill_part, fill_dio,
}
use linux_hammer.Io.Invariant.{IsSound}

-- There is a buffer exactly if there is no error.
IsFill : Filled → Type 0
IsFill (error, held) = is_held held ≡ (error == 0)

buf_get-IsFill : (media : Media) (read : Bool) (d : Dio) → IsFill (hammer2_io_buf_get media read d)
unfolding hammer2_io_buf_get IsFill
buf_get-IsFill media read d = elim (Bool-cases (media.room d.pbase)) [
  | inr full ↦ rw full refl
  | inl room ↦ elim (Bool-cases read) [
    | inr fresh ↦ rw (room, fresh) refl
    | inl reads ↦ elim (Bool-cases (media.read_error d.pbase == 0)) [
      | inl fine ↦ rw (room, reads, fine) refl
      | inr error ↦ rw (room, reads, error) (sym error)
    ]
  ]
]

read_answer-IsFill : (media : Media) (d : Dio) (a : Answer) → IsFill (read_answer media d a)
unfolding read_answer IsFill
read_answer-IsFill media d (got size uptodate) = elim (Bool-cases (leb dio_psize size)) [
  | inl e ↦ rw e refl
  | inr e ↦ rw e refl
]
read_answer-IsFill media d no_memory = buf_get-IsFill media true d
read_answer-IsFill media d (refused e) = ground arith

grab_answer-IsFill : (media : Media) (d : Dio) (a : Answer) → IsFill (grab_answer media d a)
unfolding grab_answer IsFill
grab_answer-IsFill media d (got size uptodate) = elim (Bool-cases (leb dio_psize size)) [
  | inl e ↦ elim (Bool-cases (ltb dio_psize size && not uptodate)) [
    | inl stale ↦ rw (e, stale) refl
    | inr fine ↦ rw (e, fine) refl
  ]
  | inr e ↦ rw e refl
]
grab_answer-IsFill media d no_memory = buf_get-IsFill media false d
grab_answer-IsFill media d (refused e) = ground arith

bread-IsFill : (media : Media) (d : Dio) → IsFill (hammer2_bread media d)
unfolding hammer2_bread
bread-IsFill media d = elim (Bool-cases media.buf_only) [
  | inl only ↦ rw only (buf_get-IsFill media true d)
  | inr cache ↦ rw cache (read_answer-IsFill media d (media.read_folio d.pbase))
]

getblk_new-IsFill : (media : Media) (d : Dio) → IsFill (hammer2_getblk_new media d)
unfolding hammer2_getblk_new
getblk_new-IsFill media d = elim (Bool-cases media.buf_only) [
  | inl only ↦ rw only (buf_get-IsFill media false d)
  | inr cache ↦ rw cache (grab_answer-IsFill media d (media.grab_folio d.pbase))
]

-- No assertion fails, and the dio is the same one with the same references.
unfoldable pub IsKept : Dio → Option Dio → Type 0
IsKept d none = ⊥
IsKept d (some x) = IsSound x × (x.pbase ≡ d.pbase) × (x.refs ≡ d.refs)

mark_dirty-kept :
    (op : Dop) (d : Dio) → ((mark_dirty op d).pbase ≡ d.pbase) × ((mark_dirty op d).refs ≡ d.refs)
mark_dirty-kept op d = elim (Bool-cases (creates op)) [
  | inl e ↦ rw e (refl, refl)
  | inr e ↦ rw e (refl, refl)
]

mark_dirty-IsSound : (op : Dop) (d : Dio) → 0 < d.refs → IsSound d → IsSound (mark_dirty op d)
mark_dirty-IsSound op d used sound = elim (Bool-cases (creates op)) [
  | inl e ↦ rw e (record { has = sound.has; clean = λ h. absurd (omega (arith, h, used)) })
  | inr e ↦ rw e sound
]

either_filled : (c : Bool) (a b : Filled) → IsFill a → IsFill b → IsFill (if c then a else b)
either_filled true a b fa fb = fa
either_filled false a b fa fb = fb

held_fine :
    (error : ℕ) (held : Held) → IsFill (error, held) → is_held held ≡ true → (error == 0) ≡ true
unfolding IsFill
held_fine error held fill h = sym fill ∙ h

neither : (a b : Bool) → a ≡ true → b ≡ false → (not a || b) ≡ false
neither a b h k = ground (arith, h, k)

module _ (d : Dio) (used : 0 < d.refs) where
  finish_fill-IsKept :
      (r : Filled) (x : Dio)
      → IsFill r
      → x.pbase ≡ d.pbase
      → x.refs ≡ d.refs
      → IsKept d (finish_fill r x)
  unfolding finish_fill IsKept IsFill
  finish_fill-IsKept (error, held) x fill place refs =
      let fine : (not (error == 0) && is_held held) ≡ false = ground (arith, fill) in
      rw fine
        (record { has = fill; clean = λ e. absurd (omega (arith, e, refs, used)) }, place, refs)

  either :
      (c : Bool) (a b : Option Dio)
      → (c ≡ true → IsKept d a)
      → (c ≡ false → IsKept d b)
      → IsKept d (if c then a else b)
  either true a b yes_kept no_kept = yes_kept refl
  either false a b yes_kept no_kept = no_kept refl

  -- An assertion that holds.
  unless : (c : Bool) (a : Option Dio) → c ≡ false → IsKept d a → IsKept d (if c then none else a)
  unless true a holds kept = absurd (ground (arith, holds))
  unless false a holds kept = kept

  marked :
      (c : Bool) (op : Dop)
      → ((if c then mark_dirty op d else d).pbase ≡ d.pbase)
        × ((if c then mark_dirty op d else d).refs ≡ d.refs)
  marked true op = mark_dirty-kept op d
  marked false op = (refl, refl)

  whole-IsKept : (op : Dop) (r : Filled) → IsFill r → IsKept d (finish_whole op d r)
  unfolding finish_whole
  whole-IsKept op (error, held) fill =
      let (place, refs) = marked (error == 0) op in
      finish_fill-IsKept (error, held) (if error == 0 then mark_dirty op d else d) fill place refs

  fill_whole-IsKept : (media : Media) (op : Dop) → IsKept d (fill_whole media op d)
  unfolding fill_whole
  fill_whole-IsKept media op =
      whole-IsKept op (if creates op then hammer2_getblk_new media d else hammer2_bread media d) (
        either_filled (creates op) (hammer2_getblk_new media d) (hammer2_bread media d)
          (getblk_new-IsFill media d) (bread-IsFill media d))

  -- The address of a block of the dio.
  module _ (lbase : ℕ) (place : d.pbase ≡ pbase_of lbase) where
    data_holds :
        (op : Dop) (x : Dio)
        → x.pbase ≡ d.pbase
        → is_held x.held ≡ true
        → data_fails op lbase x ≡ false
    data_holds dop_new x e held = ground (arith, held, e, place)
    data_holds dop_newnz x e held = refl
    data_holds dop_read x e held = refl
    data_holds dop_readq x e held = refl

    part-IsKept : (op : Dop) (r : Filled) → IsFill r → IsKept d (finish_part op lbase d r)
    unfolding finish_part
    part-IsKept op (error, held) fill =
        let filled : Dio = record d { held = held } in
        let (at, refs) = mark_dirty-kept op filled in
        either (is_held held)
          (if not (error == 0) || data_fails op lbase filled
            then none
            else finish_fill (error, held) (mark_dirty op filled))
          (finish_fill (error, held) filled)
          (λ some_held.
            unless (not (error == 0) || data_fails op lbase filled)
              (finish_fill (error, held) (mark_dirty op filled))
              (neither (error == 0) (data_fails op lbase filled)
                (held_fine error held fill some_held) (data_holds op filled refl some_held))
              (finish_fill-IsKept (error, held) (mark_dirty op filled) fill at refs))
          (λ none_held. finish_fill-IsKept (error, held) filled fill refl refl)

    fill_part-IsKept : (media : Media) (op : Dop) → IsKept d (fill_part media op lbase d)
    unfolding fill_part
    fill_part-IsKept media op = part-IsKept op (hammer2_bread media d) (bread-IsFill media d)

    good-IsKept : (op : Dop) → IsSound d → IsKept d (some (mark_dirty op d))
    unfolding IsKept
    good-IsKept op sound =
        let (at, refs) = mark_dirty-kept op d in (mark_dirty-IsSound op d used sound, at, refs)

    pub fill_dio-IsKept :
        (media : Media) (op : Dop) (lsize : ℕ)
        → IsSound d
        → IsKept d (fill_dio media op lbase lsize d)
    unfolding fill_dio
    fill_dio-IsKept media op lsize sound =
        let whole : Bool = d.pbase == lbase_of lbase && dio_psize == lsize in
        let filled : Option Dio =
          if whole then fill_whole media op d else fill_part media op lbase d in
        either d.good (if data_fails op lbase d then none else some (mark_dirty op d))
          (if is_held d.held then none else filled)
          (λ good.
            unless (data_fails op lbase d) (some (mark_dirty op d))
              (data_holds op d refl (sound.has ∙ good)) (good-IsKept op sound))
          (λ fresh. unless (is_held d.held) filled (sound.has ∙ fresh) (
            either whole (fill_whole media op d) (fill_part media op lbase d)
              (λ e. fill_whole-IsKept media op) (λ e. fill_part-IsKept media op)))
