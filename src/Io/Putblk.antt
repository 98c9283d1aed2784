-- ===== src/Io/Putblk.antt =====
-- `hammer2_io_putblk`: the last drop writes what is dirty, and nobody else's dio changes.
use linux_hammer.Base.{
  ℕ, ◌<◌, ◌≡◌, refl, sym, subst, ◌∙◌, inl, inr, Bool, true, false, not, ◌&&◌, ◌==◌, if◌then◌else◌,
  Option, some, List, [], ◌∷◌, Bool-cases, Option-cases, arith,
}
use linux_hammer.Base.Family.{put}
use linux_hammer.Io.{Dio, Hmp}
use linux_hammer.Io.Table.{dio_of, with_dio, inc_free}
use linux_hammer.Io.Put.{
  put_cleanup, Write, drop_ref, written, put_drop, put_rest, hammer2_io_putblk, add_flags,
  hammer2_io_setflags, hammer2_io_bwrite,
}
use linux_hammer.Io.Invariant.{IsSound, Inv}
use linux_hammer.Io.Change.{found-IsSound, found-pbase, changed-dio_of, kept-Inv}
use linux_hammer.Io.Alloc.{with_dio-dev}
use linux_hammer.Io.Sweep.{IsSwept, no_sweep, is_swept, put_cleanup-IsSwept}
use linux_hammer.Io.Drop.{IsPut, with_dio-others, shared-IsPut, last-IsPut, written_sound}

not_last_written :
    (device_error : Bool) (d : Dio) → (d.refs == 1) ≡ false → written device_error d ≡ []
unfolding written
not_last_written device_error d more = rw more refl

module _ (now hz limit : ℕ) (device_error : Bool) (hmp : Hmp) (p : ℕ) (d : Dio) where
  drop_none : (d.refs == 0) ≡ true → put_drop device_error hmp p d ≡ (hmp, [], false)
  unfolding put_drop
  drop_none free = rw free refl

  drop_shared :
      (d.refs == 0) ≡ false
      → (d.refs == 1) ≡ false
      → put_drop device_error hmp p d ≡ (with_dio hmp p drop_ref, [], false)
  unfolding put_drop
  drop_shared held more = rw (put_drop, held, more) refl

  drop_last :
      (d.refs == 0) ≡ false
      → (d.refs == 1) ≡ true
      → put_drop device_error hmp p d ≡ (
        (record (with_dio hmp p drop_ref) { iofree_count = inc_free hmp.iofree_count }),
        written device_error d,
        true,
      )
  unfolding put_drop
  drop_last held last = rw (put_drop, held, last) refl

  -- What a put returns.
  PutAs : List Write → Option (Hmp × List Write) → Type 0
  PutAs ws r = (next : Hmp) × (r ≡ some (next, ws)) × IsPut hmp next p

  rest-last :
      (mid : Hmp) (ws : List Write)
      → IsPut hmp mid p
      → PutAs ws (put_rest now hz limit (mid, ws, true))
  unfolding PutAs put_rest
  rest-last mid ws half =
      let cleaned = put_cleanup-IsSwept now hz limit mid half.inv in
      elim (Option-cases (put_cleanup now hz limit mid)) [
        | inl e ↦ absurd (no_sweep mid (subst (IsSwept mid) e cleaned))
        | inr (next, e) ↦
            let swept = is_swept mid next (subst (IsSwept mid) e cleaned) in
            (
              next,
              rw (put_rest, e) refl,
              record {
                inv = swept.inv;
                dev = swept.dev ∙ half.dev;
                others = λ q x ne lt there. swept.used q x lt (half.others q x ne lt there);
              },
            )
      ]

  dropped :
      dio_of hmp p ≡ some d
      → Inv hmp
      → PutAs (written device_error d) (put_rest now hz limit (put_drop device_error hmp p d))
  unfolding PutAs put_rest
  dropped at inv = elim (Bool-cases (d.refs == 0)) [
    | inl free ↦
        rw (drop_none free, not_last_written device_error d (ground (arith, free)))
          (hmp, refl, record { inv = inv; dev = refl; others = λ q x ne lt there. there })
    | inr held ↦ elim (Bool-cases (d.refs == 1)) [
      | inl last ↦ rw (drop_last held last) (
          rest-last (record (with_dio hmp p drop_ref) { iofree_count = inc_free hmp.iofree_count })
            (written device_error d) (last-IsPut hmp p d at inv last))
      | inr more ↦
          rw (drop_shared held more, not_last_written device_error d more)
            (with_dio hmp p drop_ref, refl, shared-IsPut hmp p d at inv (ground (arith, held)) more)
    ]
  ]

-- A put of a dio of a table that holds fails no assertion, whatever the cleaning frees: it writes exactly if
-- it drops the last reference of a good and dirty dio and the device is not in error, the table holds
-- after it, and the dios of other blocks that have a reference are in it unchanged.
pub putblk_writes :
    (now hz limit : ℕ) (device_error : Bool) (hmp : Hmp) (p : ℕ) (d : Dio)
    → dio_of hmp p ≡ some d
    → Inv hmp
    → (next : Hmp) × (hammer2_io_putblk now hz limit device_error hmp p
        ≡ some (
          next,
          (if d.refs == 1 && d.good && d.dirty && not device_error
              then record { block = p; through = d.flush } ∷ []
              else []),
        ))
      × IsPut hmp next p
unfolding hammer2_io_putblk PutAs
putblk_writes now hz limit device_error hmp p d at inv =
    rw (hammer2_io_putblk, at, sym (written_sound hmp p d at inv device_error))
      (dropped now hz limit device_error hmp p d at inv)

add_flags-IsSound :
    (through : Bool) (d : Dio) → 0 < d.refs → IsSound d → IsSound (add_flags through d)
add_flags-IsSound through d used sound = record {
  has = sound.has;
  clean = λ e. absurd (omega (arith, e, used));
}

IsPut-after : (a b c : Hmp) (p : ℕ) → IsPut a b p → IsPut b c p → IsPut a c p
IsPut-after a b c p first second = record {
  inv = second.inv;
  dev = second.dev ∙ first.dev;
  others = λ q x ne lt there. second.others q x ne lt (first.others q x ne lt there);
}

pub setflags-IsPut :
    (through : Bool) (hmp : Hmp) (p : ℕ) (d : Dio)
    → dio_of hmp p ≡ some d
    → 0 < d.refs
    → Inv hmp
    → IsPut hmp (hammer2_io_setflags through hmp p) p
      × (dio_of (hammer2_io_setflags through hmp p) p ≡ some (add_flags through d))
unfolding hammer2_io_setflags
setflags-IsPut through hmp p d at used inv =
    let sound = add_flags-IsSound through d used (found-IsSound hmp p d at inv) in
    let place = found-pbase hmp p d at inv in
    (
      record {
        inv = kept-Inv hmp p d at inv (add_flags through) place sound refl;
        dev = with_dio-dev hmp p (add_flags through);
        others =
            λ q x ne lt there. with_dio-others hmp p d (add_flags through) at place q ne ∙ there;
      },
      changed-dio_of hmp p d at inv (add_flags through) place sound,
    )

-- `hammer2_io_bwrite` of a good dio by the holder of its only reference writes the block at once, if the
-- device is not in error.
bwrite_writes :
    (now hz limit : ℕ) (hmp : Hmp) (p : ℕ) (d : Dio)
    → dio_of hmp p ≡ some d
    → Inv hmp
    → d.refs ≡ 1
    → d.good ≡ true
    → (next : Hmp) × (hammer2_io_bwrite now hz limit false hmp p
        ≡ some (next, record { block = p; through = true } ∷ []))
      × IsPut hmp next p
unfolding hammer2_io_bwrite
bwrite_writes now hz limit hmp p d at inv one good =
    let mid : Hmp = hammer2_io_setflags true hmp p in
    let (flagged, there) = setflags-IsPut true hmp p d at (omega (arith, one)) inv in
    let (next, returns, put) =
      putblk_writes now hz limit false mid p (add_flags true d) there flagged.inv in
    let last : (d.refs == 1) ≡ true = ground (arith, one) in
    (next, rw (last, good) at returns, IsPut-after hmp mid next p flagged put)
