-- ===== src/Io/Got.antt =====
-- The table after `hammer2_io_getblk`.
use linux_hammer.Base.{
  ℕ, ◌≡◌, sym, ap, subst, ◌∙◌, inl, inr, true, not, ◌==◌, if◌then◌else◌, none, some, Option-cases,
  arith,
}
use linux_hammer.Ondisk.Load.{Dev}
use linux_hammer.Io.{Dio, Hmp, pbase_of, radix_of, int_shift}
use linux_hammer.Io.Table.{with_dio, Alloced, null, alloced, asserted, hammer2_io_alloc}
use linux_hammer.Io.Fill.{Media, Dop, fill_dio, fill_alloced, is_readq, hammer2_io_getblk}
use linux_hammer.Io.Invariant.{Inv}
use linux_hammer.Io.Change.{IsOwned, found-IsSound, found-pbase, changed-dio_of, kept-Inv}
use linux_hammer.Io.Alloc.{IsAligned, IsGot, alloc-IsGot, with_dio-dev}
use linux_hammer.Io.Getblk.{IsKept, fill_dio-IsKept}

-- A dio of the table put in the place of the one that it is made of.
filled-IsOwned :
    (hmp : Hmp) (p : ℕ) (owned : IsOwned hmp p) (x : Dio)
    → IsKept owned.dio (some x)
    → IsOwned (with_dio hmp p (λ d. x)) p
unfolding IsKept
filled-IsOwned hmp p owned x (sound, place, refs) =
    let e = place ∙ found-pbase hmp p owned.dio owned.at owned.inv in
    record {
      inv =
          kept-Inv hmp p owned.dio owned.at owned.inv (λ d. x) e sound
            (ap (λ n. if n == 0 then 1 else 0) (sym refs));
      dio = x;
      at = changed-dio_of hmp p owned.dio owned.at owned.inv (λ d. x) e sound;
      refs = omega (arith, refs, owned.refs);
    }

none_kept : (d : Dio) → IsKept d none → ⊥
unfolding IsKept
none_kept d kept = kept

fill_alloced-IsGot :
    (media : Media) (op : Dop) (lbase lsize : ℕ) (dev : Dev) (r : Alloced)
    → IsGot dev (pbase_of lbase) r
    → IsGot dev (pbase_of lbase) (fill_alloced media op lbase lsize r)
unfolding fill_alloced IsGot
fill_alloced-IsGot media op lbase lsize dev null got = tt
fill_alloced-IsGot media op lbase lsize dev asserted got = got
fill_alloced-IsGot media op lbase lsize dev (alloced hmp p) (owned, same, place) =
    let d = owned.dio in
    let kept =
      fill_dio-IsKept d owned.refs lbase (found-pbase hmp p d owned.at owned.inv ∙ place) media op
        lsize (found-IsSound hmp p d owned.at owned.inv) in
    elim (Option-cases (fill_dio media op lbase lsize d)) [
      | inl e ↦ absurd (none_kept d (subst (IsKept d) e kept))
      | inr (x, e) ↦
          rw (fill_alloced, owned.at, e)
            (
              filled-IsOwned hmp p owned x (subst (IsKept d) e kept),
              with_dio-dev hmp p (λ d. x) ∙ same,
              place,
            )
    ]

-- In a table that holds, of a device whose volumes start at multiples of 1 GiB, `hammer2_io_getblk` for an
-- offset whose radix is that of the size fails no assertion if the devices of the volumes are open,
-- whatever the block layer answers: it returns null, or the table holds and the dio of the offset's buffer is in it and has a reference.
pub getblk-IsGot :
    (now : ℕ) (media : Media) (hmp : Hmp) (btype lbase lsize : ℕ) (op : Dop)
    → IsAligned hmp.dev
    → Inv hmp
    → int_shift (radix_of lbase) ≡ lsize
    → IsGot hmp.dev (pbase_of lbase) (hammer2_io_getblk now media hmp btype lbase lsize op)
unfolding hammer2_io_getblk
getblk-IsGot now media hmp btype lbase lsize op aligned inv fits =
    let e : (int_shift (radix_of lbase) == lsize) ≡ true = ground (arith, fits) in
    rw (hammer2_io_getblk, e)
      (fill_alloced-IsGot media op lbase lsize hmp.dev
        (hammer2_io_alloc now hmp lbase btype (not (is_readq op)))
        (alloc-IsGot now hmp lbase btype (not (is_readq op)) aligned inv))
