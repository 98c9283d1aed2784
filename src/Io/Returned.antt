-- ===== src/Io/Returned.antt =====
-- What each operation leaves of the table of a device.
use linux_hammer.Base.{
  ℕ, ◌+◌, ◌%◌, ◌^◌, ◌<◌, ◌≡◌, refl, sym, ap, subst, ◌∙◌, inl, inr, Bool, true, false, not, ◌==◌,
  ltb, ◌||◌, if◌then◌else◌, Option, none, some, List, Bool-cases, arith,
}
use linux_hammer.Ondisk.Load.{Dev}
use linux_hammer.Freemap.Bmap.{bref_type_data}
use linux_hammer.Io.{dio_psize, lbase_of, Dio, Hmp, pbase_of, radix_of, int_shift}
use linux_hammer.Io.Dedup.{dedup_set, dedup_delete}
use linux_hammer.Io.Table.{
  dio_of, with_dio, add_ref, Alloced, null, alloced, asserted, hammer2_io_alloc,
}
use linux_hammer.Io.Fill.{Media, Dop, hammer2_io_getblk}
use linux_hammer.Io.Put.{Write, hammer2_io_ref}
use linux_hammer.Io.Shared.{
  Env, putblk, change_masks, delete_masks, hammer2_io_dedup_set, hammer2_io_dedup_delete,
}
use linux_hammer.Io.Invariant.{IsSound, Inv}
use linux_hammer.Io.Change.{IsOwned, found-IsSound, found-pbase, changed-dio_of, kept-Inv}
use linux_hammer.Io.Owned.{add_ref-IsSound}
use linux_hammer.Io.Alloc.{IsAligned, IsOpened, IsGot, alloc-IsGot, with_dio-dev}
use linux_hammer.Io.Got.{getblk-IsGot}
use linux_hammer.Io.Putblk.{putblk_writes}

-- The table holds, and is still that of the device.
unfoldable pub IsTableOf : Dev → Hmp → Type 0
IsTableOf dev hmp = Inv hmp × (hmp.dev ≡ dev)

-- The operation returns, with such a table; if a volume is not open, an assertion may fail.
unfoldable pub IsReturned : Dev → Option (Hmp × List Write) → Type 0
IsReturned dev none = IsOpened dev → ⊥
IsReturned dev (some (next, ws)) = IsTableOf dev next

pub returned :
    (dev : Dev) (next : Hmp) (ws : List Write)
    → IsReturned dev (some (next, ws))
    → IsTableOf dev next
unfolding IsReturned
returned dev next ws r = r

pub put-IsReturned :
    (env : Env) (dev : Dev) (hmp : Hmp) (p : ℕ) (d : Dio)
    → dio_of hmp p ≡ some d
    → IsTableOf dev hmp
    → IsReturned dev (putblk env hmp p)
unfolding IsReturned IsTableOf
put-IsReturned env dev hmp p d at (inv, same) =
    let (next, returns, put) =
      putblk_writes env.now env.hz env.limit env.device_error hmp p d at inv in
    subst (IsReturned dev) (sym returns) (put.inv, put.dev ∙ same)

-- A change of the masks of a dio leaves the rest of it.
record IsMaskChange (f : Dio → Dio) : Type 0 where
  place : (d : Dio) → (f d).pbase ≡ d.pbase
  refs : (d : Dio) → (f d).refs ≡ d.refs
  sound : (d : Dio) → IsSound d → IsSound (f d)

set-IsMaskChange : (data_off : ℕ) → IsMaskChange (dedup_set data_off)
unfolding dedup_set
set-IsMaskChange data_off = record {
  place = λ d. refl;
  refs = λ d. refl;
  sound = λ d s. record { has = s.has; clean = s.clean };
}

clear-IsMaskChange : (data_off bytes : ℕ) → IsMaskChange (dedup_delete data_off bytes)
unfolding dedup_delete
clear-IsMaskChange data_off bytes = record {
  place = λ d. refl;
  refs = λ d. refl;
  sound = λ d s. record { has = s.has; clean = s.clean };
}

either_change :
    (bad : Dio → Bool) (f : Dio → Dio)
    → IsMaskChange f
    → IsMaskChange (λ d. if bad d then d else f d)
either_change bad f change = record {
  place = λ d. elim (Bool-cases (bad d)) [ inl e ↦ rw e refl | inr e ↦ rw e (change.place d) ];
  refs = λ d. elim (Bool-cases (bad d)) [ inl e ↦ rw e refl | inr e ↦ rw e (change.refs d) ];
  sound = λ d s. elim (Bool-cases (bad d)) [ inl e ↦ rw e s | inr e ↦ rw e (change.sound d s) ];
}

delete-IsMaskChange : (data_off bytes : ℕ) → IsMaskChange (delete_masks data_off bytes)
unfolding delete_masks
delete-IsMaskChange data_off bytes =
    either_change
      (λ d.
        ltb data_off d.pbase || ltb (d.pbase + dio_psize) ((lbase_of data_off + bytes) % 2 ^ 64))
      (dedup_delete data_off bytes) (clear-IsMaskChange data_off bytes)

change_masks-IsReturned :
    (env : Env) (dev : Dev) (place : ℕ) (f : Dio → Dio) (hmp : Hmp) (r : Alloced)
    → IsMaskChange f
    → IsTableOf dev hmp
    → IsGot dev place r
    → IsReturned dev (change_masks env f hmp r)
unfolding change_masks IsGot IsReturned IsTableOf
change_masks-IsReturned env dev place f hmp null change table got = table
change_masks-IsReturned env dev place f hmp asserted change table got = got
change_masks-IsReturned env dev place f hmp (alloced next p) change table (owned, same, at_place) =
    let d = owned.dio in
    let at = change.place d ∙ found-pbase next p d owned.at owned.inv in
    let good = change.sound d (found-IsSound next p d owned.at owned.inv) in
    put-IsReturned env dev (with_dio next p f) p (f d)
      (changed-dio_of next p d owned.at owned.inv f at good)
      (
        kept-Inv next p d owned.at owned.inv f at good
            (ap (λ n. if n == 0 then 1 else 0) (sym (change.refs d))),
        with_dio-dev next p f ∙ same,
      )

alloc_of-IsGot :
    (now : ℕ) (dev : Dev) (hmp : Hmp) (data_off btype : ℕ) (createit : Bool)
    → IsAligned dev
    → IsTableOf dev hmp
    → IsGot dev (pbase_of data_off) (hammer2_io_alloc now hmp data_off btype createit)
unfolding IsTableOf
alloc_of-IsGot now dev hmp data_off btype createit aligned (inv, same) =
    subst (λ v. IsGot v (pbase_of data_off) (hammer2_io_alloc now hmp data_off btype createit)) same
      (alloc-IsGot now hmp data_off btype createit (subst IsAligned (sym same) aligned) inv)

pub set-IsReturned :
    (env : Env) (dev : Dev) (hmp : Hmp) (data_off btype : ℕ)
    → IsAligned dev
    → IsTableOf dev hmp
    → IsReturned dev (hammer2_io_dedup_set env hmp data_off btype)
unfolding hammer2_io_dedup_set
set-IsReturned env dev hmp data_off btype aligned table =
    change_masks-IsReturned env dev (pbase_of data_off) (dedup_set data_off) hmp
      (hammer2_io_alloc env.now hmp data_off btype true) (set-IsMaskChange data_off) table
      (alloc_of-IsGot env.now dev hmp data_off btype true aligned table)

pub delete-IsReturned :
    (env : Env) (dev : Dev) (hmp : Hmp) (btype data_off bytes : ℕ)
    → IsAligned dev
    → IsTableOf dev hmp
    → IsReturned dev (hammer2_io_dedup_delete env hmp btype data_off bytes)
unfolding hammer2_io_dedup_delete IsReturned
delete-IsReturned env dev hmp btype data_off bytes aligned table =
    elim (Bool-cases (lbase_of data_off == 0 || not (btype == bref_type_data))) [
      | inl skipped ↦ rw (hammer2_io_dedup_delete, skipped) table
      | inr shared ↦
          rw (hammer2_io_dedup_delete, shared)
            (change_masks-IsReturned env dev (pbase_of data_off) (delete_masks data_off bytes) hmp
              (hammer2_io_alloc env.now hmp data_off btype false)
              (delete-IsMaskChange data_off bytes) table
              (alloc_of-IsGot env.now dev hmp data_off btype false aligned table))
    ]

pub getblk_of-IsGot :
    (now : ℕ) (media : Media) (dev : Dev) (hmp : Hmp) (btype lbase : ℕ) (op : Dop)
    → IsAligned dev
    → IsTableOf dev hmp
    → IsGot dev
        (pbase_of lbase)
        (hammer2_io_getblk now media hmp btype lbase (int_shift (radix_of lbase)) op)
unfolding IsTableOf
getblk_of-IsGot now media dev hmp btype lbase op aligned (inv, same) =
    subst
      (λ v.
        IsGot v (pbase_of lbase)
          (hammer2_io_getblk now media hmp btype lbase (int_shift (radix_of lbase)) op))
      same
      (getblk-IsGot now media hmp btype lbase (int_shift (radix_of lbase)) op
        (subst IsAligned (sym same) aligned) inv refl)

pub is_got :
    (dev : Dev) (place : ℕ) (hmp : Hmp) (p : ℕ)
    → IsGot dev place (alloced hmp p)
    → IsOwned hmp p × (hmp.dev ≡ dev) × (p ≡ place)
unfolding IsGot
is_got dev place hmp p got = got

pub not_asserted : (dev : Dev) (place : ℕ) → IsOpened dev → IsGot dev place asserted → ⊥
unfolding IsGot
not_asserted dev place opened got = got opened

pub ref-Inv :
    (hmp : Hmp) (p : ℕ) (d : Dio)
    → dio_of hmp p ≡ some d
    → 0 < d.refs
    → Inv hmp
    → Inv (hammer2_io_ref hmp p)
unfolding hammer2_io_ref
ref-Inv hmp p d at used inv =
    kept-Inv hmp p d at inv add_ref (found-pbase hmp p d at inv)
      (add_ref-IsSound d (found-IsSound hmp p d at inv)) (ground (arith, used))

pub ref-dev : (hmp : Hmp) (p : ℕ) → (hammer2_io_ref hmp p).dev ≡ hmp.dev
unfolding hammer2_io_ref
ref-dev hmp p = with_dio-dev hmp p add_ref
