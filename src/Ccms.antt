-- ===== src/Ccms.antt =====
-- sys/fs/hammer2/hammer2_ccms.h and hammer2_ccms.c: the CST and its thread lock. One call is one step:
-- the early tests of `count` and `td` outside the spin lock are read together with what follows,
-- and a sleeping loop is one step for each round.
use linux_hammer.Base.{
  ℕ, Bool, true, false, not, ◌&&◌, ◌||◌, ◌==◌, if◌then◌else◌, Option, none, some,
}
use linux_hammer.Base.Int.{ℤ, pos, negsuc, inc32, dec32, is_neg, is_pos, is_zero, is_minus_one}
pub mod Threads
pub mod Invariant
pub mod Safety
pub mod Calls
mod Tests

abbrev pub ccms_state_invalid : ℕ
ccms_state_invalid = 0

abbrev pub ccms_state_shared : ℕ
ccms_state_shared = 2

abbrev pub ccms_state_exclusive : ℕ
ccms_state_exclusive = 3

abbrev pub ebusy : ℕ
ebusy = 16

-- `struct ccms_cst`: `blocked` is only ever 0 or 1; the spin lock is the atomicity of a step.
pub record Cst : Type 0 where
  pub state : ℕ
  pub cst_type : ℕ
  pub upgrade : ℤ
  pub count : ℤ
  pub blocked : Bool
  pub td : Option ℕ

-- What a call comes to: it returns a value, sleeps in its loop, returns a value after `hpanic`,
-- or stops at a failed `KKASSERT`.
pub data Outcome {ℓ} (A : Type ℓ) : Type ℓ where
  done : Cst → A → Outcome A
  asleep : Cst → Outcome A
  panicked : Cst → A → Outcome A
  asserted : Cst → Outcome A

abbrev pub is_thread : Option ℕ → ℕ → Bool
is_thread none t = false
is_thread (some u) t = u == t

abbrev pub no_thread : Option ℕ → Bool
no_thread none = true
no_thread (some u) = false

-- `KKASSERT(test)`
abbrev pub kkassert {ℓ} : {A : Type ℓ} → Bool → Cst → Outcome A → Outcome A
kkassert test c next = if test then next else asserted c

unfoldable pub ccms_cst_init : Cst
ccms_cst_init = record {
  state = ccms_state_invalid;
  cst_type = 0;
  upgrade = pos 0;
  count = pos 0;
  blocked = false;
  td = none;
}

unfoldable pub ccms_cst_uninit : Cst → Outcome (Unit {0})
ccms_cst_uninit c = kkassert (is_zero c.count) c (done c tt)

abbrev is_held_by : Cst → ℕ → Bool
is_held_by c t = is_neg c.count && is_thread c.td t

-- One round of each `while` loop of `ccms_thread_lock`, and what follows the loop.
unfoldable pub shared_round : Cst → Outcome (Unit {0})
shared_round c =
    if is_neg c.count || not (is_zero c.upgrade)
    then asleep (record c { blocked = true })
    else let c' = record c { count = inc32 c.count } in kkassert (no_thread c.td) c' (done c' tt)

unfoldable pub exclusive_round : ℕ → Cst → Outcome (Unit {0})
exclusive_round t c =
    if not (is_zero c.count) || not (is_zero c.upgrade)
    then asleep (record c { blocked = true })
    else done (record c { count = negsuc 0; td = some t }) tt

unfoldable pub ccms_thread_lock : ℕ → Cst → ℕ → Outcome (Unit {0})
unfolding shared_round exclusive_round
ccms_thread_lock t c state =
    if is_held_by c t
    then done (record c { count = dec32 c.count }) tt
    else if state == ccms_state_shared
    then shared_round c
    else if state == ccms_state_exclusive
    then exclusive_round t c
    else panicked c tt

unfoldable pub ccms_thread_lock_nonblock : ℕ → Cst → ℕ → Outcome ℕ
ccms_thread_lock_nonblock t c state =
    if is_held_by c t
    then done (record c { count = dec32 c.count }) 0
    else if state == ccms_state_shared
    then (if is_neg c.count || not (is_zero c.upgrade)
        then done c ebusy
        else let c' = record c { count = inc32 c.count } in
          kkassert (no_thread c.td) c' (done c' 0))
    else if state == ccms_state_exclusive
    then if not (is_zero c.count) || not (is_zero c.upgrade)
      then done c ebusy
      else done (record c { count = negsuc 0; td = some t }) 0
    else panicked c ebusy

-- The value is whether `wakeup(cst)` is called; `blocked` is taken down with it.
unfoldable pub ccms_thread_unlock : ℕ → Cst → Outcome Bool
ccms_thread_unlock t c =
    if is_neg c.count
    then kkassert (is_thread c.td t) c (
        if not (is_minus_one c.count)
        then done (record c { count = inc32 c.count }) false
        else done (record c { count = pos 0; td = none; blocked = false }) c.blocked)
    else if is_pos c.count
    then (let c' = record c { count = dec32 c.count } in
        if is_zero c'.count && c.blocked
        then done (record c' { blocked = false }) true
        else done c' false)
    else panicked c false

-- A call made for its effect, and a value returned after it.
abbrev returning : Outcome Bool → ℕ → Outcome ℕ
returning (done d w) s = done d s
returning (asleep d) s = asleep d
returning (panicked d w) s = panicked d s
returning (asserted d) s = asserted d

-- The value is the state to restore.
unfoldable pub ccms_thread_lock_temp_release : ℕ → Cst → Outcome ℕ
unfolding ccms_thread_unlock
ccms_thread_lock_temp_release t c =
    if is_neg c.count
    then returning (ccms_thread_unlock t c) ccms_state_exclusive
    else if is_pos c.count
    then returning (ccms_thread_unlock t c) ccms_state_shared
    else done c ccms_state_invalid

unfoldable pub ccms_thread_lock_temp_restore : ℕ → Cst → ℕ → Outcome (Unit {0})
unfolding ccms_thread_lock
ccms_thread_lock_temp_restore t c ostate = ccms_thread_lock t c ostate

-- One round of the loop of `ccms_thread_lock_upgrade`, and what follows it.
unfoldable pub upgrade_round : ℕ → Cst → Outcome ℕ
upgrade_round t c =
    if not (is_zero c.count)
    then asleep (record c { blocked = true })
    else done (record c { count = negsuc 0; td = some t }) ccms_state_shared

unfoldable pub ccms_thread_lock_upgrade : ℕ → Cst → Outcome ℕ
unfolding upgrade_round
ccms_thread_lock_upgrade t c =
    if is_neg c.count
    then kkassert (is_thread c.td t) c (done c ccms_state_exclusive)
    else if is_pos c.count
    then upgrade_round t (record c { upgrade = inc32 c.upgrade; count = dec32 c.count })
    else panicked c 0

unfoldable pub ccms_thread_lock_downgrade : ℕ → Cst → ℕ → Outcome Bool
ccms_thread_lock_downgrade t c ostate =
    if ostate == ccms_state_shared
    then kkassert (is_thread c.td t) c (
        kkassert (is_minus_one c.count) c (
          done (record c { upgrade = dec32 c.upgrade; count = pos 1; td = none; blocked = false })
            c.blocked))
    else done c false

unfoldable pub ccms_thread_unlock_upgraded : ℕ → Cst → ℕ → Outcome Bool
unfolding ccms_thread_unlock
ccms_thread_unlock_upgraded t c ostate =
    if ostate == ccms_state_shared
    then kkassert (is_thread c.td t) c (
        kkassert (is_minus_one c.count) c (
          done (record c { upgrade = dec32 c.upgrade; count = pos 0; td = none; blocked = false })
            c.blocked))
    else ccms_thread_unlock t c

unfoldable pub ccms_thread_lock_setown : ℕ → Cst → Outcome (Unit {0})
ccms_thread_lock_setown t c = kkassert (is_neg c.count) c (done (record c { td = some t }) tt)

unfoldable pub ccms_thread_lock_owned : ℕ → Cst → Bool
ccms_thread_lock_owned t c = is_neg c.count && is_thread c.td t
