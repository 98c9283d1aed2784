-- ===== src/Ccms/Threads.antt =====
-- Threads that call the lock of hammer2_ccms.c as its contract allows, interleaved in any order.
use linux_hammer.Base.{ℕ, zero, suc, ◌+◌, ◌<◌, ◌≡◌, ◌==◌, ltb, if◌then◌else◌, Option, none, some}
use linux_hammer.Base.Int.{int32_max}
use linux_hammer.Base.Family.{put}
use linux_hammer.Ccms.{
  Cst, Outcome, done, asleep, panicked, asserted, ccms_state_shared, ccms_state_exclusive,
  ccms_cst_init, shared_round, exclusive_round, upgrade_round, ccms_thread_lock,
  ccms_thread_lock_nonblock, ccms_thread_unlock, ccms_thread_lock_upgrade,
  ccms_thread_lock_downgrade, ccms_thread_unlock_upgraded,
}

-- Where a thread stands. `excl d` and `upgraded d` have locked again `d` times on top; an
-- `upgraded` thread held the lock shared before.
pub data Pc : Type 0 where
  idle want_shared want_excl shared upgrading crashed : Pc
  excl : ℕ → Pc
  upgraded : ℕ → Pc

-- `resume` is a wakeup or the end of the timeout of `ssleep`.
pub data Request : Type 0 where
  lock_shared lock_excl try_shared try_excl unlock upgrade downgrade unlock_upgraded resume :
      Request

abbrev settle {ℓ} : {A : Type ℓ} → Outcome A → (A → Pc) → Pc → Option (Cst × Pc)
settle (done c a) next wait = some (c, next a)
settle (asleep c) next wait = some (c, wait)
settle (panicked c a) next wait = some (c, crashed)
settle (asserted c) next wait = some (c, crashed)

-- `none`: the contract does not let a thread that stands there make the call.
unfoldable pub act : ℕ → Request → Cst → Pc → Option (Cst × Pc)
unfolding shared_round exclusive_round upgrade_round ccms_thread_lock ccms_thread_lock_nonblock
    ccms_thread_unlock ccms_thread_lock_upgrade ccms_thread_lock_downgrade
    ccms_thread_unlock_upgraded
act t lock_shared c idle = settle (ccms_thread_lock t c ccms_state_shared) (λ _. shared) want_shared
act t lock_excl c idle = settle (ccms_thread_lock t c ccms_state_exclusive) (λ _. excl 0) want_excl
act t try_shared c idle =
    settle (ccms_thread_lock_nonblock t c ccms_state_shared) (λ e. if e == 0 then shared else idle)
      crashed
act t try_excl c idle =
    settle (ccms_thread_lock_nonblock t c ccms_state_exclusive)
      (λ e. if e == 0 then excl 0 else idle) crashed
act t resume c want_shared = settle (shared_round c) (λ _. shared) want_shared
act t resume c want_excl = settle (exclusive_round t c) (λ _. excl 0) want_excl
act t unlock c shared = settle (ccms_thread_unlock t c) (λ _. idle) crashed
act t upgrade c shared =
    settle (ccms_thread_lock_upgrade t c)
      (λ o. if o == ccms_state_shared then upgraded 0 else crashed) upgrading
act t resume c upgrading = settle (upgrade_round t c) (λ _. upgraded 0) upgrading
act t lock_shared c (excl d) =
    if ltb d int32_max
    then settle (ccms_thread_lock t c ccms_state_shared) (λ _. excl (d + 1)) crashed
    else none
act t lock_excl c (excl d) =
    if ltb d int32_max
    then settle (ccms_thread_lock t c ccms_state_exclusive) (λ _. excl (d + 1)) crashed
    else none
act t unlock c (excl zero) = settle (ccms_thread_unlock t c) (λ _. idle) crashed
act t unlock c (excl (suc d)) = settle (ccms_thread_unlock t c) (λ _. excl d) crashed
act t upgrade c (excl d) =
    settle (ccms_thread_lock_upgrade t c)
      (λ o. if o == ccms_state_exclusive then excl d else crashed) crashed
act t downgrade c (excl d) =
    settle (ccms_thread_lock_downgrade t c ccms_state_exclusive) (λ _. excl d) crashed
act t unlock_upgraded c (excl zero) =
    settle (ccms_thread_unlock_upgraded t c ccms_state_exclusive) (λ _. idle) crashed
act t lock_shared c (upgraded d) =
    if ltb d int32_max
    then settle (ccms_thread_lock t c ccms_state_shared) (λ _. upgraded (d + 1)) crashed
    else none
act t lock_excl c (upgraded d) =
    if ltb d int32_max
    then settle (ccms_thread_lock t c ccms_state_exclusive) (λ _. upgraded (d + 1)) crashed
    else none
act t unlock c (upgraded (suc d)) = settle (ccms_thread_unlock t c) (λ _. upgraded d) crashed
act t downgrade c (upgraded zero) =
    settle (ccms_thread_lock_downgrade t c ccms_state_shared) (λ _. shared) crashed
act t unlock_upgraded c (upgraded zero) =
    settle (ccms_thread_unlock_upgraded t c ccms_state_shared) (λ _. idle) crashed
act t request c pc = none

pub record System : Type 0 where
  pub cst : Cst
  pub pc : ℕ → Pc

pub data Step (n : ℕ) (s : System) : System → Type 0 where
  moves :
      (t : ℕ) (r : Request) {c : Cst} {p : Pc}
      → t < n
      → act t r s.cst (s.pc t) ≡ some (c, p)
      → Step n s (record { cst = c; pc = put s.pc t p })

abbrev pub start : System
unfolding ccms_cst_init
start = record { cst = ccms_cst_init; pc = λ _. idle }

pub data Reach (n : ℕ) : System → Type 0 where
  begin : Reach n start
  later : {s u : System} → Reach n s → Step n s u → Reach n u
