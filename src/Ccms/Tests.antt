-- ===== src/Ccms/Tests.antt =====
-- Runs of the lock of hammer2_ccms.c, and its theorems at states that are reached.
use linux_hammer.Base.{ℕ, ◌<◌, ◌≡◌, ◌≢◌, refl, arith, none, some, true, false}
use linux_hammer.Base.Int.{pos, negsuc}
use linux_hammer.Base.Family.{put}
use linux_hammer.Ccms.{
  Cst, done, ccms_cst_init, ccms_state_shared, ccms_thread_lock_owned, ccms_thread_lock_upgrade,
  ccms_thread_lock_downgrade, ccms_thread_unlock_upgraded,
}
use linux_hammer.Ccms.Threads.{
  Pc, idle, crashed, excl, shared, want_shared, lock_excl, lock_shared, unlock, resume, act, System,
  moves, Reach, begin, later,
}
use linux_hammer.Ccms.Invariant.{excl_weight, shared_weight}
use linux_hammer.Ccms.Safety.{mutual_exclusion, no_assertion_fails, waiter_proceeds}
use linux_hammer.Ccms.Calls.{upgrade-downgrade}

-- Thread 0 has the lock exclusively.
abbrev owned : Cst
owned = record {
  state = 0;
  cst_type = 0;
  upgrade = pos 0;
  count = negsuc 0;
  blocked = false;
  td = some 0;
}

abbrev after_lock : System
after_lock = record { cst = owned; pc = put (λ _. idle) 0 (excl 0) }

after_lock-Reach : Reach 2 after_lock
unfolding act ccms_cst_init
after_lock-Reach = later begin (moves 0 lock_excl (omega arith) refl)

abbrev contended : System
contended = record { cst = record owned { blocked = true }; pc = put after_lock.pc 1 want_shared }

contended-Reach : Reach 2 contended
unfolding act
contended-Reach = later after_lock-Reach (moves 1 lock_shared (omega arith) refl)

-- The owner has left; the sleeper has not yet run.
abbrev released : System
released = record { cst = record owned { count = pos 0; td = none }; pc = put contended.pc 0 idle }

released-Reach : Reach 2 released
unfolding act
released-Reach = later contended-Reach (moves 0 unlock (omega arith) refl)

mutual_exclusion_example :
    ((j : ℕ) → j < 2 → excl_weight (contended.pc j) ≡ 1 → ◌≡◌ {A = ℕ} 0 j)
    × ((j : ℕ) → j < 2 → shared_weight (contended.pc j) ≡ 0)
    × (ccms_thread_lock_owned 0 contended.cst ≡ true)
mutual_exclusion_example = mutual_exclusion (omega arith) contended-Reach 0 refl

no_assertion_fails_example : Pc.idle ≢ crashed
unfolding act
no_assertion_fails_example =
    no_assertion_fails (omega arith) contended-Reach 0 unlock (omega arith) refl

released_idle : (i : ℕ) → excl_weight (released.pc i) ≡ 0
released_idle i = ground arith

waiter_proceeds_example :
    act 1 resume released.cst want_shared ≡ some (record released.cst { count = pos 1 }, shared)
waiter_proceeds_example =
    ((waiter_proceeds (omega arith) released-Reach (λ i. (ground arith, ground arith)) 1).1
      (λ i. ground arith)).0

-- Thread 0 has locked and unlocked.
abbrev quiet : System
quiet = record { cst = record owned { count = pos 0; td = none }; pc = put after_lock.pc 0 idle }

quiet-Reach : Reach 2 quiet
unfolding act
quiet-Reach = later after_lock-Reach (moves 0 unlock (omega arith) refl)

abbrev shared_once : Cst
shared_once = record owned { count = pos 1; td = none; blocked = true }

upgrade-downgrade_example :
    (d : Cst) × (ccms_thread_lock_upgrade 4 shared_once ≡ done d ccms_state_shared)
    × (ccms_thread_lock_owned 4 d ≡ true)
    × (ccms_thread_lock_downgrade 4 d ccms_state_shared
        ≡ done (record shared_once { blocked = false }) true)
    × (ccms_thread_unlock_upgraded 4 d ccms_state_shared
        ≡ done (record shared_once { count = pos 0; blocked = false }) true)
upgrade-downgrade_example = upgrade-downgrade 4 shared_once 0 (omega arith) refl refl refl
