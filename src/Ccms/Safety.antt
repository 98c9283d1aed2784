-- ===== src/Ccms/Safety.antt =====
-- What holds in every state that the threads of hammer2_ccms.c reach.
use linux_hammer.Base.{
  ℕ, ◌≤◌, ◌<◌, ◌≡◌, ◌≢◌, refl, ap, ◌∙◌, inl, inr, arith, Option-cases, none, some, true,
}
use linux_hammer.Base.Int.{pos, negsuc, int32_max}
use linux_hammer.Base.Family.{put, tally, tally-ge, tally-none}
use linux_hammer.Ccms.{
  Cst, ccms_thread_lock_owned, done, ccms_thread_lock_nonblock, ccms_state_exclusive,
  ccms_state_shared,
}
use linux_hammer.Ccms.Threads.{
  Pc, idle, crashed, upgrading, want_shared, want_excl, shared, excl, upgraded, resume, Request,
  act, System, Reach, moves,
}
use linux_hammer.Ccms.Invariant.{
  shared_weight, excl_weight, upgrade_weight, is_crashed, Inv, Reach-Inv, Step-Inv,
}

-- Mutual exclusion. Among at most `int32_max` threads that call the lock as its contract allows, a
-- thread that holds it exclusively, by `ccms_thread_lock` or by an upgrade, is the only one that
-- does, no other thread holds it shared, and `ccms_thread_lock_owned` answers true to it.
pub mutual_exclusion :
    {n : ℕ} {s : System}
    → n ≤ int32_max
    → Reach n s
    → (i : ℕ) → excl_weight (s.pc i) ≡ 1
    → ((j : ℕ) → j < n → excl_weight (s.pc j) ≡ 1 → i ≡ j)
      × ((j : ℕ) → j < n → shared_weight (s.pc j) ≡ 0)
      × (ccms_thread_lock_owned i s.cst ≡ true)
unfolding ccms_thread_lock_owned
mutual_exclusion {n} {s} few r i own = (
  λ j lt h. ground (arith, inv.owner j h, inv.owner i own),
  λ j lt. omega (arith, alone, tally-ge shared_weight n s.pc j lt),
  ground (arith, inv.owner i own, inv.closed i (inv.owner i own)),
)
  where
    inv : Inv n s.cst s.pc
    inv = Reach-Inv few r

    alone : tally shared_weight n s.pc ≡ 0
    alone = (inv.closed i (inv.owner i own)).1

-- No assertion fails and `hpanic` is not reached: no call that the contract allows, made in a state
-- that at most `int32_max` threads reach, brings its caller to a failed `KKASSERT` or to `hpanic`.
pub no_assertion_fails :
    {n : ℕ} {s : System}
    → n ≤ int32_max
    → Reach n s
    → (t : ℕ) (r : Request) {c : Cst} {p : Pc} → t < n
    → act t r s.cst (s.pc t) ≡ some (c, p)
    → p ≢ crashed
no_assertion_fails {n} {s} few r t q {c} {p} lt e bad = absurd (ground (arith, at_t))
  where
    u : System
    u = record { cst = c; pc = put s.pc t p }

    at_t : is_crashed (put s.pc t p t) ≡ 0
    at_t = (Step-Inv (moves t q lt e) (Reach-Inv few r)).sound t

-- A family of threads that are all idle weighs nothing.
tally-idle :
    (weight : Pc → ℕ) (n : ℕ) (pc : ℕ → Pc)
    → weight idle ≡ 0
    → ((i : ℕ) → pc i ≡ idle)
    → tally weight n pc ≡ 0
tally-idle weight n pc h quiet = tally-none weight n pc (λ i. ap weight (quiet i) ∙ h)

unowned-td :
    {n : ℕ} {c : Cst} {pc : ℕ → Pc} → Inv n c pc → ((i : ℕ) → excl_weight (pc i) ≡ 0) → c.td ≡ none
unowned-td {c} {pc} inv free = elim (Option-cases c.td) [
  | inl e ↦ e
  | inr (u, e) ↦ absurd (omega (arith, (inv.closed u e).3, free u))
]

-- When every thread is back at idle nobody holds the lock, no upgrade is pending, and a request for
-- it that does not block, exclusive or shared, succeeds for any thread.
quiet_is_free :
    {n : ℕ} {s : System}
    → n ≤ int32_max
    → Reach n s
    → ((i : ℕ) → s.pc i ≡ idle)
    → (s.cst.count ≡ pos 0)
      × (s.cst.td ≡ none)
      × (s.cst.upgrade ≡ pos 0)
      × ((t : ℕ)
          → ccms_thread_lock_nonblock t s.cst ccms_state_exclusive
            ≡ done (record s.cst { count = negsuc 0; td = some t }) 0)
      × ((t : ℕ)
          → ccms_thread_lock_nonblock t s.cst ccms_state_shared
            ≡ done (record s.cst { count = pos 1 }) 0)
unfolding ccms_thread_lock_nonblock
quiet_is_free {n} {s} few r quiet = (
  at_zero,
  nobody,
  no_upgrade,
  λ t. ground (arith, at_zero, nobody, no_upgrade),
  λ t. ground (arith, at_zero, nobody, no_upgrade),
)
  where
    inv : Inv n s.cst s.pc
    inv = Reach-Inv few r

    nobody : s.cst.td ≡ none
    nobody = unowned-td inv (λ i. ap excl_weight (quiet i))

    at_zero : s.cst.count ≡ pos 0
    at_zero = (inv.opened nobody).1 ∙ ap pos (tally-idle shared_weight n s.pc refl quiet)

    no_upgrade : s.cst.upgrade ≡ pos 0
    no_upgrade = inv.upgrades ∙ ap pos (tally-idle upgrade_weight n s.pc refl quiet)

-- No deadlock. In a state that is reached in which no thread holds the lock, shared or exclusive, a
-- thread that waits to upgrade gets the lock when it wakes; and if no thread waits to upgrade, a
-- thread that waits for a shared or an exclusive lock gets it when it wakes.
pub waiter_proceeds :
    {n : ℕ} {s : System}
    → n ≤ int32_max
    → Reach n s
    → ((i : ℕ) → (excl_weight (s.pc i) ≡ 0) × (shared_weight (s.pc i) ≡ 0))
    → (t : ℕ)
    → (act t resume s.cst upgrading
        ≡ some (record s.cst { count = negsuc 0; td = some t }, upgraded 0))
      × (((i : ℕ) → upgrade_weight (s.pc i) ≡ 0)
          → (act t resume s.cst want_shared ≡ some (record s.cst { count = pos 1 }, shared))
            × (act t resume s.cst want_excl
                ≡ some (record s.cst { count = negsuc 0; td = some t }, excl 0)))
unfolding act
waiter_proceeds {n} {s} few r free t = (
  ground (arith, at_zero),
  λ calm.
      (ground (arith, at_zero, nobody, no_upgrade calm), ground (arith, at_zero, no_upgrade calm)),
)
  where
    inv : Inv n s.cst s.pc
    inv = Reach-Inv few r

    nobody : s.cst.td ≡ none
    nobody = unowned-td inv (λ i. (free i).0)

    at_zero : s.cst.count ≡ pos 0
    at_zero = (inv.opened nobody).1 ∙ ap pos (tally-none shared_weight n s.pc (λ i. (free i).1))

    no_upgrade : ((i : ℕ) → upgrade_weight (s.pc i) ≡ 0) → s.cst.upgrade ≡ pos 0
    no_upgrade calm = inv.upgrades ∙ ap pos (tally-none upgrade_weight n s.pc calm)
