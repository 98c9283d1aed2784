-- ===== src/Ccms/Calls.antt =====
-- Laws of the calls of hammer2_ccms.c, in every state of the CST.
use linux_hammer.Base.{
  ℕ, suc, ◌<◌, ◌≡◌, ◌≢◌, ◌⊎◌, inl, inr, ◌↔◌, ◌||◌, refl, arith, Bool, none, some, true, false,
}
use linux_hammer.Base.Int.{pos, negsuc, int32_max}
use linux_hammer.Ccms.{
  Cst, Outcome, done, asleep, panicked, asserted, ebusy, ccms_state_shared, ccms_state_exclusive,
  ccms_thread_lock, ccms_thread_lock_nonblock, ccms_thread_unlock, ccms_thread_lock_upgrade,
  ccms_thread_lock_downgrade, ccms_thread_unlock_upgraded, ccms_thread_lock_temp_release,
  ccms_thread_lock_temp_restore, ccms_thread_lock_owned,
}

-- What a call that may not sleep answers where the blocking call comes to the given outcome.
abbrev pub without_sleep : Cst → Outcome (Unit {0}) → Outcome ℕ
without_sleep c (done d u) = done d 0
without_sleep c (asleep d) = done c ebusy
without_sleep c (panicked d u) = panicked d ebusy
without_sleep c (asserted d) = asserted d

-- For every thread, state and request, `ccms_thread_lock_nonblock` does what `ccms_thread_lock` does
-- in its first round, with 0 for success, except that where the latter would sleep it answers
-- `EBUSY` and leaves the CST alone, `blocked` included.
nonblock-lock :
    (t : ℕ) (c : Cst) (state : ℕ)
    → ccms_thread_lock_nonblock t c state ≡ without_sleep c (ccms_thread_lock t c state)
unfolding ccms_thread_lock ccms_thread_lock_nonblock
nonblock-lock t c state = ground arith

-- An upgrade shuts newcomers out. While an upgrade is pending or granted, a thread that does not own
-- the lock is answered `EBUSY` by the call that does not block, for a shared and for an exclusive
-- request, and goes to sleep in the one that does, with `blocked` set.
upgrade_bars_newcomers :
    (t : ℕ) (c : Cst)
    → c.upgrade ≢ pos 0
    → ccms_thread_lock_owned t c ≡ false
    → (ccms_thread_lock_nonblock t c ccms_state_shared ≡ done c ebusy)
      × (ccms_thread_lock_nonblock t c ccms_state_exclusive ≡ done c ebusy)
      × (ccms_thread_lock t c ccms_state_shared ≡ asleep (record c { blocked = true }))
      × (ccms_thread_lock t c ccms_state_exclusive ≡ asleep (record c { blocked = true }))
unfolding ccms_thread_lock ccms_thread_lock_nonblock ccms_thread_lock_owned
upgrade_bars_newcomers t c h own = (ground arith, ground arith, ground arith, ground arith)

-- A sole shared holder that upgrades gets the lock at once and owns it, and a downgrade, or a release,
-- of what the upgrade returned gives back the CST as it was, or without its shared hold, but for
-- `blocked`, which is taken down with a wakeup.
pub upgrade-downgrade :
    (t : ℕ) (c : Cst) (u : ℕ)
    → u < int32_max
    → c.upgrade ≡ pos u
    → c.count ≡ pos 1
    → c.td ≡ none
    → (d : Cst) × (ccms_thread_lock_upgrade t c ≡ done d ccms_state_shared)
      × (ccms_thread_lock_owned t d ≡ true)
      × (ccms_thread_lock_downgrade t d ccms_state_shared
          ≡ done (record c { blocked = false }) c.blocked)
      × (ccms_thread_unlock_upgraded t d ccms_state_shared
          ≡ done (record c { count = pos 0; blocked = false }) c.blocked)
unfolding ccms_thread_lock_upgrade ccms_thread_lock_downgrade ccms_thread_lock_owned
    ccms_thread_unlock_upgraded
upgrade-downgrade t c u lt hu hc ht = (
  record c { upgrade = pos (suc u); count = negsuc 0; td = some t },
  ground arith,
  ground arith,
  ground arith,
  ground arith,
)

-- Releasing a lock that an owner holds once for a while, and taking it back before anyone else comes,
-- gives back the CST but for `blocked`, which a wakeup has taken down; so for a shared holder. Where
-- no upgrade is pending.
release-restore :
    (t : ℕ) (c : Cst)
    → c.upgrade ≡ pos 0
    → ((c.count ≡ negsuc 0) × (c.td ≡ some t)) ⊎ ((c.count ≡ pos 1) × (c.td ≡ none))
    → (d : Cst) × (state : ℕ) × (ccms_thread_lock_temp_release t c ≡ done d state)
      × (d.count ≡ pos 0)
      × (d.td ≡ none)
      × (ccms_thread_lock_temp_restore t d state ≡ done (record c { blocked = false }) tt)
unfolding ccms_thread_lock_temp_release ccms_thread_lock_temp_restore
release-restore t c hu (inl (hc, ht)) = (
  record c { count = pos 0; td = none; blocked = false },
  ccms_state_exclusive,
  ground arith,
  refl,
  refl,
  ground arith,
)
release-restore t c hu (inr (hc, ht)) = (
  record c { count = pos 0; blocked = false },
  ccms_state_shared,
  ground arith,
  refl,
  ht,
  ground arith,
)

-- No wakeup is lost. A release that returns, of a plain lock or of an upgraded one, calls `wakeup`
-- exactly if a sleeper had set `blocked` and the lock is now free; it takes `blocked` down exactly
-- then.
unlock-wakeup :
    (t : ℕ) (c d : Cst) (w : Bool) (ostate : ℕ)
    → (ccms_thread_unlock t c ≡ done d w) ⊎ (ccms_thread_unlock_upgraded t c ostate ≡ done d w)
    → ((w ≡ true) ↔ ((c.blocked ≡ true) × (d.count ≡ pos 0))) × (c.blocked ≡ (d.blocked || w))
unfolding ccms_thread_unlock ccms_thread_unlock_upgraded
unlock-wakeup t c d w ostate (inl e) = ground arith
unlock-wakeup t c d w ostate (inr e) = ground arith
