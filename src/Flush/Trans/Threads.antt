-- ===== src/Flush/Trans/Threads.antt =====
-- Threads that begin and end transactions of one PFS, interleaved in any order.
use linux_hammer.Base.{ℕ, ◌<◌, ◌≡◌, Bool, true, false, if◌then◌else◌, Option, none, some}
use linux_hammer.Base.Family.{put}
use linux_hammer.Flush.Trans.{
  TransFlags, no_trans_flags, Trans, init_round, hammer2_trans_setflags, hammer2_trans_clearflags,
  hammer2_trans_done,
}

-- Where a thread stands: `asleep` and `woken` are in `hammer2_trans_init` for a flush; `crashed` has met a
-- failed assertion.
pub data Pc : Type 0 where
  idle asleep woken normal buffered flushing crashed : Pc

-- `stir` is the end of a sleep that nobody woke up. The flag of a `finish` is whether it takes down SIDEQ.
pub data Request : Type 0 where
  start_normal start_buffered start_flush retry stir set_rescan clear_rescan clear_waiting : Request
  finish : Bool → Request

abbrev pub flush_flags : TransFlags
flush_flags = record no_trans_flags { isflush = true }

abbrev pub buffer_flags : TransFlags
buffer_flags = record no_trans_flags { bufcache = true }

abbrev pub rescan_flags : TransFlags
rescan_flags = record no_trans_flags { rescan = true }

abbrev pub waiting_flags : TransFlags
waiting_flags = record no_trans_flags { waiting = true }

-- The word, where the thread stands then, and whether the sleepers are woken up.
abbrev pub Moved : Type 0
Moved = Trans × Pc × Bool

abbrev entered : Pc → Trans × Bool → Option Moved
entered next (t, wait) = some (t, if wait then asleep else next, false)

abbrev ended : Option (Trans × Bool) → Option Moved
ended none = none
ended (some (t, wake)) = some (t, idle, wake)

-- A failed assertion stops the thread that meets it.
abbrev or_crash : Trans → Option Moved → Option Moved
or_crash t none = some (t, crashed, false)
or_crash t (some m) = some m

abbrev cleared : Pc → Trans × Bool → Option Moved
cleared p (t, wake) = some (t, p, wake)

-- The thread runs, so that it may set and clear flags.
abbrev runs : Pc → Bool
runs asleep = false
runs crashed = false
runs _ = true

-- `none`: a thread that stands there does not make the call.
unfoldable pub act : Request → Trans → Pc → Option Moved
unfolding init_round hammer2_trans_setflags hammer2_trans_clearflags hammer2_trans_done
act start_normal t idle = entered normal (init_round no_trans_flags t)
act start_buffered t idle = entered buffered (init_round buffer_flags t)
act start_flush t idle = entered flushing (init_round flush_flags t)
act retry t woken = entered flushing (init_round flush_flags t)
act stir t asleep = some (t, woken, false)
act (finish s) t normal =
    or_crash t (ended (hammer2_trans_done (record no_trans_flags { sideq = s }) t))
act (finish s) t buffered = or_crash t (ended (hammer2_trans_done buffer_flags t))
act (finish s) t flushing =
    or_crash t (ended (hammer2_trans_done (record flush_flags { sideq = s }) t))
act set_rescan t p = if runs p then some (hammer2_trans_setflags rescan_flags t, p, false) else none
act clear_rescan t p = if runs p then cleared p (hammer2_trans_clearflags rescan_flags t) else none
act clear_waiting t p =
    if runs p then cleared p (hammer2_trans_clearflags waiting_flags t) else none
act r t p = none

-- `hammer2_lkc_wakeup` of `trans_cv`.
abbrev pub wake : Pc → Pc
wake asleep = woken
wake p = p

abbrev pub woken_if : Bool → (ℕ → Pc) → ℕ → Pc
woken_if b pc j = if b then wake (pc j) else pc j

pub record System : Type 0 where
  pub trans : Trans
  pub pc : ℕ → Pc

pub data Step (n : ℕ) (s : System) : System → Type 0 where
  moves :
      (t : ℕ) (r : Request) {c : Trans} {p : Pc} {w : Bool}
      → t < n
      → act r s.trans (s.pc t) ≡ some (c, p, w)
      → Step n s (record { trans = c; pc = put (woken_if w s.pc) t p })

abbrev pub start : System
start = record { trans = record { flags = no_trans_flags; count = 0 }; pc = λ _. idle }

pub data Reach (n : ℕ) : System → Type 0 where
  begin : Reach n start
  later : {s u : System} → Reach n s → Step n s u → Reach n u
