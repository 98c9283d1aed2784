-- ===== src/Flush/Tests.antt =====
-- Runs of the transactions: thread 0 flushes, thread 1 waits to.
use linux_hammer.Base.{ℕ, ◌<◌, ◌≡◌, ◌≢◌, refl, Bool, true, false, some, arith}
use linux_hammer.Base.Family.{put}
use linux_hammer.Flush.Trans.{Trans, no_trans_flags}
use linux_hammer.Flush.Trans.Threads.{
  idle, asleep, woken, flushing, crashed, start_flush, retry, finish, act, woken_if, System, moves,
  start, Reach, begin, later, flush_flags,
}
use linux_hammer.Flush.Trans.Safety.{flush_exclusive, waiter_wakes, done_counts}

abbrev one_flush : System
one_flush = record {
  trans = record { flags = flush_flags; count = 1 };
  pc = put (woken_if false start.pc) 0 flushing;
}

one_flush-Reach : Reach 2 one_flush
unfolding act
one_flush-Reach = later begin (moves 0 start_flush (omega arith) refl)

abbrev one_waits : System
one_waits = record {
  trans = record { flags = record flush_flags { waiting = true }; count = 1 };
  pc = put (woken_if false one_flush.pc) 1 asleep;
}

one_waits-Reach : Reach 2 one_waits
unfolding act
one_waits-Reach = later one_flush-Reach (moves 1 start_flush (omega arith) refl)

flush_exclusive_example : (◌≡◌ {A = ℕ} 0 0) × (one_waits.trans.flags.isflush ≡ true)
flush_exclusive_example =
    flush_exclusive (omega arith) one_waits-Reach 0 0 (omega arith) (omega arith) refl refl

waiter_wakes_example :
    (u : ℕ) × (u < 2)
    × (one_waits.pc u ≡ flushing)
    × ((sideq : Bool)
        → (c c' : Trans) × (act (finish sideq) one_waits.trans flushing ≡ some (c, idle, true))
          × (act retry c woken ≡ some (c', flushing, false)))
waiter_wakes_example = waiter_wakes (omega arith) one_waits-Reach 1 (omega arith) refl

done_counts_example : idle ≢ crashed
unfolding act
done_counts_example =
    done_counts (omega arith) one_waits-Reach 0 (finish true)
      {c = record { flags = no_trans_flags; count = 0 }} {w = true} (omega arith) refl
