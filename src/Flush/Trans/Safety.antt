-- ===== src/Flush/Trans/Safety.antt =====
-- Flushes exclude one another, and whoever waits for one to end is woken up.
use linux_hammer.Base.{
  ℕ, ◌-◌, ◌%◌, ◌==◌, ◌<◌, ◌≡◌, ◌≢◌, refl, ap, Bool, true, false, some, arith, ℕ_discrete, dec_lt,
}
use linux_hammer.Base.Family.{put, tally-ge, tally-ge_two, tally-some, tally-le}
use linux_hammer.Flush.Trans.{
  Trans, count_size, hammer2_trans_done, init_round, without_flags, done_flags, enter,
}
use linux_hammer.Flush.Trans.Threads.{
  Pc, idle, asleep, woken, flushing, crashed, Request, retry, finish, flush_flags, act, woken_if,
  System, moves, Reach,
}
use linux_hammer.Flush.Trans.Invariant.{
  flush_weight, crash_weight, open_weight, open_weight-le, Reach-Inv, Step-Inv,
}

is_flushing : (p : Pc) → 0 < flush_weight p → p ≡ flushing
is_flushing p h = ground arith

-- Of the threads of a PFS, fewer than the count has room for, at most one has a flush transaction open,
-- whatever normal and buffer cache transactions the others begin and end, and whenever RESCAN is set and
-- cleared, WAITING is cleared and SIDEQ is taken down at the end of a transaction; while it has, the flag
-- ISFLUSH stands.
pub flush_exclusive :
    {n : ℕ} {s : System}
    → n < count_size
    → Reach n s
    → (i j : ℕ) → i < n
    → j < n
    → s.pc i ≡ flushing
    → s.pc j ≡ flushing
    → (i ≡ j) × (s.trans.flags.isflush ≡ true)
flush_exclusive {n} {s} few r i j lt lt' at at' =
    let inv = Reach-Inv few r in
    let wi : flush_weight (s.pc i) ≡ 1 = rw at refl in
    let wj : flush_weight (s.pc j) ≡ 1 = rw at' refl in
    let on : s.trans.flags.isflush ≡ true =
      ground (arith, inv.unflushed, tally-ge flush_weight n s.pc i lt) in
    let one = inv.flushed on in
    (
      elim (ℕ_discrete i j) [
        | yes same ↦ same
        | no other ↦ elim (dec_lt i j) [
          | yes before ↦ absurd (omega (arith, tally-ge_two flush_weight n s.pc i j before lt'))
          | no after ↦ absurd (omega (arith, tally-ge_two flush_weight n s.pc j i (omega arith) lt))
        ]
      ],
      on,
    )

flush_ends :
    (sideq : Bool) (t : Trans)
    → t.flags.isflush ≡ true
    → t.flags.waiting ≡ true
    → 0 < t.count
    → t.count < count_size
    → (c : Trans) × (hammer2_trans_done (record flush_flags { sideq = sideq }) t ≡ some (c, true))
      × (c.flags.isflush ≡ false)
unfolding hammer2_trans_done
flush_ends sideq t on waiting some_open room =
    let flags = record flush_flags { sideq = sideq } in
    let test : (t.count % count_size == 0) ≡ false = ground arith in
    (
      record { flags = without_flags t.flags (done_flags flags t); count = t.count - 1 },
      ground (arith, test),
      ground arith,
    )

-- No wakeup is lost. Where a thread sleeps for its turn to flush, there is one with a flush open, and its
-- `hammer2_trans_done` wakes the sleepers up; the first that tries again then begins its flush.
pub waiter_wakes :
    {n : ℕ} {s : System}
    → n < count_size
    → Reach n s
    → (t : ℕ) → t < n
    → s.pc t ≡ asleep
    → (u : ℕ) × (u < n)
      × (s.pc u ≡ flushing)
      × ((sideq : Bool)
          → (c c' : Trans) × (act (finish sideq) s.trans flushing ≡ some (c, idle, true))
            × (act retry c woken ≡ some (c', flushing, false)))
unfolding act init_round
waiter_wakes {n} {s} few r t lt at =
    let inv = Reach-Inv few r in
    let (on, waiting) = inv.guarded t (rw at refl) in
    let one = inv.flushed on in
    let (u, lt', w) = tally-some flush_weight n s.pc (omega arith) in
    let here = is_flushing (s.pc u) w in
    let some_open : 0 < s.trans.count =
      omega (arith, inv.counted, tally-ge open_weight n s.pc u lt', ap open_weight here) in
    let room : s.trans.count < count_size =
      omega (arith, inv.counted, tally-le open_weight open_weight-le n s.pc) in
    (
      u,
      lt',
      here,
      λ sideq.
          let (c, ends, off) = flush_ends sideq s.trans on waiting some_open room in
          (c, enter flush_flags c, ground (arith, ends), ground (arith, off)),
    )

-- No assertion fails: a thread that ends a transaction finds a count that is not 0.
pub done_counts :
    {n : ℕ} {s : System}
    → n < count_size
    → Reach n s
    → (t : ℕ) (r : Request) {c : Trans} {p : Pc} {w : Bool} → t < n
    → act r s.trans (s.pc t) ≡ some (c, p, w)
    → p ≢ crashed
done_counts {n} {s} few r t q {c} {p} {w} lt e bad = absurd (ground (arith, at_t))
  where
    u : System
    u = record { trans = c; pc = put (woken_if w s.pc) t p }

    at_t : crash_weight (put (woken_if w s.pc) t p t) ≡ 0
    at_t = (Step-Inv (moves t q lt e) (Reach-Inv few r)).sound t
