-- ===== src/Flush/Trans/Invariant.antt =====
-- What holds in every state that the threads reach.
use native.Mathlib.Decide.{ℕ_discrete as dec_eq}
use linux_hammer.Base.{ℕ, ◌+◌, ◌≤◌, ◌<◌, ◌≡◌, refl, Bool, true, false, some, arith, if◌then◌else◌}
use linux_hammer.Base.Family.{put, tally, tally-put, tally-le, tally-ge, tally-none, tally-same}
use linux_hammer.Flush.Trans.{Trans, count_size}
use linux_hammer.Flush.Trans.Threads.{
  Pc, idle, asleep, woken, normal, buffered, flushing, crashed, Request, start_normal,
  start_buffered, start_flush, retry, stir, set_rescan, clear_rescan, clear_waiting, finish, act,
  wake, woken_if, System, Step, moves, start, Reach, begin, later,
}

-- The thread has a transaction open.
abbrev pub open_weight : Pc → ℕ
open_weight normal = 1
open_weight buffered = 1
open_weight flushing = 1
open_weight _ = 0

abbrev pub flush_weight : Pc → ℕ
flush_weight flushing = 1
flush_weight _ = 0

abbrev pub asleep_weight : Pc → ℕ
asleep_weight asleep = 1
asleep_weight _ = 0

abbrev pub crash_weight : Pc → ℕ
crash_weight crashed = 1
crash_weight _ = 0

pub open_weight-le : (p : Pc) → open_weight p ≤ 1
open_weight-le p = ground arith

pub record Inv (n : ℕ) (c : Trans) (pc : ℕ → Pc) : Type 0 where
  pub few : n < count_size
  pub counted : c.count ≡ tally open_weight n pc
  pub flushed : c.flags.isflush ≡ true → tally flush_weight n pc ≡ 1
  pub unflushed : c.flags.isflush ≡ false → tally flush_weight n pc ≡ 0
  pub guarded :
      (j : ℕ) → asleep_weight (pc j) ≡ 1 → (c.flags.isflush ≡ true) × (c.flags.waiting ≡ true)
  pub sound : (j : ℕ) → crash_weight (pc j) ≡ 0

wake_open : (b : Bool) (p : Pc) → open_weight (if b then wake p else p) ≡ open_weight p
wake_open b p = ground arith

wake_flush : (b : Bool) (p : Pc) → flush_weight (if b then wake p else p) ≡ flush_weight p
wake_flush b p = ground arith

wake_crash : (b : Bool) (p : Pc) → crash_weight (if b then wake p else p) ≡ crash_weight p
wake_crash b p = ground arith

wake_asleep : (p : Pc) → asleep_weight (wake p) ≡ 0
wake_asleep p = ground arith

module _ {n : ℕ} {c : Trans} {pc : ℕ → Pc} (inv : Inv n c pc) (t : ℕ) where
  -- Thread `t` goes from `p` to `p'`, with a wakeup if `w`.
  record Mover (p p' : Pc) (w : Bool) : Type 0 where
    opens :
        tally open_weight n (put (woken_if w pc) t p') + open_weight p
        ≡ tally open_weight n pc + open_weight p'
    flushes :
        tally flush_weight n (put (woken_if w pc) t p') + flush_weight p
        ≡ tally flush_weight n pc + flush_weight p'
    few_open : tally open_weight n pc ≤ n
    room : n < count_size
    counts : c.count ≡ tally open_weight n pc
    on : c.flags.isflush ≡ true → tally flush_weight n pc ≡ 1
    off : c.flags.isflush ≡ false → tally flush_weight n pc ≡ 0

  mover : t < n → (p' : Pc) (w : Bool) → Mover (pc t) p' w
  mover lt p' w =
      let o = tally-put open_weight n (woken_if w pc) t p' lt in
      let f = tally-put flush_weight n (woken_if w pc) t p' lt in
      let so = tally-same open_weight n (woken_if w pc) pc (λ j. wake_open w (pc j)) in
      let sf = tally-same flush_weight n (woken_if w pc) pc (λ j. wake_flush w (pc j)) in
      record {
        opens = omega (arith, wake_open w (pc t));
        flushes = omega (arith, wake_flush w (pc t));
        few_open = tally-le open_weight open_weight-le n pc;
        room = inv.few;
        counts = inv.counted;
        on = inv.flushed;
        off = inv.unflushed;
      }

  -- The fields of the invariant that speak of the word and of this thread.
  abbrev Counts : Trans → Pc → Bool → Type 0
  Counts c' p' w = record {
    counted : c'.count ≡ tally open_weight n (put (woken_if w pc) t p');
    flushed : c'.flags.isflush ≡ true → tally flush_weight n (put (woken_if w pc) t p') ≡ 1;
    unflushed : c'.flags.isflush ≡ false → tally flush_weight n (put (woken_if w pc) t p') ≡ 0;
    mine : asleep_weight p' ≡ 1 → (c'.flags.isflush ≡ true) × (c'.flags.waiting ≡ true);
    fine : crash_weight p' ≡ 0;
    others :
        w ≡ false
        → c.flags.isflush ≡ true
        → c.flags.waiting ≡ true
        → (c'.flags.isflush ≡ true) × (c'.flags.waiting ≡ true);
  }

  act-Counts :
      (r : Request) (p : Pc) {c' : Trans} {p' : Pc} {w : Bool}
      → crash_weight p ≡ 0
      → (flush_weight p ≡ 1 → c.flags.isflush ≡ true)
      → open_weight p ≤ tally open_weight n pc
      → Mover p p' w
      → act r c p ≡ some (c', p', w)
      → Counts c' p' w
  unfolding act
  act-Counts start_normal idle k f o m e = ground arith
  act-Counts start_buffered idle k f o m e = ground arith
  act-Counts start_flush idle k f o m e = ground arith
  act-Counts retry woken k f o m e = ground arith
  act-Counts stir asleep k f o m e = ground arith
  act-Counts (finish s) normal k f o m e = ground arith
  act-Counts (finish s) buffered k f o m e = ground arith
  act-Counts (finish s) flushing k f o m e = ground arith
  act-Counts set_rescan p k f o m e = ground arith
  act-Counts clear_rescan p k f o m e = ground arith
  act-Counts clear_waiting p k f o m e = ground arith
  act-Counts r p k f o m e = cc

  -- A call keeps the invariant.
  act-Inv :
      (r : Request) {c' : Trans} {p' : Pc} {w : Bool}
      → t < n
      → act r c (pc t) ≡ some (c', p', w)
      → Inv n c' (put (woken_if w pc) t p')
  act-Inv r {c'} {p'} {w} lt e = record {
    few = inv.few;
    counted = counted;
    flushed = flushed;
    unflushed = unflushed;
    guarded = λ j. guarded_at j w others (dec_eq t j);
    sound = λ j. sound_at j (dec_eq t j);
  }
    where
      own : flush_weight (pc t) ≡ 1 → c.flags.isflush ≡ true
      own h = ground (arith, inv.unflushed, tally-ge flush_weight n pc t lt)

      open (act-Counts r
          (pc t)
          (inv.sound t)
          own
          (tally-ge open_weight n pc t lt)
          (mover lt p' w)
          e) use {counted, flushed, unflushed, mine, fine, others}

      guarded_at :
          (j : ℕ) (b : Bool)
          → (b ≡ false
              → c.flags.isflush ≡ true
              → c.flags.waiting ≡ true
              → (c'.flags.isflush ≡ true) × (c'.flags.waiting ≡ true))
          → Dec (t ≡ j)
          → asleep_weight (put (woken_if b pc) t p' j) ≡ 1
          → (c'.flags.isflush ≡ true) × (c'.flags.waiting ≡ true)
      guarded_at j b keep (yes q) h = mine (ground arith)
      guarded_at j true keep (no q) h = absurd (ground (arith, wake_asleep (pc j)))
      guarded_at j false keep (no q) h = let g = inv.guarded j (ground arith) in keep refl g.0 g.1

      sound_at : (j : ℕ) → Dec (t ≡ j) → crash_weight (put (woken_if w pc) t p' j) ≡ 0
      sound_at j (yes q) = ground (arith, fine)
      sound_at j (no q) = ground (arith, inv.sound j, wake_crash w (pc j))

pub Step-Inv : {n : ℕ} {s u : System} → Step n s u → Inv n s.trans s.pc → Inv n u.trans u.pc
Step-Inv (moves t r lt e) inv = act-Inv inv t r lt e

start-Inv : (n : ℕ) → n < count_size → Inv n start.trans start.pc
start-Inv n few = record {
  few = few;
  counted = rw (tally-none open_weight n (λ _. idle) (λ _. refl));
  flushed = λ e. cc;
  unflushed = λ e. tally-none flush_weight n (λ _. idle) (λ _. refl);
  guarded = λ j h. absurd (omega arith);
  sound = λ j. refl;
}

-- In every state that the threads reach, if there are fewer than the count has room for.
pub Reach-Inv : {n : ℕ} {s : System} → n < count_size → Reach n s → Inv n s.trans s.pc
Reach-Inv {n} few begin = start-Inv n few
Reach-Inv few (later r st) = Step-Inv st (Reach-Inv few r)
