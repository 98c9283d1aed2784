-- ===== src/Ccms/Invariant.antt =====
-- Who holds the lock, read off the CST; true at the start and kept by every step.
use native.Mathlib.Decide.{ℕ_discrete as dec_eq}
use linux_hammer.Base.{
  ℕ, zero, suc, ◌+◌, ◌≤◌, ◌<◌, ◌≡◌, ◌≢◌, refl, none, some, arith, ◌⊎◌, inl, inr, Option-cases,
}
use linux_hammer.Base.Int.{pos, negsuc, int32_max}
use linux_hammer.Base.Family.{put, tally, tally-put, tally-le, tally-none}
use linux_hammer.Ccms.{Cst, ccms_cst_init}
use linux_hammer.Ccms.Threads.{
  Pc, idle, want_shared, want_excl, shared, upgrading, crashed, excl, upgraded, Request, act,
  System, Step, moves, start, Reach, begin, later, lock_shared, lock_excl, try_shared, try_excl,
  unlock, upgrade, downgrade, unlock_upgraded, resume,
}

abbrev pub shared_weight : Pc → ℕ
shared_weight shared = 1
shared_weight _ = 0

abbrev pub excl_weight : Pc → ℕ
excl_weight (excl d) = 1
excl_weight (upgraded d) = 1
excl_weight _ = 0

abbrev pub upgrade_weight : Pc → ℕ
upgrade_weight upgrading = 1
upgrade_weight (upgraded d) = 1
upgrade_weight _ = 0

shared_weight-le : (p : Pc) → shared_weight p ≤ 1
shared_weight-le p = ground arith

upgrade_weight-le : (p : Pc) → upgrade_weight p ≤ 1
upgrade_weight-le p = ground arith

-- How many times an exclusive holder has locked again.
abbrev pub depth : Pc → ℕ
depth (excl d) = d
depth (upgraded d) = d
depth _ = 0

abbrev pub is_crashed : Pc → ℕ
is_crashed crashed = 1
is_crashed _ = 0

abbrev Free : ℕ → Cst → (ℕ → Pc) → Type 0
Free n c pc = (tally excl_weight n pc ≡ 0) × (c.count ≡ pos (tally shared_weight n pc))

abbrev Owned : ℕ → Cst → (ℕ → Pc) → ℕ → Type 0
Owned n c pc u =
    (tally excl_weight n pc ≡ 1)
    × (tally shared_weight n pc ≡ 0)
    × (c.count ≡ negsuc (depth (pc u)))
    × (excl_weight (pc u) ≡ 1)
    × (depth (pc u) ≤ int32_max)
    × (u < n)

pub record Inv (n : ℕ) (c : Cst) (pc : ℕ → Pc) : Type 0 where
  pub few : n ≤ int32_max
  pub upgrades : c.upgrade ≡ pos (tally upgrade_weight n pc)
  pub opened : c.td ≡ none → Free n c pc
  pub closed : (u : ℕ) → c.td ≡ some u → Owned n c pc u
  pub owner : (i : ℕ) → excl_weight (pc i) ≡ 1 → c.td ≡ some i
  pub sound : (i : ℕ) → is_crashed (pc i) ≡ 0

module _ {n : ℕ} {c : Cst} {pc : ℕ → Pc} (inv : Inv n c pc) (t : ℕ) where
  -- Thread `t` goes from `p` to `p'`.
  record Mover (p p' : Pc) : Type 0 where
    here : pc t ≡ p
    inside : t < n
    shareds :
        tally shared_weight n (put pc t p') + shared_weight p
        ≡ tally shared_weight n pc + shared_weight p'
    excls :
        tally excl_weight n (put pc t p') + excl_weight p ≡ tally excl_weight n pc + excl_weight p'
    ups :
        tally upgrade_weight n (put pc t p') + upgrade_weight p
        ≡ tally upgrade_weight n pc + upgrade_weight p'
    few_shared : tally shared_weight n (put pc t p') ≤ n
    few_ups : tally upgrade_weight n (put pc t p') ≤ n
    mine : excl_weight p ≡ 1 → c.td ≡ some t
    who : ((c.td ≡ none) × Free n c pc) ⊎ ((u : ℕ) × (c.td ≡ some u) × Owned n c pc u)

  mover : t < n → (p' : Pc) → Mover (pc t) p'
  mover lt p' = record {
    here = refl;
    inside = lt;
    shareds = tally-put shared_weight n pc t p' lt;
    excls = tally-put excl_weight n pc t p' lt;
    ups = tally-put upgrade_weight n pc t p' lt;
    few_shared = tally-le shared_weight shared_weight-le n _;
    few_ups = tally-le upgrade_weight upgrade_weight-le n _;
    mine = inv.owner t;
    who = elim (Option-cases c.td) [
      | inl e ↦ inl (e, inv.opened e)
      | inr (u, e) ↦ inr (u, e, inv.closed u e)
    ];
  }

  -- The fields of the invariant that speak of numbers alone.
  abbrev Counts : Cst → Pc → Type 0
  Counts c' p' = record {
    upgrades : c'.upgrade ≡ pos (tally upgrade_weight n (put pc t p'));
    opened : c'.td ≡ none → Free n c' (put pc t p');
    closed : (u : ℕ) → c'.td ≡ some u → Owned n c' (put pc t p') u;
    mine : excl_weight p' ≡ 1 → c'.td ≡ some t;
    sound : is_crashed p' ≡ 0;
  }

  act-Counts :
      (r : Request) (p : Pc) {c' : Cst} {p' : Pc}
      → Mover p p'
      → act t r c p ≡ some (c', p')
      → Counts c' p'
  unfolding act
  act-Counts lock_shared idle m e = ground arith
  act-Counts lock_excl idle m e = ground arith
  act-Counts try_shared idle m e = ground arith
  act-Counts try_excl idle m e = ground arith
  act-Counts resume want_shared m e = ground arith
  act-Counts resume want_excl m e = ground arith
  act-Counts unlock shared m e = ground arith
  act-Counts upgrade shared m e = ground arith
  act-Counts resume upgrading m e = ground arith
  act-Counts lock_shared (excl d) m e = ground arith
  act-Counts lock_excl (excl d) m e = ground arith
  act-Counts unlock (excl zero) m e = ground arith
  act-Counts unlock (excl (suc d)) m e = ground arith
  act-Counts upgrade (excl d) m e = ground arith
  act-Counts downgrade (excl d) m e = ground arith
  act-Counts unlock_upgraded (excl zero) m e = ground arith
  act-Counts lock_shared (upgraded d) m e = ground arith
  act-Counts lock_excl (upgraded d) m e = ground arith
  act-Counts unlock (upgraded (suc d)) m e = ground arith
  act-Counts downgrade (upgraded zero) m e = ground arith
  act-Counts unlock_upgraded (upgraded zero) m e = ground arith
  act-Counts r p m e = cc

  -- Another thread that owns the lock goes on owning it.
  act-owner :
      (r : Request) (p : Pc) {c' : Cst} {p' : Pc}
      → Mover p p'
      → act t r c p ≡ some (c', p')
      → (j : ℕ) → t ≢ j
      → c.td ≡ some j
      → c'.td ≡ some j
  unfolding act
  act-owner lock_shared idle m e j ne o = ground arith
  act-owner lock_excl idle m e j ne o = ground arith
  act-owner try_shared idle m e j ne o = ground arith
  act-owner try_excl idle m e j ne o = ground arith
  act-owner resume want_shared m e j ne o = ground arith
  act-owner resume want_excl m e j ne o = ground arith
  act-owner unlock shared m e j ne o = ground arith
  act-owner upgrade shared m e j ne o = ground arith
  act-owner resume upgrading m e j ne o = ground arith
  act-owner lock_shared (excl d) m e j ne o = ground arith
  act-owner lock_excl (excl d) m e j ne o = ground arith
  act-owner unlock (excl zero) m e j ne o = ground arith
  act-owner unlock (excl (suc d)) m e j ne o = ground arith
  act-owner upgrade (excl d) m e j ne o = ground arith
  act-owner downgrade (excl d) m e j ne o = ground arith
  act-owner unlock_upgraded (excl zero) m e j ne o = ground arith
  act-owner lock_shared (upgraded d) m e j ne o = ground arith
  act-owner lock_excl (upgraded d) m e j ne o = ground arith
  act-owner unlock (upgraded (suc d)) m e j ne o = ground arith
  act-owner downgrade (upgraded zero) m e j ne o = ground arith
  act-owner unlock_upgraded (upgraded zero) m e j ne o = ground arith
  act-owner r p m e j ne o = cc

  -- A call that the contract allows keeps the invariant.
  act-Inv :
      (r : Request) {c' : Cst} {p' : Pc}
      → t < n
      → act t r c (pc t) ≡ some (c', p')
      → Inv n c' (put pc t p')
  act-Inv r {c'} {p'} lt e = record {
    few = inv.few;
    upgrades = upgrades;
    opened = opened;
    closed = closed;
    owner = λ j. owner j (dec_eq t j);
    sound = λ j. sound_at j (dec_eq t j);
  }
    where
      m : Mover (pc t) p'
      m = mover lt p'

      open (act-Counts r (pc t) m e) use {upgrades, opened, closed, mine, sound}

      owner : (j : ℕ) → Dec (t ≡ j) → excl_weight (put pc t p' j) ≡ 1 → c'.td ≡ some j
      owner j (yes q) h = ground (arith, mine)
      owner j (no q) h = act-owner r (pc t) m e j q (inv.owner j (ground arith))

      sound_at : (j : ℕ) → Dec (t ≡ j) → is_crashed (put pc t p' j) ≡ 0
      sound_at j (yes q) = ground (arith, sound)
      sound_at j (no q) = ground (arith, inv.sound j)

pub Step-Inv : {n : ℕ} {s u : System} → Step n s u → Inv n s.cst s.pc → Inv n u.cst u.pc
Step-Inv (moves t r lt e) inv = act-Inv inv t r lt e

start-Inv : (n : ℕ) → n ≤ int32_max → Inv n start.cst start.pc
unfolding ccms_cst_init
start-Inv n few = record {
  few = few;
  upgrades = rw (tally-none upgrade_weight n (λ _. idle) (λ _. refl));
  opened = λ _. (
    tally-none excl_weight n (λ _. idle) (λ _. refl),
    rw (tally-none shared_weight n (λ _. idle) (λ _. refl)),
  );
  closed = λ u q. cc;
  owner = λ i q. absurd (omega arith);
  sound = λ _. refl;
}

-- In every state that up to `int32_max` threads reach, the invariant holds.
pub Reach-Inv : {n : ℕ} {s : System} → n ≤ int32_max → Reach n s → Inv n s.cst s.pc
Reach-Inv {n} few begin = start-Inv n few
Reach-Inv few (later r st) = Step-Inv st (Reach-Inv few r)
