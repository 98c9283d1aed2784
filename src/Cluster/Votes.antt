-- ===== src/Cluster/Votes.antt =====
-- One round of pass 2 of `hammer2_cluster_check` against a count of the masters.
use linux_hammer.Base.{
  ℕ, suc, ◌+◌, ◌≤◌, ◌<◌, ◌≡◌, refl, ap, ◌≢◌, ◌⊎◌, inl, inr, Bool, true, false, not, ◌&&◌, ◌==◌, ltb,
  if◌then◌else◌, List, [], ◌∷◌, Option, none, some, arith, length, Bool-cases,
}
use linux_hammer.Cluster.{Chain, Slot, is_master, matches_key, is_unreachable}
use linux_hammer.Cluster.Check.{Totals, pass1, pass1_step, mark_invalid, Votes, vote, poll}

abbrev pub one_if : Bool → ℕ
one_if true = 1
one_if false = 0

-- A master whose chain has the key and the transaction id.
abbrev pub supports : ℕ → ℕ → Slot → Bool
supports key tid s =
    is_master s.pfs_type
    && elim s.chain [ none ↦ false | some c ↦ matches_key key c && c.modify_tid == tid ]

-- How many masters hold the key at the transaction id.
unfoldable pub agreeing : ℕ → ℕ → List Slot → ℕ
agreeing key tid [] = 0
agreeing key tid (s ∷ ss) = one_if (supports key tid s) + agreeing key tid ss

-- A master that is still at work: no chain yet, and no end reported.
abbrev pub in_progress : Slot → Bool
in_progress s = is_master s.pfs_type && not s.null && elim s.chain [ none ↦ true | some c ↦ false ]

unfoldable pub progressing : List Slot → ℕ
progressing [] = 0
progressing (s ∷ ss) = one_if (in_progress s) + progressing ss

-- A master that has reported the end of the scan and that can be reached.
abbrev pub ended : Slot → Bool
ended s =
    is_master s.pfs_type
    && s.null
    && not (is_unreachable s.error)
    && elim s.chain [ none ↦ true | some c ↦ false ]

unfoldable pub ending : List Slot → ℕ
ending [] = 0
ending (s ∷ ss) = one_if (ended s) + ending ss

-- A master whose element ended with the connection class.
abbrev pub cut_off : Slot → Bool
cut_off s =
    is_master s.pfs_type
    && s.null
    && is_unreachable s.error
    && elim s.chain [ none ↦ true | some c ↦ false ]

unfoldable pub unreachable : List Slot → ℕ
unreachable [] = 0
unreachable (s ∷ ss) = one_if (cut_off s) + unreachable ss

-- A master that holds the key, at whatever transaction id.
abbrev pub holds_key : ℕ → Slot → Bool
holds_key key s = is_master s.pfs_type && elim s.chain [ none ↦ false | some c ↦ matches_key key c ]

unfoldable pub holding : ℕ → List Slot → ℕ
holding key [] = 0
holding key (s ∷ ss) = one_if (holds_key key s) + holding key ss

unfoldable pub masters : List Slot → ℕ
masters [] = 0
masters (s ∷ ss) = one_if (is_master s.pfs_type) + masters ss

-- Two transaction ids share no supporter.
pub agreeing_two-le-masters :
    (key q r : ℕ) (ss : List Slot) → q ≢ r → agreeing key q ss + agreeing key r ss ≤ masters ss
unfolding agreeing masters
agreeing_two-le-masters key q r [] ne = omega arith
agreeing_two-le-masters key q r (s ∷ ss) ne = ground (arith, agreeing_two-le-masters key q r ss ne)

step-ttlmasters :
    (i : ℕ) (s : Slot) (p : Totals)
    → (pass1_step i s p).ttlmasters ≡ p.ttlmasters + one_if (is_master s.pfs_type)
unfolding pass1_step
step-ttlmasters i s p = ground arith

pub pass1-ttlmasters :
    (i : ℕ) (ss : List Slot) (p : Totals) → (pass1 i ss p).ttlmasters ≡ p.ttlmasters + masters ss
unfolding pass1 masters
pass1-ttlmasters i [] p = omega arith
pass1-ttlmasters i (s ∷ ss) p =
    omega (arith, pass1-ttlmasters (i + 1) ss (pass1_step i s p), step-ttlmasters i s p)

abbrev below_tid : ℕ → Option Chain → Bool
below_tid last none = false
below_tid last (some c) = ltb c.modify_tid last

-- How many chains have a transaction id below the given one.
pub below : ℕ → List Slot → ℕ
below last [] = 0
below last (s ∷ ss) = one_if (below_tid last s.chain) + below last ss

pub below-le-length : (last : ℕ) (ss : List Slot) → below last ss ≤ length ss
unfolding below
below-le-length last [] = omega arith
below-le-length last (s ∷ ss) = ground (arith, below-le-length last ss)

below_mono : (q last : ℕ) (ss : List Slot) → q < last → below q ss ≤ below last ss
unfolding below
below_mono q last [] lt = omega arith
below_mono q last (s ∷ ss) lt = ground (arith, below_mono q last ss lt)

-- A supported transaction id is not below itself.
pub below_falls :
    (key q last : ℕ) (ss : List Slot)
    → q < last
    → 0 < agreeing key q ss
    → below q ss < below last ss
unfolding below agreeing
below_falls key q last [] lt h = absurd (omega arith)
below_falls key q last (s ∷ ss) lt h = elim (Bool-cases (supports key q s)) [
  | inl here ↦ ground (arith, below_mono q last ss lt)
  | inr later ↦ ground (arith, below_mono q last ss lt, below_falls key q last ss lt)
]

-- What one element does to the count.
record Counted (key last : ℕ) (s : Slot) (v u : Votes) : Type 0 where
  rises : v.quorum_tid ≤ u.quorum_tid
  bounded : (u.quorum_tid ≡ v.quorum_tid) ⊎ (u.quorum_tid < last)
  counts :
      ((u.quorum_tid ≡ v.quorum_tid)
        × (u.nmasters ≡ v.nmasters + one_if (supports key u.quorum_tid s)))
      ⊎ ((v.quorum_tid < u.quorum_tid) × (u.nmasters ≡ 1) × (supports key u.quorum_tid s ≡ true))

vote-Counted :
    (key last i : ℕ) (s : Slot) (v : Votes) → Counted key last s v (vote false key last i s v)
unfolding vote
vote-Counted key last i s v = record {
  rises = ground arith;
  bounded = ground arith;
  counts = ground arith;
}

vote_highest :
    (key last i : ℕ) (s : Slot) (v : Votes) (q : ℕ)
    → (vote false key last i s v).quorum_tid < q
    → q < last
    → supports key q s ≡ false
unfolding vote
vote_highest key last i s v q above lt = ground arith

module _ (key last : ℕ) where
  -- The transaction id only rises, and stays below `last` if it does.
  pub poll-quorum_tid :
      (i : ℕ) (ss : List Slot) (v : Votes)
      → let w = poll false key last i ss v in
        (v.quorum_tid ≤ w.quorum_tid) × ((w.quorum_tid ≡ v.quorum_tid) ⊎ (w.quorum_tid < last))
  unfolding poll
  poll-quorum_tid i [] v = ground arith
  poll-quorum_tid i (s ∷ ss) v =
      ground
        (arith, vote-Counted key last i s v, poll-quorum_tid (i + 1) ss (vote false key last i s v))

  -- No transaction id between the one found and `last` has a supporter.
  pub poll_highest :
      (i : ℕ) (ss : List Slot) (v : Votes) (q : ℕ)
      → (poll false key last i ss v).quorum_tid < q
      → q < last
      → agreeing key q ss ≡ 0
  unfolding poll agreeing
  poll_highest i [] v q above lt = refl
  poll_highest i (s ∷ ss) v q above lt =
      let u = vote false key last i s v in
      ground (
        arith,
        vote_highest key last i s v q,
        poll-quorum_tid (i + 1) ss u,
        poll_highest (i + 1) ss u q above lt,
      )

  -- The count is of the supporters of the transaction id that is found.
  pub poll-nmasters :
      (i : ℕ) (ss : List Slot) (v : Votes)
      → let w = poll false key last i ss v in
        w.nmasters
        ≡ (if w.quorum_tid == v.quorum_tid then v.nmasters else 0) + agreeing key w.quorum_tid ss
  unfolding poll agreeing
  poll-nmasters i [] v = ground arith
  poll-nmasters i (s ∷ ss) v =
      let u = vote false key last i s v in
      let w = poll false key last (i + 1) ss u in
      ground (
        arith,
        vote-Counted key last i s v,
        vote_highest key last i s v w.quorum_tid,
        poll-quorum_tid (i + 1) ss u,
        poll-nmasters (i + 1) ss u,
      )

  -- A transaction id other than the first one has a supporter.
  pub poll_attained :
      (i : ℕ) (ss : List Slot) (v : Votes)
      → let w = poll false key last i ss v in
        (w.quorum_tid ≡ v.quorum_tid) ⊎ (0 < agreeing key w.quorum_tid ss)
  unfolding poll agreeing
  poll_attained i [] v = ground arith
  poll_attained i (s ∷ ss) v =
      let u = vote false key last i s v in
      ground (arith, vote-Counted key last i s v, poll_attained (i + 1) ss u)

vote-umasters :
    (check_null : Bool) (key last i : ℕ) (s : Slot) (v : Votes)
    → (vote check_null key last i s v).umasters ≡ v.umasters + one_if (in_progress s)
unfolding vote
vote-umasters check_null key last i s v = ground arith

vote-ending :
    (key last i : ℕ) (s : Slot) (v : Votes)
    → (vote true key last i s v).nmasters ≡ v.nmasters + one_if (ended s)
unfolding vote
vote-ending key last i s v = ground arith

-- The masters still at work are counted, whatever is asked for.
pub poll-umasters :
    (check_null : Bool) (key last i : ℕ) (ss : List Slot) (v : Votes)
    → (poll check_null key last i ss v).umasters ≡ v.umasters + progressing ss
unfolding poll progressing
poll-umasters check_null key last i [] v = omega arith
poll-umasters check_null key last i (s ∷ ss) v = omega (
  arith,
  poll-umasters check_null key last (i + 1) ss (vote check_null key last i s v),
  vote-umasters check_null key last i s v,
)

-- Asked for the end of a scan, the count is of the masters that have reported it.
pub poll-ending :
    (key last i : ℕ) (ss : List Slot) (v : Votes)
    → (poll true key last i ss v).nmasters ≡ v.nmasters + ending ss
unfolding poll ending
poll-ending key last i [] v = omega arith
poll-ending key last i (s ∷ ss) v =
    omega (
      arith,
      poll-ending key last (i + 1) ss (vote true key last i s v),
      vote-ending key last i s v,
    )

vote-xmasters :
    (check_null : Bool) (key last i : ℕ) (s : Slot) (v : Votes)
    → (vote check_null key last i s v).xmasters ≡ v.xmasters + one_if (cut_off s)
unfolding vote
vote-xmasters check_null key last i s v = ground arith

pub poll-xmasters :
    (check_null : Bool) (key last i : ℕ) (ss : List Slot) (v : Votes)
    → (poll check_null key last i ss v).xmasters ≡ v.xmasters + unreachable ss
unfolding poll unreachable
poll-xmasters check_null key last i [] v = omega arith
poll-xmasters check_null key last i (s ∷ ss) v = omega (
  arith,
  poll-xmasters check_null key last (i + 1) ss (vote check_null key last i s v),
  vote-xmasters check_null key last i s v,
)

vote-keymatch :
    (key last i : ℕ) (s : Slot) (v : Votes)
    → (vote false key last i s v).nmasters_keymatch ≡ v.nmasters_keymatch + one_if (holds_key key s)
unfolding vote
vote-keymatch key last i s v = ground arith

pub poll-keymatch :
    (key last i : ℕ) (ss : List Slot) (v : Votes)
    → (poll false key last i ss v).nmasters_keymatch ≡ v.nmasters_keymatch + holding key ss
unfolding poll holding
poll-keymatch key last i [] v = omega arith
poll-keymatch key last i (s ∷ ss) v = omega (
  arith,
  poll-keymatch key last (i + 1) ss (vote false key last i s v),
  vote-keymatch key last i s v,
)

pub agreeing-mark_invalid :
    (key tid : ℕ) (ss : List Slot) → agreeing key tid (mark_invalid ss) ≡ agreeing key tid ss
unfolding agreeing mark_invalid
agreeing-mark_invalid key tid [] = refl
agreeing-mark_invalid key tid (s ∷ ss) = omega (arith, agreeing-mark_invalid key tid ss)

pub progressing-mark_invalid : (ss : List Slot) → progressing (mark_invalid ss) ≡ progressing ss
unfolding progressing mark_invalid
progressing-mark_invalid [] = refl
progressing-mark_invalid (s ∷ ss) = omega (arith, progressing-mark_invalid ss)

pub ending-mark_invalid : (ss : List Slot) → ending (mark_invalid ss) ≡ ending ss
unfolding ending mark_invalid
ending-mark_invalid [] = refl
ending-mark_invalid (s ∷ ss) = omega (arith, ending-mark_invalid ss)

pub length-mark_invalid : (ss : List Slot) → length (mark_invalid ss) ≡ length ss
unfolding mark_invalid
length-mark_invalid [] = refl
length-mark_invalid (s ∷ ss) = ap suc (length-mark_invalid ss)

pub unreachable-mark_invalid : (ss : List Slot) → unreachable (mark_invalid ss) ≡ unreachable ss
unfolding unreachable mark_invalid
unreachable-mark_invalid [] = refl
unreachable-mark_invalid (s ∷ ss) = omega (arith, unreachable-mark_invalid ss)

pub holding-mark_invalid :
    (key : ℕ) (ss : List Slot) → holding key (mark_invalid ss) ≡ holding key ss
unfolding holding mark_invalid
holding-mark_invalid key [] = refl
holding-mark_invalid key (s ∷ ss) = omega (arith, holding-mark_invalid key ss)

-- Asked for the end of a scan, no chain is looked at.
vote-null_keeps :
    (key last i : ℕ) (s : Slot) (v : Votes)
    → ((vote true key last i s v).quorum_tid ≡ v.quorum_tid)
      × ((vote true key last i s v).nmasters_keymatch ≡ v.nmasters_keymatch + one_if (ended s))
unfolding vote
vote-null_keeps key last i s v = ground arith

pub poll-null_keeps :
    (key last i : ℕ) (ss : List Slot) (v : Votes)
    → let w = poll true key last i ss v in
      (w.quorum_tid ≡ v.quorum_tid) × (w.nmasters_keymatch ≡ v.nmasters_keymatch + ending ss)
unfolding poll ending
poll-null_keeps key last i [] v = omega arith
poll-null_keeps key last i (s ∷ ss) v = omega (
  arith,
  poll-null_keeps key last (i + 1) ss (vote true key last i s v),
  vote-null_keeps key last i s v,
)
