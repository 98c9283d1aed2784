-- ===== src/Cluster/Quorum.antt =====
-- The whole of pass 2 of `hammer2_cluster_check`: it ends, and with the highest transaction id that
-- a quorum of the masters holds.
use linux_hammer.Base.{
  ℕ, zero, suc, ◌+◌, ◌≤◌, ◌<◌, ◌≡◌, ◌≢◌, inl, inr, true, false, ◌==◌, leb, if◌then◌else◌, List,
  some, arith, length, dec_lt, Bool-cases,
}
use linux_hammer.Cluster.{tid_max, Slot}
use linux_hammer.Cluster.Check.{Votes, poll, recount, pass2}
use linux_hammer.Cluster.Votes.{
  agreeing, below, below-le-length, below_falls, progressing, poll-quorum_tid, poll_highest,
  poll-nmasters, poll_attained, poll-umasters, poll-xmasters, poll-keymatch, poll-null_keeps,
  unreachable, holding,
}

-- What pass 2 settles on: the counts are of the masters as they stand, no transaction id between
-- `quorum_tid` and `HAMMER2_TID_MAX` is held by a quorum, and without a quorum none is left to try.
pub record Settled (key nquorum : ℕ) (slots : List Slot) (v : Votes) : Type 0 where
  pub counted : v.nmasters ≡ agreeing key v.quorum_tid slots
  pub highest : (q : ℕ) → v.quorum_tid < q → q < tid_max → agreeing key q slots < nquorum
  pub exhausted : v.nmasters < nquorum → v.quorum_tid ≡ 0
  pub waiting : v.umasters ≡ progressing slots
  pub cut : v.xmasters ≡ unreachable slots
  pub held : v.nmasters_keymatch ≡ holding key slots
  pub proper : v.quorum_tid < tid_max

-- The rounds that are left, at most.
measure : ℕ → List Slot → ℕ
measure last slots = if last == 0 then 0 else suc (below last slots)

module _ (key nquorum : ℕ) (slots : List Slot) where
  -- What a round starts from: too few masters so far, and every higher transaction id is done with.
  record Tried (last : ℕ) (v : Votes) : Type 0 where
    few : v.nmasters < nquorum
    done : (q : ℕ) → last ≤ q → q < tid_max → agreeing key q slots < nquorum
    small : last ≤ tid_max
    settled : last ≡ 0 → Settled key nquorum slots v

  module _ (last : ℕ) (v : Votes) (tried : Tried last v) (more : last ≢ 0) where
    abbrev round : Votes
    round = poll false key last 0 slots (recount v)

    round_lt : round.quorum_tid < last
    round_lt = ground (arith, poll-quorum_tid key last 0 slots (recount v))

    round-counted : round.nmasters ≡ agreeing key round.quorum_tid slots
    round-counted = ground (arith, poll-nmasters key last 0 slots (recount v))

    round-measure : measure round.quorum_tid slots < measure last slots
    unfolding measure
    round-measure = ground (
      arith,
      round_lt,
      poll_attained key last 0 slots (recount v),
      below_falls key round.quorum_tid last slots,
    )

    round_highest : (q : ℕ) → round.quorum_tid < q → q < tid_max → agreeing key q slots < nquorum
    round_highest q above lt = elim (dec_lt q last) [
      | yes between ↦
          omega (arith, poll_highest key last 0 slots (recount v) q above between, tried.few)
      | no beyond ↦ tried.done q (omega arith) lt
    ]

    round-Settled :
        (round.nmasters < nquorum → round.quorum_tid ≡ 0) → Settled key nquorum slots round
    round-Settled exhausted = record {
      counted = round-counted;
      highest = round_highest;
      exhausted = exhausted;
      cut = omega (arith, poll-xmasters false key last 0 slots (recount v));
      held = omega (arith, poll-keymatch key last 0 slots (recount v));
      waiting = omega (arith, poll-umasters false key last 0 slots (recount v));
      proper = omega (arith, round_lt, tried.small);
    }

    round-Tried : round.nmasters < nquorum → Tried round.quorum_tid round
    round-Tried few = record {
      few = few;
      done = λ q above lt. elim (dec_lt round.quorum_tid q) [
        | yes higher ↦ round_highest q higher lt
        | no same ↦
            let e : q ≡ round.quorum_tid = omega arith in rw e (omega (arith, round-counted))
      ];
      small = omega (arith, round_lt, tried.small);
      settled = λ e. round-Settled (λ _. e);
    }

  -- With more fuel than rounds are left, the loop ends and has settled.
  pass2_settles :
      (fuel last : ℕ) (v : Votes)
      → Tried last v
      → measure last slots < fuel
      → (w : Votes) × (pass2 fuel false key nquorum slots last v ≡ some w)
        × Settled key nquorum slots w
  unfolding pass2
  pass2_settles zero last v tried lt = absurd (omega arith)
  pass2_settles (suc fuel) last v tried lt = elim (Bool-cases (last == 0)) [
    | inl ended ↦ (v, ground arith, tried.settled (ground arith))
    | inr more ↦
        let ne : last ≢ 0 = ground arith in
        elim (Bool-cases (leb nquorum (round last v tried ne).nmasters)) [
          | inl enough ↦ (
            round last v tried ne,
            ground (arith, tried.few),
            round-Settled last v tried ne (λ few. absurd (ground arith)),
          )
          | inr few ↦
              let (w, e, settled) =
                pass2_settles fuel (round last v tried ne).quorum_tid (round last v tried ne)
                  (round-Tried last v tried ne (ground arith))
                  (omega (arith, round-measure last v tried ne)) in
              (w, ground (arith, tried.few), settled)
        ]
  ]

-- Pass 2 with fuel for a round for each element and two more settles on a quorum, or on there being
-- none, from votes that nobody has cast.
pub pass2-Settled :
    (key nquorum : ℕ) (slots : List Slot) (fuel : ℕ) (v : Votes)
    → v.nmasters ≡ 0
    → 0 < nquorum
    → length slots + 2 ≤ fuel
    → (w : Votes) × (pass2 fuel false key nquorum slots tid_max v ≡ some w)
      × Settled key nquorum slots w
unfolding measure
pass2-Settled key nquorum slots fuel v none_yet some_needed enough =
    pass2_settles key nquorum slots fuel tid_max v
      (record {
        few = omega arith;
        done = λ q above lt. absurd (omega arith);
        small = omega arith;
        settled = λ e. absurd (omega arith);
      })
      (omega (arith, below-le-length tid_max slots))

-- Asked for the end of a scan, one round decides.
pub pass2-null :
    (key nquorum : ℕ) (slots : List Slot) (fuel : ℕ) (v : Votes)
    → v.nmasters ≡ 0
    → 0 < nquorum
    → pass2 (suc (suc fuel)) true key nquorum slots tid_max v
      ≡ some (poll true key tid_max 0 slots (recount v))
unfolding pass2
pass2-null key nquorum slots fuel v none_yet some_needed =
    ground (arith, poll-null_keeps key tid_max 0 slots (recount v))
