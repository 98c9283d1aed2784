-- ===== src/Cluster/Verdict.antt =====
-- What `hammer2_cluster_check` returns, against the count of the masters.
use linux_hammer.Base.{
  ℕ, suc, ◌+◌, ◌≤◌, ◌<◌, ◌≡◌, ◌≢◌, refl, ◌∙◌, ap, Bool, true, false, ltb, leb, if◌then◌else◌, List,
  some, arith, length,
}
use linux_hammer.Base.{ℕ_discrete, ◌||◌}
use linux_hammer.Base.Error
use linux_hammer.Cluster.{tid_max, Slot, Cluster}
use linux_hammer.Cluster.Check.{
  Votes, Totals, pass1, pass2, poll, recount, rounds, no_totals, no_votes, mark_invalid, quorum_of,
  decide, polled, hammer2_cluster_check,
}
use linux_hammer.Cluster.Votes.{
  agreeing, masters, agreeing_two-le-masters, pass1-ttlmasters, unreachable, holding,
  agreeing-mark_invalid, progressing-mark_invalid, unreachable-mark_invalid, holding-mark_invalid,
  length-mark_invalid, ending-mark_invalid, progressing, ending, poll-ending, poll-umasters,
  poll-xmasters, poll-null_keeps,
}
use linux_hammer.Cluster.Quorum.{Settled, pass2-Settled, pass2-null}

-- The cluster as pass 1 leaves its elements, and the totals of pass 1.
abbrev pub marked : Cluster → Cluster
marked cluster = record cluster { slots = mark_invalid cluster.slots }

abbrev pub totals : Cluster → Totals
totals cluster = pass1 0 cluster.slots (no_totals cluster.focus_index)

Settled-mark_invalid :
    (key nquorum : ℕ) (ss : List Slot) {v : Votes}
    → Settled key nquorum (mark_invalid ss) v
    → Settled key nquorum ss v
Settled-mark_invalid key nquorum ss {v} s = record {
  counted = s.counted ∙ agreeing-mark_invalid key v.quorum_tid ss;
  highest = λ q above lt. omega (arith, s.highest q above lt, agreeing-mark_invalid key q ss);
  exhausted = s.exhausted;
  waiting = s.waiting ∙ progressing-mark_invalid ss;
  cut = s.cut ∙ unreachable-mark_invalid ss;
  held = s.held ∙ holding-mark_invalid key ss;
  proper = s.proper;
}

pub check_runs :
    (cluster : Cluster) (key : ℕ) (check_null : Bool) (v : Votes)
    → pass2
        (rounds cluster.slots)
        check_null
        key
        (quorum_of cluster.pfs_nmasters)
        (mark_invalid cluster.slots)
        tid_max
        (no_votes (totals cluster))
      ≡ some v
    → hammer2_cluster_check cluster key check_null
      ≡ some (decide check_null key (marked cluster) (totals cluster) v)
unfolding hammer2_cluster_check
check_runs cluster key check_null v e = rw (e, hammer2_cluster_check)

-- The votes that pass 2 of a check of a key ends with.
pub check_votes :
    (cluster : Cluster) (key m : ℕ)
    → cluster.pfs_nmasters ≡ some m
    → (v : Votes) × Settled key (quorum_of cluster.pfs_nmasters) cluster.slots v
      × (pass2
            (rounds cluster.slots)
            false
            key
            (quorum_of cluster.pfs_nmasters)
            (mark_invalid cluster.slots)
            tid_max
            (no_votes (totals cluster))
          ≡ some v)
check_votes cluster key m e =
    let nquorum = quorum_of cluster.pfs_nmasters in
    let some_needed : 0 < nquorum = omega (arith, ap quorum_of e) in
    let (v, runs, settled) =
      pass2-Settled key nquorum (mark_invalid cluster.slots) (rounds cluster.slots)
        (no_votes (totals cluster)) refl some_needed
        (omega (arith, length-mark_invalid cluster.slots)) in
    (v, Settled-mark_invalid key nquorum cluster.slots settled, runs)

-- The check of a key of a cluster with a PFS always returns: pass 2 ends within the fuel, with the
-- counts of the masters as they stand, above its `quorum_tid` no transaction id below
-- `HAMMER2_TID_MAX` has a quorum, and the rest of the check decides by those counts.
pub check-settles :
    (cluster : Cluster) (key m : ℕ)
    → cluster.pfs_nmasters ≡ some m
    → (v : Votes) × Settled key (quorum_of cluster.pfs_nmasters) cluster.slots v
      × (hammer2_cluster_check cluster key false
          ≡ some (decide false key (marked cluster) (totals cluster) v))
check-settles cluster key m e =
    let (v, settled, runs) = check_votes cluster key m e in
    (v, settled, check_runs cluster key false v runs)

-- Two quorums of one cluster agree. Where the PFS counts all the masters that have an element, no two
-- different transaction ids of a key are each held by a quorum of them.
quorum_unique :
    (key m q r : ℕ) (slots : List Slot)
    → masters slots ≤ m
    → quorum_of (some m) ≤ agreeing key q slots
    → quorum_of (some m) ≤ agreeing key r slots
    → q ≡ r
quorum_unique key m q r slots fits hq hr = elim (ℕ_discrete q r) [
  | yes same ↦ same
  | no ne ↦ absurd (omega (arith, agreeing_two-le-masters key q r slots ne))
]

-- What the check is to return where no quorum holds the key, from counts of the masters.
abbrev pub verdict : ℕ → ℕ → List Slot → ℕ
verdict key m slots =
    if leb (quorum_of (some m)) (agreeing key 0 slots + progressing slots)
    then Error.einprogress
    else if ltb 0 (unreachable slots) || ltb (masters slots) m
    then Error.enotconn
    else if ltb (holding key slots) (quorum_of (some m))
    then Error.esrch
    else Error.edeadlk

verdict_lem :
    (cluster : Cluster) (key m : ℕ) (v : Votes)
    → cluster.pfs_nmasters ≡ some m
    → Settled key (quorum_of cluster.pfs_nmasters) cluster.slots v
    → v.nmasters < quorum_of cluster.pfs_nmasters
    → decide false key (marked cluster) (totals cluster) v
      ≡ (polled (marked cluster) v, verdict key m cluster.slots)
unfolding decide
verdict_lem cluster key m v e settled few = ground (
  arith,
  settled.exhausted few,
  settled.counted,
  ap (λ q. agreeing key q cluster.slots) (settled.exhausted few),
  pass1-ttlmasters 0 cluster.slots (no_totals cluster.focus_index),
)

-- Where no transaction id below `HAMMER2_TID_MAX` of the key is held by a quorum, the check returns,
-- leaves every element as pass 1 marked it, invalid, and answers by the masters: EINPROGRESS if those
-- at work and those at transaction id 0 make up a quorum, else ENOTCONN if a master is cut off or has
-- no element, else ESRCH if fewer than a quorum hold the key, else EDEADLK.
pub check_no_quorum :
    (cluster : Cluster) (key m : ℕ)
    → cluster.pfs_nmasters ≡ some m
    → ((q : ℕ) → q < tid_max → agreeing key q cluster.slots < quorum_of (some m))
    → (after : Cluster) × (hammer2_cluster_check cluster key false
        ≡ some (after, verdict key m cluster.slots))
      × (after.slots ≡ mark_invalid cluster.slots)
check_no_quorum cluster key m e disagree =
    let (v, settled, runs) = check-settles cluster key m e in
    let few : v.nmasters < quorum_of cluster.pfs_nmasters =
      omega (arith, settled.counted, disagree v.quorum_tid settled.proper, ap quorum_of e) in
    (polled (marked cluster) v, runs ∙ ap some (verdict_lem cluster key m v e settled few), refl)

-- The votes for the end of a scan.
abbrev pub end_votes : Cluster → ℕ → Votes
end_votes cluster key =
    poll true key tid_max 0 (mark_invalid cluster.slots) (recount (no_votes (totals cluster)))

pub check-null_runs :
    (cluster : Cluster) (key m : ℕ)
    → cluster.pfs_nmasters ≡ some m
    → hammer2_cluster_check cluster key true
      ≡ some (decide true key (marked cluster) (totals cluster) (end_votes cluster key))
check-null_runs cluster key m e =
    let nquorum = quorum_of cluster.pfs_nmasters in
    let some_needed : 0 < nquorum = omega (arith, ap quorum_of e) in
    let enough_fuel : rounds cluster.slots ≡ suc (suc (length cluster.slots)) = omega arith in
    check_runs cluster key true (end_votes cluster key) (
      rw enough_fuel (
        pass2-null key nquorum (mark_invalid cluster.slots) (length cluster.slots)
          (no_votes (totals cluster)) refl some_needed))

-- A cluster with a PFS that is asked for the end of a scan always answers. If a quorum of the masters
-- that can be reached has reported the end, the answer is an error, ENOENT unless an element has
-- one of its own, and is left in the cluster; else it is EINPROGRESS if those at work complete the
-- quorum, else ENOTCONN if a master is cut off or has no element, else ESRCH.
check_end_of_scan :
    (cluster : Cluster) (key m : ℕ)
    → cluster.pfs_nmasters ≡ some m
    → (after : Cluster) × (e : ℕ) × (hammer2_cluster_check cluster key true ≡ some (after, e))
      × (quorum_of (some m) ≤ ending cluster.slots → (e ≢ 0) × (after.error ≡ e))
      × (ending cluster.slots < quorum_of (some m)
          → e ≡ (
              if leb (quorum_of (some m)) (ending cluster.slots + progressing cluster.slots)
              then Error.einprogress
              else if ltb 0 (unreachable cluster.slots) || ltb (masters cluster.slots) m
              then Error.enotconn
              else Error.esrch))
unfolding decide
check_end_of_scan cluster key m e =
    let v = end_votes cluster key in
    let slots = mark_invalid cluster.slots in
    let none_yet = recount (no_votes (totals cluster)) in
    let r = decide true key (marked cluster) (totals cluster) v in
    (
      r.0,
      r.1,
      check-null_runs cluster key m e,
      ground (
        arith,
        ap quorum_of e,
        poll-ending key tid_max 0 slots none_yet,
        poll-umasters true key tid_max 0 slots none_yet,
        poll-xmasters true key tid_max 0 slots none_yet,
        poll-null_keeps key tid_max 0 slots none_yet,
        ending-mark_invalid cluster.slots,
        progressing-mark_invalid cluster.slots,
        unreachable-mark_invalid cluster.slots,
        pass1-ttlmasters 0 cluster.slots (no_totals cluster.focus_index),
      ),
      ground (
        arith,
        ap quorum_of e,
        poll-ending key tid_max 0 slots none_yet,
        poll-umasters true key tid_max 0 slots none_yet,
        poll-xmasters true key tid_max 0 slots none_yet,
        poll-null_keeps key tid_max 0 slots none_yet,
        ending-mark_invalid cluster.slots,
        progressing-mark_invalid cluster.slots,
        unreachable-mark_invalid cluster.slots,
        pass1-ttlmasters 0 cluster.slots (no_totals cluster.focus_index),
      ),
    )
