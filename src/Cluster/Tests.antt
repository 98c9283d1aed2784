-- ===== src/Cluster/Tests.antt =====
-- Runs of `hammer2_cluster_check`, and its theorems at a cluster of three masters.
use linux_hammer.Base.{ℕ, ◌<◌, ◌≡◌, refl, Bool, true, false, List, [], ◌∷◌, none, some, arith}
use mathlib.Core.Option
use linux_hammer.Cluster.{tid_max, master, Chain, Slot, Cluster, no_flags}
use linux_hammer.Cluster.Check.{
  Votes, mark_invalid, decide, pass1, pass2, pass3, pass4, pass3_step, poll, vote, conclude,
  mark_matched, hammer2_cluster_check,
}
use linux_hammer.Cluster.Votes.{agreeing}
use linux_hammer.Cluster.Quorum.{Settled}
use linux_hammer.Cluster.Verdict.{verdict, marked, totals, check-settles, check_no_quorum}
use linux_hammer.Cluster.Elements.{Agreed, check_quorum}

abbrev chain_at : ℕ → ℕ → Chain
chain_at addr tid = record {
  addr = addr;
  bref_type = 4;
  key = 7;
  keybits = 0;
  modify_tid = tid;
  bytes = 1024;
  error = 0;
  pfsboundary = false;
}

abbrev holder : ℕ → ℕ → Slot
holder addr tid = record {
  pfs_type = master;
  chain = some (chain_at addr tid);
  error = 0;
  invalid = false;
  femod = false;
  null = false;
}

-- No chain: at work, or at the end of its scan.
abbrev empty : Bool → Slot
empty null = record {
  pfs_type = master;
  chain = none;
  error = 0;
  invalid = false;
  femod = false;
  null = null;
}

abbrev three : List Slot → Cluster
three slots = record {
  pfs_nmasters = some 3;
  slots = slots;
  focus = none;
  focus_index = 0;
  error = 0;
  flags = no_flags;
  ddflag = false;
}

-- Two masters at 5, one ahead at 9.
abbrev agreed : Cluster
agreed = three (holder 1 9 ∷ holder 2 5 ∷ holder 3 5 ∷ [])

-- One at 5, one at work, one at its end.
abbrev waiting : Cluster
waiting = three (holder 1 5 ∷ empty false ∷ empty true ∷ [])

abbrev finished : Cluster
finished = three (empty true ∷ holder 2 5 ∷ empty true ∷ [])

agreed_runs : Option.map (λ (r : Cluster × ℕ). r.1) (hammer2_cluster_check agreed 7 false) ≡ some 0
unfolding hammer2_cluster_check pass1 pass2 poll vote decide conclude pass3 pass3_step pass4
    mark_matched mark_invalid
agreed_runs = refl

check-settles_example :
    (v : Votes) × Settled 7 2 agreed.slots v
    × (hammer2_cluster_check agreed 7 false
        ≡ some (decide false 7 (marked agreed) (totals agreed) v))
check-settles_example = check-settles agreed 7 3 refl

check_quorum_example :
    (tid : ℕ) × (after : Cluster) × (focus : Chain) × (hammer2_cluster_check agreed 7 false
      ≡ some (after, after.error))
    × Agreed 7 tid agreed after focus
unfolding agreeing
check_quorum_example =
    check_quorum agreed 7 3 5 refl (refl, (refl, (refl, tt))) (omega arith) (omega arith)

waiting_disagrees : (q : ℕ) → q < tid_max → agreeing 7 q waiting.slots < 2
unfolding agreeing
waiting_disagrees q lt = ground arith

check_no_quorum_example :
    (after : Cluster) × (hammer2_cluster_check waiting 7 false
      ≡ some (after, verdict 7 3 waiting.slots))
    × (after.slots ≡ mark_invalid waiting.slots)
check_no_quorum_example = check_no_quorum waiting 7 3 refl waiting_disagrees
