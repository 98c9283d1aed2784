-- ===== src/Cluster/Elements.antt =====
-- What `hammer2_cluster_check` leaves in the cluster where a quorum of its masters agrees.
use linux_hammer.Base.{
  ℕ, zero, suc, ◌+◌, ◌≤◌, ◌<◌, ◌≡◌, refl, subst, ◌∙◌, ap, ◌⊎◌, inl, inr, Bool, true, false, not,
  ◌&&◌, ◌||◌, ◌==◌, if◌then◌else◌, List, [], ◌∷◌, map, Option, none, some, arith, dec_lt,
}
use linux_hammer.Cluster.{
  tid_max, PfsType, master, soft_master, suproot, other, Chain, Slot, Cluster, matches_key,
}
use linux_hammer.Cluster.Check.{
  Votes, Matched, vote, poll, recount, pass2, pass3, pass3_step, pass4, rounds, no_totals, no_votes,
  mark_invalid, mark_matched, in_quorum, agrees, quorum_of, conclude, decide, hammer2_cluster_check,
}
use linux_hammer.Cluster.Votes.{agreeing, masters, pass1-ttlmasters}
use linux_hammer.Cluster.Quorum.{Settled}
use linux_hammer.Cluster.Verdict.{marked, totals, check_votes, check_runs}

-- No chain of an element has an error.
abbrev pub is_sound : Slot → Bool
is_sound s = elim s.chain [ none ↦ true | some c ↦ c.error == 0 ]

abbrev pub AreSound : List Slot → Type 0
AreSound [] = Unit
AreSound (s ∷ ss) = (is_sound s ≡ true) × AreSound ss

-- A chain at the given transaction id that matches the key.
abbrev pub FocusAt : ℕ → ℕ → Option Chain → Type 0
FocusAt key tid none = ⊥
FocusAt key tid (some c) = (c.modify_tid ≡ tid) × (matches_key key c ≡ true)

abbrev Focused : ℕ → Votes → Type 0
Focused key v = (v.nmasters ≡ 0) ⊎ FocusAt key v.quorum_tid v.focus

vote-Focused :
    (key last i : ℕ) (s : Slot) (v : Votes)
    → is_sound s ≡ true
    → Focused key v
    → Focused key (vote false key last i s v)
unfolding vote
vote-Focused key last i s v sound f = ground arith

poll-Focused :
    (key last i : ℕ) (ss : List Slot) (v : Votes)
    → AreSound ss
    → Focused key v
    → Focused key (poll false key last i ss v)
unfolding poll
poll-Focused key last i [] v sound f = f
poll-Focused key last i (s ∷ ss) v sound f =
    poll-Focused key last (i + 1) ss (vote false key last i s v) sound.1
      (vote-Focused key last i s v sound.0 f)

pass2_cases :
    (key nquorum : ℕ) (slots : List Slot) (fuel last : ℕ) (v w : Votes)
    → pass2 (suc fuel) false key nquorum slots last v ≡ some w
    → let u = poll false key last 0 slots (recount v) in
      (v ≡ w) ⊎ (u ≡ w) ⊎ (pass2 fuel false key nquorum slots u.quorum_tid u ≡ some w)
unfolding pass2
pass2_cases key nquorum slots fuel last v w e = ground arith

pass2-Focused :
    (key nquorum : ℕ) (slots : List Slot)
    → AreSound slots
    → (fuel last : ℕ) (v w : Votes) → Focused key v
    → pass2 fuel false key nquorum slots last v ≡ some w
    → Focused key w
unfolding pass2
pass2-Focused key nquorum slots sound zero last v w f e = cc
pass2-Focused key nquorum slots sound (suc fuel) last v w f e =
    let u = poll false key last 0 slots (recount v) in
    let focused : Focused key u = poll-Focused key last 0 slots (recount v) sound (inl refl) in
    let again = pass2-Focused key nquorum slots sound fuel u.quorum_tid u w focused in
    elim (pass2_cases key nquorum slots fuel last v w e) [
      | inl same ↦ subst (Focused key) same f
      | inr (inl same) ↦ subst (Focused key) same focused
      | inr (inr rest) ↦ again rest
    ]

AreSound-mark_invalid : (ss : List Slot) → AreSound ss → AreSound (mark_invalid ss)
unfolding mark_invalid
AreSound-mark_invalid [] h = h
AreSound-mark_invalid (s ∷ ss) h = (h.0, AreSound-mark_invalid ss h.1)

-- Which elements are to be valid, from what they hold, the key, the quorum's transaction id and the
-- focus.
abbrev has_role : PfsType → Bool
has_role other = false
has_role _ = true

abbrev fits_focus : Chain → Option Chain → Bool
fits_focus focus none = false
fits_focus focus (some c) = focus.pfsboundary || c.addr == focus.addr || agrees focus c

abbrev pub is_valid : ℕ → ℕ → Chain → Slot → Bool
is_valid key tid focus s =
    in_quorum key tid s.chain && has_role s.pfs_type && fits_focus focus s.chain

-- Which elements may be modified through the cluster.
abbrev may_modify : PfsType → Bool
may_modify master = true
may_modify soft_master = true
may_modify suproot = true
may_modify _ = false

abbrev pub is_femod : ℕ → ℕ → Slot → Bool
is_femod key tid s = in_quorum key tid s.chain && may_modify s.pfs_type

abbrev after_passes : ℕ → ℕ → Chain → List Slot → List Slot
after_passes key tid focus ss =
    if focus.pfsboundary
    then mark_matched key tid (mark_invalid ss)
    else pass4 focus (mark_matched key tid (mark_invalid ss))

-- The flags of the elements that are left, each by its own description.
abbrev Marked : ℕ → ℕ → Chain → List Slot → List Slot → Type 0
Marked key tid focus slots after =
    (map (λ s. s.invalid) after ≡ map (λ s. not (is_valid key tid focus s)) slots)
    × (map (λ s. s.femod) after ≡ map (is_femod key tid) slots)
    × (map (λ s. s.chain) after ≡ map (λ s. s.chain) slots)

Marked-boundary :
    (key tid : ℕ) (focus : Chain) (ss : List Slot)
    → focus.pfsboundary ≡ true
    → Marked key tid focus ss (mark_matched key tid (mark_invalid ss))
unfolding mark_matched mark_invalid
Marked-boundary key tid focus [] b = (refl, refl, refl)
Marked-boundary key tid focus (s ∷ ss) b =
    let ih = Marked-boundary key tid focus ss b in
    (ground (arith, ih), ground (arith, ih), ground (arith, ih))

Marked-pass4 :
    (key tid : ℕ) (focus : Chain) (ss : List Slot)
    → focus.pfsboundary ≡ false
    → Marked key tid focus ss (pass4 focus (mark_matched key tid (mark_invalid ss)))
unfolding pass4 mark_matched mark_invalid
Marked-pass4 key tid focus [] b = (refl, refl, refl)
Marked-pass4 key tid focus (s ∷ ss) b =
    let ih = Marked-pass4 key tid focus ss b in
    (ground (arith, ih), ground (arith, ih), ground (arith, ih))

-- The first error among the elements of the quorum.
pub quorum_error : ℕ → ℕ → List Slot → ℕ
quorum_error key tid [] = 0
quorum_error key tid (s ∷ ss) =
    if in_quorum key tid s.chain && not (s.error == 0) then s.error else quorum_error key tid ss

step-error :
    (key tid : ℕ) (s : Slot) (m : Matched)
    → (pass3_step key tid s m).error
      ≡ (if in_quorum key tid s.chain && m.error == 0 then s.error else m.error)
unfolding pass3_step
step-error key tid s m = ground arith

pass3-error :
    (key tid : ℕ) (ss : List Slot) (m : Matched)
    → (pass3 key tid (mark_invalid ss) m).error
      ≡ (if m.error == 0 then quorum_error key tid ss else m.error)
unfolding pass3 quorum_error mark_invalid
pass3-error key tid [] m = ground arith
pass3-error key tid (s ∷ ss) m =
    let t = record s { femod = false; invalid = true } in
    ground (arith, step-error key tid t m, pass3-error key tid ss (pass3_step key tid t m))

-- What a check that succeeds in finding a quorum leaves, at its transaction id and its focus.
pub record Agreed (key tid : ℕ) (cluster after : Cluster) (focus : Chain) : Type 0 where
  pub focused : after.focus ≡ some focus
  pub at_tid : focus.modify_tid ≡ tid
  pub at_key : matches_key key focus ≡ true
  pub quorum : quorum_of cluster.pfs_nmasters ≤ agreeing key tid cluster.slots
  pub highest :
      (r : ℕ)
      → tid < r
      → r < tid_max
      → agreeing key r cluster.slots < quorum_of cluster.pfs_nmasters
  pub valid :
      map (λ s. s.invalid) after.slots ≡ map (λ s. not (is_valid key tid focus s)) cluster.slots
  pub femod : map (λ s. s.femod) after.slots ≡ map (is_femod key tid) cluster.slots
  pub chains : map (λ s. s.chain) after.slots ≡ map (λ s. s.chain) cluster.slots
  pub error : after.error ≡ quorum_error key tid cluster.slots
  pub synced : after.flags.msynced ≡ (agreeing key tid cluster.slots == masters cluster.slots)

Marked-after :
    (key tid : ℕ) (focus : Chain) (ss : List Slot) (b : Bool)
    → focus.pfsboundary ≡ b
    → Marked key tid focus ss (
        if b
        then mark_matched key tid (mark_invalid ss)
        else pass4 focus (mark_matched key tid (mark_invalid ss)))
Marked-after key tid focus ss true h = Marked-boundary key tid focus ss h
Marked-after key tid focus ss false h = Marked-pass4 key tid focus ss h

conclude-Agreed :
    (cluster : Cluster) (key : ℕ) (v : Votes) (focus : Chain)
    → Settled key (quorum_of cluster.pfs_nmasters) cluster.slots v
    → quorum_of cluster.pfs_nmasters ≤ v.nmasters
    → focus.modify_tid ≡ v.quorum_tid
    → matches_key key focus ≡ true
    → Agreed key v.quorum_tid cluster (conclude key (marked cluster) (totals cluster) v focus) focus
unfolding conclude
conclude-Agreed cluster key v focus settled enough at_tid at_key = record {
  focused = refl;
  at_tid = at_tid;
  at_key = at_key;
  quorum = omega (arith, settled.counted);
  highest = settled.highest;
  valid = flags.0;
  femod = flags.1;
  chains = flags.2;
  error = pass3-error key v.quorum_tid cluster.slots _;
  synced =
      ground
        (arith, settled.counted, pass1-ttlmasters 0 cluster.slots (no_totals cluster.focus_index));
}
  where
    flags :
        Marked key v.quorum_tid focus cluster.slots
          (after_passes key v.quorum_tid focus cluster.slots)
    flags = Marked-after key v.quorum_tid focus cluster.slots focus.pfsboundary refl

decide-quorum :
    (cluster : Cluster) (key : ℕ) (v : Votes) (focus : Chain)
    → quorum_of cluster.pfs_nmasters ≤ v.nmasters
    → v.focus ≡ some focus
    → let after = conclude key (marked cluster) (totals cluster) v focus in
      decide false key (marked cluster) (totals cluster) v ≡ (after, after.error)
unfolding decide
decide-quorum cluster key v focus enough e = ground arith

-- Where some transaction id below `HAMMER2_TID_MAX` of the key is held by a quorum of the masters, and
-- no chain of an element has an error, the check succeeds in this sense. The focus is a chain of
-- the key at the highest transaction id that a quorum holds. An element is valid exactly if its
-- chain is at the key and that transaction id, its PFS type has a case, and it matches the focus
-- unless that is a PFS boundary; it may be modified exactly if its chain is so and its PFS is a
-- master, a soft master or the super-root. The value returned is the first error of an element of
-- the quorum, and `MSYNCED` is set exactly if all masters hold that transaction id.
pub check_quorum :
    (cluster : Cluster) (key m q : ℕ)
    → cluster.pfs_nmasters ≡ some m
    → AreSound cluster.slots
    → q < tid_max
    → quorum_of cluster.pfs_nmasters ≤ agreeing key q cluster.slots
    → (tid : ℕ) × (after : Cluster) × (focus : Chain) × (hammer2_cluster_check cluster key false
        ≡ some (after, after.error))
      × Agreed key tid cluster after focus
check_quorum cluster key m q e sound small held = found v.focus refl focused
  where
    votes :
        (v : Votes) × Settled key (quorum_of cluster.pfs_nmasters) cluster.slots v
        × (pass2
              (rounds cluster.slots)
              false
              key
              (quorum_of cluster.pfs_nmasters)
              (mark_invalid cluster.slots)
              tid_max
              (no_votes (totals cluster))
            ≡ some v)
    votes = check_votes cluster key m e

    v : Votes
    v = votes.0

    settled : Settled key (quorum_of cluster.pfs_nmasters) cluster.slots v
    settled = votes.1

    enough : quorum_of cluster.pfs_nmasters ≤ v.nmasters
    enough = elim (dec_lt v.nmasters (quorum_of cluster.pfs_nmasters)) [
      | no h ↦ omega arith
      | yes h ↦ elim (dec_lt v.quorum_tid q) [
        | yes above ↦ absurd (omega (arith, settled.highest q above small))
        | no below ↦
            let at_zero : v.quorum_tid ≡ 0 = settled.exhausted h in
            let same : q ≡ v.quorum_tid = omega (arith, at_zero) in
            absurd (omega (arith, settled.counted, ap (λ t. agreeing key t cluster.slots) same))
      ]
    ]

    focused : Focused key v
    focused =
        pass2-Focused key (quorum_of cluster.pfs_nmasters) (mark_invalid cluster.slots)
          (AreSound-mark_invalid cluster.slots sound) (rounds cluster.slots) tid_max
          (no_votes (totals cluster)) v (inl refl) votes.2

    Found : Type 0
    Found =
        (tid : ℕ) × (after : Cluster) × (focus : Chain) × (hammer2_cluster_check cluster key false
          ≡ some (after, after.error))
        × Agreed key tid cluster after focus

    found : (o : Option Chain) → v.focus ≡ o → Focused key v → Found
    found o h (inl none_voted) = absurd (omega (arith, enough, none_voted, ap quorum_of e))
    found none h (inr at) = absurd (subst (FocusAt key v.quorum_tid) h at)
    found (some focus) h (inr at) =
        let here = subst (FocusAt key v.quorum_tid) h at in
        (
          v.quorum_tid,
          conclude key (marked cluster) (totals cluster) v focus,
          focus,
          check_runs cluster key false v votes.2
              ∙ ap some (decide-quorum cluster key v focus enough h),
          conclude-Agreed cluster key v focus settled enough here.0 here.1,
        )
