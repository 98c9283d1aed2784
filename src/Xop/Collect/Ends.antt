-- ===== src/Xop/Collect/Ends.antt =====
-- The collection ends: each round that goes on leaves a reply behind.
use linux_hammer.Base.{
  ℕ, zero, suc, ◌+◌, ◌≤◌, ◌<◌, ◌≡◌, refl, ◌∙◌, ap, inl, inr, ◌⊎◌, ◌≢◌, Bool, true, false, ◌==◌, ltb,
  ◌||◌, if◌then◌else◌, Option, none, some, List, [], ◌∷◌, arith, Bool-cases, Option-cases,
}
use linux_hammer.Base.Error
use linux_hammer.Cluster.{
  tid_max, Chain, PfsType, master, slave, soft_master, soft_slave, suproot, other, Slot, Cluster,
}
use linux_hammer.Cluster.Check.{
  mark_invalid, mark_matched, mark_element, in_quorum, agrees, pass4, Totals, Votes, conclude,
  decide, quorum_of, hammer2_cluster_check,
}
use linux_hammer.Cluster.Verdict.{marked, totals, end_votes, check-settles, check-null_runs}
use linux_hammer.Xop.Fifo.{Xop}
use linux_hammer.Xop.Collect.{
  Front, again, returned, is_skip, after_check, checked, with_gathered, collect_round,
  hammer2_xop_collect,
}
use linux_hammer.Xop.Collect.Rounds.{
  chains, held, unread, AllOrdered, any_passed, one_if, one_if_le, gather_lem,
}

chains-mark_invalid : (ss : List Slot) → chains (mark_invalid ss) ≡ chains ss
unfolding chains mark_invalid
chains-mark_invalid [] = refl
chains-mark_invalid (s ∷ ss) = ap (◌∷◌ s.chain) (chains-mark_invalid ss)

mark_element-chain : (t : PfsType) (s : Slot) → (mark_element t s).chain ≡ s.chain
mark_element-chain slave s = refl
mark_element-chain soft_slave s = refl
mark_element-chain soft_master s = refl
mark_element-chain master s = refl
mark_element-chain suproot s = refl
mark_element-chain other s = refl

marked_chain : (b : Bool) (s : Slot) → (if b then mark_element s.pfs_type s else s).chain ≡ s.chain
marked_chain true s = mark_element-chain s.pfs_type s
marked_chain false s = refl

chains-mark_matched : (key tid : ℕ) (ss : List Slot) → chains (mark_matched key tid ss) ≡ chains ss
unfolding chains mark_matched
chains-mark_matched key tid [] = refl
chains-mark_matched key tid (s ∷ ss) =
    let ih = chains-mark_matched key tid ss in
    let e = marked_chain (in_quorum key tid s.chain) s in cc

invalid_chain :
    (b : Bool) (s : Slot) → (if b then s else record s { invalid = true }).chain ≡ s.chain
invalid_chain true s = refl
invalid_chain false s = refl

compared_chain :
    (focus : Chain) (s : Slot) (chain : Option Chain)
    → (elim chain as (λ _. Slot) [
      | none ↦ s
      | some c ↦
          if c.addr == focus.addr || s.invalid || agrees focus c
          then s
          else record s { invalid = true }
    ]).chain
      ≡ s.chain
compared_chain focus s none = refl
compared_chain focus s (some c) =
    invalid_chain (c.addr == focus.addr || s.invalid || agrees focus c) s

chains-pass4 : (focus : Chain) (ss : List Slot) → chains (pass4 focus ss) ≡ chains ss
unfolding chains pass4
chains-pass4 focus [] = refl
chains-pass4 focus (s ∷ ss) =
    let ih = chains-pass4 focus ss in let e = compared_chain focus s s.chain in cc

after_chains :
    (b : Bool) (focus : Chain) (ss : List Slot)
    → chains (if b then ss else pass4 focus ss) ≡ chains ss
after_chains true focus ss = refl
after_chains false focus ss = chains-pass4 focus ss

decide_keeps :
    (null : Bool) (key : ℕ) (cluster : Cluster) (p : Totals) (v : Votes)
    → (chains (decide null key cluster p v).0.slots ≡ chains cluster.slots)
      × ((decide null key cluster p v).0.pfs_nmasters ≡ cluster.pfs_nmasters)
unfolding decide conclude
decide_keeps null key cluster p v =
    elim (Bool-cases (ltb v.nmasters (quorum_of cluster.pfs_nmasters))) [
      | inl few ↦ rw few (refl, refl)
      | inr enough ↦ elim (Bool-cases null) [
        | inl end ↦ rw enough (rw end (refl, refl))
        | inr key_asked ↦ elim (Option-cases v.focus) [
          | inl nowhere ↦ rw enough (rw key_asked (rw nowhere (refl, refl)))
          | inr (focus, at) ↦ rw enough (
              rw key_asked (
                rw at (
                  after_chains focus.pfsboundary focus (mark_matched key v.quorum_tid cluster.slots)
                      ∙ chains-mark_matched key v.quorum_tid cluster.slots,
                  refl,
                )))
        ]
      ]
    ]

-- The check always returns, and moves no element.
check_keeps :
    (cluster : Cluster) (key m : ℕ) (null : Bool)
    → cluster.pfs_nmasters ≡ some m
    → (after : Cluster) × (e : ℕ) × (hammer2_cluster_check cluster key null ≡ some (after, e))
      × (chains after.slots ≡ chains cluster.slots)
      × (after.pfs_nmasters ≡ some m)
check_keeps cluster key m true e =
    let v = end_votes cluster key in
    let (same, pfs) = decide_keeps true key (marked cluster) (totals cluster) v in
    let r = decide true key (marked cluster) (totals cluster) v in
    (r.0, r.1, check-null_runs cluster key m e, same ∙ chains-mark_invalid cluster.slots, pfs ∙ e)
check_keeps cluster key m false e =
    let (v, settled, runs) = check-settles cluster key m e in
    let (same, pfs) = decide_keeps false key (marked cluster) (totals cluster) v in
    let r = decide false key (marked cluster) (totals cluster) v in
    (r.0, r.1, runs, same ∙ chains-mark_invalid cluster.slots, pfs ∙ e)

-- The operation after a round.
abbrev moved : ℕ → Front → Front
moved lokey x = record x { collect_key = if lokey == tid_max then lokey else lokey + 1 }

after_lem :
    (lokey : ℕ) (x : Front) (error : ℕ)
    → (lokey ≡ tid_max) ⊎ (any_passed (suc lokey) (chains x.cluster.slots) ≡ true)
    → ((e : ℕ) × (after_check lokey x error ≡ returned (moved lokey x) e) × (is_skip e ≡ false))
      ⊎ ((after_check lokey x error ≡ again (moved lokey x))
          × (any_passed (moved lokey x).collect_key (chains x.cluster.slots) ≡ true))
unfolding after_check
after_lem lokey x error low = elim (Bool-cases (is_skip error)) [
  | inr answer ↦ inl (error, rw (after_check, answer) refl, answer)
  | inl skip ↦ elim (Bool-cases (lokey == tid_max)) [
    | inl end ↦ inl (Error.enoent, rw (after_check, skip, end) refl, refl)
    | inr more ↦
        let next : lokey + 1 ≡ suc lokey = omega arith in
        elim low [
          | inl greatest ↦ absurd (ground (arith, more, greatest))
          | inr passed ↦ inr (rw (after_check, skip, more) refl, rw more (rw next passed))
        ]
  ]
]

-- The replies of all elements that are still to be passed by.
abbrev pub pending : Front → ℕ
pending x = held (chains x.cluster.slots) + unread x.xop.collect

abbrev pub passed : Front → ℕ
passed x = one_if (any_passed x.collect_key (chains x.cluster.slots))

pub record IsReady (m : ℕ) (x : Front) : Type 0 where
  pub counted : x.cluster.pfs_nmasters ≡ some m
  pub ordered : AllOrdered (chains x.cluster.slots) x.xop.collect

round_lem :
    (x : Front) (m : ℕ)
    → IsReady m x
    → (y : Front) × IsReady m y
      × (pending y + passed x ≤ pending x)
      × (((e : ℕ) × (collect_round x ≡ returned y e) × (is_skip e ≡ false))
          ⊎ ((collect_round x ≡ again y) × (passed y ≡ 1)))
unfolding collect_round with_gathered checked
round_lem x m ready =
    let (g, gathers, ordered, less, low) =
      gather_lem x.xop.fifo_size x.collect_key x.cluster.slots x.xop.collect tid_max true
        ready.ordered in
    let cluster : Cluster = record x.cluster { slots = g.slots } in
    let (after, error, checks, same, pfs) = check_keeps cluster g.lokey m g.keynull ready.counted in
    let xop : Xop = record x.xop { collect = g.fifos } in
    let z : Front = record x { xop = xop; cluster = after } in
    let low' : (g.lokey ≡ tid_max) ⊎ (any_passed (suc g.lokey) (chains after.slots) ≡ true) =
      rw same low in
    (
      moved g.lokey z,
      record { counted = pfs; ordered = rw same ordered },
      rw same less,
      elim (after_lem g.lokey z error low') [
        | inl (e, runs, answer) ↦ inl (e, rw (collect_round, gathers, checks) runs, answer)
        | inr (runs, at) ↦ inr (rw (collect_round, gathers, checks) runs, rw at refl)
      ],
    )

rounds_end :
    (fuel : ℕ) (x : Front) (m : ℕ)
    → IsReady m x
    → pending x + 1 < fuel + passed x
    → (y : Front) × (e : ℕ) × (hammer2_xop_collect fuel x ≡ some (y, e))
      × (is_skip e ≡ false)
      × IsReady m y
      × (pending y ≤ pending x)
unfolding hammer2_xop_collect
rounds_end zero x m ready enough =
    let le = one_if_le (any_passed x.collect_key (chains x.cluster.slots)) in absurd (omega arith)
rounds_end (suc fuel) x m ready enough =
    let (y, ready', less, runs) = round_lem x m ready in
    elim runs [
      | inl (e, round, answer) ↦
          (y, e, rw (hammer2_xop_collect, round) refl, answer, ready', omega arith)
      | inr (round, one) ↦
          let (z, e, rest, answer, ready'', less') = rounds_end fuel y m ready' (omega arith) in
          (z, e, rw (hammer2_xop_collect, round) rest, answer, ready'', omega arith)
    ]

-- The collection always returns, in at most two rounds more than there are replies: each round that goes on
-- has passed by a reply. What it returns is not ESRCH or EDEADLK, the two answers of the check that a key
-- is to be skipped for. The FIFOs stay in order, and what is left to read has not become more. The cluster
-- has a PFS, and each element a FIFO that is not read past its end.
pub xop_collect-ends :
    (x : Front) (m : ℕ)
    → IsReady m x
    → (y : Front) × (e : ℕ) × (hammer2_xop_collect (pending x + 2) x ≡ some (y, e))
      × (e ≢ Error.esrch)
      × (e ≢ Error.edeadlk)
      × IsReady m y
      × (pending y ≤ pending x)
xop_collect-ends x m ready =
    let (y, e, runs, answer, ready', less) = rounds_end (pending x + 2) x m ready (omega arith) in
    (y, e, runs, ground (arith, answer), ground (arith, answer), ready', less)
