-- ===== src/Cluster/Check.antt =====
-- `hammer2_cluster_check`, a pass at a time.
use linux_hammer.Base.{
  ℕ, zero, suc, ◌+◌, ◌/◌, Bool, true, false, not, ◌&&◌, ◌||◌, ◌==◌, ltb, leb, if◌then◌else◌, List,
  [], ◌∷◌, Option, none, some,
}
use linux_hammer.Base.{length}
use linux_hammer.Cluster.{
  tid_max, inode_type, PfsType, slave, soft_slave, soft_master, master, suproot, other, Chain, Slot,
  Flags, no_flags, Cluster, is_unreachable, is_master, matches_key,
}
use linux_hammer.Base.Error

-- What pass 1 comes to, the elements apart.
pub record Totals : Type 0 where
  pub nflags : Flags
  pub ttlmasters : ℕ
  pub ttlslaves : ℕ
  pub focus : Option Chain
  pub focus_index : ℕ
  pub error : ℕ

-- Pass 1 for an element that has a chain and an error: it is only counted.
abbrev count_errored : PfsType → Totals → Totals
count_errored suproot p = record p { ttlmasters = p.ttlmasters + 1 }
count_errored master p = record p { ttlmasters = p.ttlmasters + 1 }
count_errored slave p = record p { ttlslaves = p.ttlslaves + 1 }
count_errored _ p = p

abbrev count_element : ℕ → Slot → PfsType → Totals → Totals
count_element i s master p = record p { ttlmasters = p.ttlmasters + 1 }
count_element i s slave p = record p { ttlslaves = p.ttlslaves + 1 }
count_element i s soft_master p =
    let f = p.nflags in record p { nflags = record f { wrsoft = true; rdsoft = true } }
count_element i s soft_slave p =
    let f = p.nflags in record p { nflags = record f { rdsoft = true } }
count_element i s suproot p =
    let f = p.nflags in
    record p {
      nflags = record f { wrhard = true; rdhard = true };
      ttlmasters = p.ttlmasters + 1;
      focus = s.chain;
      focus_index = i;
      error = s.error;
    }
count_element i s other p = p

abbrev pub has_chain : Option Chain → Bool
has_chain none = false
has_chain (some c) = true

unfoldable pub pass1_step : ℕ → Slot → Totals → Totals
pass1_step i s p =
    if has_chain s.chain && not (s.error == 0)
    then count_errored s.pfs_type p
    else count_element i s s.pfs_type p

unfoldable pub pass1 : ℕ → List Slot → Totals → Totals
pass1 i [] p = p
pass1 i (s ∷ ss) p = pass1 (i + 1) ss (pass1_step i s p)

-- The element flags that pass 1 leaves.
unfoldable pub mark_invalid : List Slot → List Slot
mark_invalid [] = []
mark_invalid (s ∷ ss) = record s { femod = false; invalid = true } ∷ mark_invalid ss

-- The variables of pass 2, with what it writes to the cluster.
pub record Votes : Type 0 where
  pub umasters : ℕ
  pub xmasters : ℕ
  pub nmasters : ℕ
  pub nmasters_keymatch : ℕ
  pub quorum_tid : ℕ
  pub focus : Option Chain
  pub focus_index : ℕ
  pub error : ℕ

-- A master without a chain.
unfoldable pub vote_null : Bool → Slot → Votes → Votes
vote_null check_null s v =
    if not s.null
    then record v { umasters = v.umasters + 1 }
    else if is_unreachable s.error
    then record v { xmasters = v.xmasters + 1 }
    else if check_null
    then record v {
      nmasters = v.nmasters + 1;
      nmasters_keymatch = v.nmasters_keymatch + 1;
      error = if v.error == 0 then s.error else v.error;
    }
    else v

-- A chain that has the key: the highest tid below `last` is taken, and its holders are counted.
unfoldable pub vote_tid : ℕ → ℕ → Chain → Votes → Votes
vote_tid last i c v =
    let w =
      if ltb c.modify_tid last && ltb v.quorum_tid c.modify_tid
      then record v { nmasters = 0; quorum_tid = c.modify_tid }
      else v in
    if w.quorum_tid == c.modify_tid
    then (if c.error == 0
        then record w { nmasters = w.nmasters + 1; focus = some c; focus_index = i }
        else record w { nmasters = w.nmasters + 1 })
    else w

unfoldable pub vote_chain : Bool → ℕ → ℕ → ℕ → Chain → Votes → Votes
unfolding vote_tid
vote_chain check_null key last i c v =
    if check_null
    then v
    else if matches_key key c
    then vote_tid last i c (record v { nmasters_keymatch = v.nmasters_keymatch + 1 })
    else v

unfoldable pub vote : Bool → ℕ → ℕ → ℕ → Slot → Votes → Votes
unfolding vote_null vote_chain
vote check_null key last i s v =
    if is_master s.pfs_type
    then elim s.chain [
      | none ↦ vote_null check_null s v
      | some c ↦ vote_chain check_null key last i c v
    ]
    else v

-- The `for` loop of pass 2.
unfoldable pub poll : Bool → ℕ → ℕ → ℕ → List Slot → Votes → Votes
poll check_null key last i [] v = v
poll check_null key last i (s ∷ ss) v =
    poll check_null key last (i + 1) ss (vote check_null key last i s v)

abbrev pub recount : Votes → Votes
recount v = record v {
  umasters = 0;
  xmasters = 0;
  nmasters = 0;
  nmasters_keymatch = 0;
  quorum_tid = 0;
}

-- The `while` loop of pass 2. `none`: the fuel ran out.
unfoldable pub pass2 : ℕ → Bool → ℕ → ℕ → List Slot → ℕ → Votes → Option Votes
pass2 zero check_null key nquorum slots last v = none
pass2 (suc fuel) check_null key nquorum slots last v =
    let w = poll check_null key last 0 slots (recount v) in
    let more = pass2 fuel check_null key nquorum slots w.quorum_tid w in
    if ltb v.nmasters nquorum && not (last == 0)
    then (if leb nquorum w.nmasters then some w else more)
    else some v

-- A round for each tid that the elements hold, one for none of them, and the last test.
abbrev pub rounds : List Slot → ℕ
rounds slots = length slots + 2

-- What pass 3 comes to, the elements apart.
pub record Matched : Type 0 where
  pub nflags : Flags
  pub nslaves : ℕ
  pub error : ℕ

abbrev pub in_quorum : ℕ → ℕ → Option Chain → Bool
in_quorum key tid none = false
in_quorum key tid (some c) = c.key == key && c.modify_tid == tid

abbrev match_element : PfsType → Matched → Matched
match_element master m =
    let f = m.nflags in record m { nflags = record f { wrhard = true; rdhard = true } }
match_element slave m =
    let f = m.nflags in record m { nflags = record f { rdhard = true }; nslaves = m.nslaves + 1 }
match_element suproot m =
    let f = m.nflags in record m { nflags = record f { wrhard = true; rdhard = true } }
match_element _ m = m

unfoldable pub pass3_step : ℕ → ℕ → Slot → Matched → Matched
pass3_step key tid s m =
    if in_quorum key tid s.chain
    then match_element s.pfs_type (record m { error = if m.error == 0 then s.error else m.error })
    else m

unfoldable pub pass3 : ℕ → ℕ → List Slot → Matched → Matched
pass3 key tid [] m = m
pass3 key tid (s ∷ ss) m = pass3 key tid ss (pass3_step key tid s m)

abbrev pub mark_element : PfsType → Slot → Slot
mark_element master s = record s { femod = true; invalid = false }
mark_element slave s = record s { invalid = false }
mark_element soft_master s = record s { femod = true; invalid = false }
mark_element soft_slave s = record s { invalid = false }
mark_element suproot s = record s { femod = true; invalid = false }
mark_element other s = s

-- The element flags that pass 3 leaves.
unfoldable pub mark_matched : ℕ → ℕ → List Slot → List Slot
mark_matched key tid [] = []
mark_matched key tid (s ∷ ss) =
    (if in_quorum key tid s.chain then mark_element s.pfs_type s else s) ∷ mark_matched key tid ss

abbrev pub is_inode : Chain → Bool
is_inode c = c.bref_type == inode_type

abbrev same_bool : Bool → Bool → Bool
same_bool true b = b
same_bool false b = not b

-- The pass 4 test of an element against the focus.
abbrev pub agrees : Chain → Chain → Bool
agrees focus c =
    c.bref_type == focus.bref_type
    && c.key == focus.key
    && c.keybits == focus.keybits
    && c.modify_tid == focus.modify_tid
    && c.bytes == focus.bytes
    && same_bool (is_inode c) (is_inode focus)

-- The element flags that pass 4 leaves.
unfoldable pub pass4 : Chain → List Slot → List Slot
pass4 focus [] = []
pass4 focus (s ∷ ss) =
    elim s.chain [
      | none ↦ s
      | some c ↦
          if c.addr == focus.addr || s.invalid || agrees focus c
          then s
          else record s { invalid = true }
    ]
    ∷ pass4 focus ss

-- `nquorum`: more than half of the masters that the PFS counts.
abbrev pub quorum_of : Option ℕ → ℕ
quorum_of none = 0
quorum_of (some nmasters) = nmasters / 2 + 1

abbrev pub masters_of : Option ℕ → ℕ
masters_of none = 0
masters_of (some nmasters) = nmasters

-- The code returned when too few masters agree.
unfoldable pub no_quorum : Option ℕ → ℕ → Votes → ℕ
no_quorum pfs_nmasters ttlmasters v =
    if leb (quorum_of pfs_nmasters) (v.nmasters + v.umasters)
    then Error.einprogress
    else if ltb 0 v.xmasters || ltb ttlmasters (masters_of pfs_nmasters)
    then Error.enotconn
    else if ltb v.nmasters_keymatch (quorum_of pfs_nmasters)
    then Error.esrch
    else Error.edeadlk

-- Passes 3 and 4 and the tail, for a focus.
unfoldable pub conclude : ℕ → Cluster → Totals → Votes → Chain → Cluster
conclude key cluster p v focus =
    let marked = mark_matched key v.quorum_tid cluster.slots in
    let m =
      pass3 key v.quorum_tid cluster.slots (record { nflags = p.nflags; nslaves = 0; error = 0 }) in
    let f = m.nflags in
    let old = cluster.flags in
    record cluster {
      slots = if focus.pfsboundary then marked else pass4 focus marked;
      focus = some focus;
      focus_index = v.focus_index;
      error = m.error;
      flags = record f {
        inode = old.inode;
        nosoft = p.ttlslaves == 0;
        nohard = p.ttlmasters == 0;
        ssynced = m.nslaves == p.ttlslaves;
        msynced = v.nmasters == p.ttlmasters;
      };
      ddflag = is_inode focus;
    }

-- The cluster as passes 1 and 2 leave it.
abbrev pub polled : Cluster → Votes → Cluster
polled cluster v = record cluster { focus = v.focus; focus_index = v.focus_index; error = v.error }

-- After pass 2: the cluster that is left, and the value returned.
unfoldable pub decide : Bool → ℕ → Cluster → Totals → Votes → Cluster × ℕ
unfolding no_quorum
decide check_null key cluster p v =
    if ltb v.nmasters (quorum_of cluster.pfs_nmasters)
    then (polled cluster v, no_quorum cluster.pfs_nmasters p.ttlmasters v)
    else if check_null
    then (let e = if v.error == 0 then Error.enoent else v.error in
        (record (polled cluster v) { error = e }, e))
    else elim v.focus [
      | none ↦ (polled cluster v, Error.eio)
      | some focus ↦ let done = conclude key cluster p v focus in (done, done.error)
    ]

abbrev pub no_votes : Totals → Votes
no_votes p = record {
  umasters = 0;
  xmasters = 0;
  nmasters = 0;
  nmasters_keymatch = 0;
  quorum_tid = 0;
  focus = p.focus;
  focus_index = p.focus_index;
  error = p.error;
}

abbrev pub no_totals : ℕ → Totals
no_totals i = record {
  nflags = no_flags;
  ttlmasters = 0;
  ttlslaves = 0;
  focus = none;
  focus_index = i;
  error = 0;
}

-- `none`: the fuel ran out, which `rounds` rules out.
unfoldable pub hammer2_cluster_check : Cluster → ℕ → Bool → Option (Cluster × ℕ)
hammer2_cluster_check cluster key check_null =
    let p = pass1 0 cluster.slots (no_totals cluster.focus_index) in
    let marked = record cluster { slots = mark_invalid cluster.slots } in
    elim (pass2 (rounds cluster.slots) check_null key (quorum_of cluster.pfs_nmasters) marked.slots
      tid_max (no_votes p)) [ none ↦ none | some v ↦ some (decide check_null key marked p v) ]
