-- ===== src/Chain/Lookup/Nearest.antt =====
-- What `hammer2_combined_find` gives: the nearest reference of the range, in memory or on the media.
use linux_hammer.Base.{
  ℕ, suc, ◌+◌, ◌%◌, ◌^◌, ◌≤◌, ◌<◌, ◌≡◌, refl, ◌⊎◌, inl, inr, true, false, ◌==◌, ltb, if◌then◌else◌,
  Option, none, some, List, get_elem?, arith, Bool-cases, ℕ_discrete, dec_lt,
}
use linux_hammer.Chain.Table.{Blockref, is_empty, last_key, Parent, next_key, end_key}
use linux_hammer.Chain.Table.Order.{IsRanged, IsTable, IsFirst}
use linux_hammer.Chain.Table.Find.{base_find_lem}
use linux_hammer.Chain.Lookup.{
  RbScan, chosen, choose, combined, in_bounds, with_chain, with_base, hammer2_combined_find,
}
use linux_hammer.Chain.Lookup.Scan.{Scans, IsOrdered, meets, Best, no_child, child, chain_find_lem}

-- A chain in memory and a reference of the table have the same key, or are apart.
pub record IsAgreed (p : Parent) (cs : List Blockref) : Type 0 where
  pub agree :
      (x n : ℕ) (d : Blockref)
      → x < p.count
      → is_empty (p.base x) ≡ false
      → get_elem? cs n ≡ some d
      → (d.key ≡ (p.base x).key) ⊎ (last_key d < (p.base x).key) ⊎ (last_key (p.base x) < d.key)

-- No reference of the table that meets the range begins before the key.
abbrev pub LeastEntry : (ℕ → Blockref) → ℕ → ℕ → ℕ → ℕ → Type 0
LeastEntry base count key_beg key_end key =
    (x : ℕ)
    → x < count
    → is_empty (base x) ≡ false
    → meets key_beg key_end (base x) ≡ true
    → key ≤ (base x).key

abbrev pub LeastChild : List Blockref → ℕ → ℕ → ℕ → Type 0
LeastChild cs key_beg key_end key =
    (n : ℕ) (d : Blockref) → get_elem? cs n ≡ some d → meets key_beg key_end d ≡ true → key ≤ d.key

-- The chain and the reference that are returned: the one that begins first of those that meet the range,
-- the chain if both do.
pub data Nearest (base : ℕ → Blockref) (count : ℕ) (cs : List Blockref) (key_beg key_end : ℕ)
    : Option Blockref → Option Blockref → Type 0 where
  nothing :
      ((x : ℕ) → x < count → is_empty (base x) ≡ false → meets key_beg key_end (base x) ≡ false)
      → ((n : ℕ) (d : Blockref) → get_elem? cs n ≡ some d → meets key_beg key_end d ≡ false)
      → Nearest base count cs key_beg key_end none none
  in_memory :
      (c : Blockref) (n : ℕ)
      → get_elem? cs n ≡ some c
      → meets key_beg key_end c ≡ true
      → LeastEntry base count key_beg key_end c.key
      → LeastChild cs key_beg key_end c.key
      → Nearest base count cs key_beg key_end (some c) (some c)
  on_media :
      (x : ℕ)
      → x < count
      → is_empty (base x) ≡ false
      → meets key_beg key_end (base x) ≡ true
      → LeastEntry base count key_beg key_end (base x).key
      → LeastChild cs key_beg key_end (suc (base x).key)
      → Nearest base count cs key_beg key_end none (some (base x))

module _ (p : Parent) (key_beg key_end i : ℕ) (t : IsTable p)
    (first : IsFirst p.base p.count key_beg i) where
  entries_away :
      i ≡ p.count
      → (x : ℕ) → x < p.count
      → is_empty (p.base x) ≡ false
      → meets key_beg key_end (p.base x) ≡ false
  entries_away end x lt live =
      let before : last_key (p.base x) < key_beg = first.missed x (omega arith) live in
      ground (arith, before)

  entry_least : i < p.count → LeastEntry p.base p.count key_beg key_end (p.base i).key
  entry_least inside x lt live m =
      let (here, reach) = first.hit inside in
      elim (dec_lt x i) [
        | yes early ↦
            let before : last_key (p.base x) < key_beg = first.missed x early live in
            absurd (ground (arith, before, m))
        | no late ↦ elim (ℕ_discrete x i) [
          | yes same ↦ rw same (omega arith)
          | no other ↦
              let apart : last_key (p.base i) < (p.base x).key =
                t.order.sorted i x (omega arith) lt here live in
              let ranged : IsRanged (p.base i) = t.order.ranged i inside here in omega arith
        ]
      ]

  -- What is to be shown of what was found in the tree.
  Selected : List Blockref → ℕ → Option Blockref → Type 0
  Selected cs key_next best =
      (chain : Option Blockref) × (bref : Option Blockref) × (in_bounds key_end key_next p
          (choose p i key_beg best)
        ≡ combined chain bref key_next p)
      × Nearest p.base p.count cs key_beg key_end chain bref

  -- The table has a reference and the tree may have none.
  from_media :
      (cs : List Blockref) (key_next : ℕ) (best : Option Blockref)
      → i < p.count
      → choose p i key_beg best ≡ chosen none (p.base i)
      → (key_end < (p.base i).key
          → (n : ℕ) (d : Blockref) → get_elem? cs n ≡ some d
          → meets key_beg key_end d ≡ false)
      → LeastChild cs key_beg key_end (suc (p.base i).key)
      → Selected cs key_next best
  unfolding in_bounds Selected
  from_media cs key_next best inside e away least =
      let (live, reach) = first.hit inside in
      elim (dec_lt key_end (p.base i).key) [
        | yes past ↦
            let out : ltb key_end (p.base i).key ≡ true = ground (arith, past) in
            (
              none,
              none,
              rw e (rw out refl),
              nothing
                  (λ x lt live'. elim (Bool-cases (meets key_beg key_end (p.base x))) [
                    | inl m ↦
                        let l : (p.base i).key ≤ (p.base x).key = entry_least inside x lt live' m in
                        absurd (ground (arith, m, l, past))
                    | inr m ↦ m
                  ])
                  (away past),
            )
        | no within ↦
            let out : ltb key_end (p.base i).key ≡ false = ground (arith, within) in
            (
              none,
              some (p.base i),
              rw e (rw out refl),
              on_media i inside live (ground (arith, reach, within)) (entry_least inside) least,
            )
      ]

  -- The chain is returned.
  from_memory :
      (cs : List Blockref) (key_next : ℕ) (c : Blockref) (n : ℕ)
      → get_elem? cs n ≡ some c
      → meets key_beg key_end c ≡ true
      → LeastChild cs key_beg key_end c.key
      → LeastEntry p.base p.count key_beg key_end c.key
      → choose p i key_beg (some c) ≡ chosen (some c) c
      → Selected cs key_next (some c)
  unfolding in_bounds Selected
  from_memory cs key_next c n at m least entries e =
      let inside : ltb key_end c.key ≡ false = ground (arith, m) in
      (some c, some c, rw e (rw inside refl), in_memory c n at m entries least)

  select :
      (cs : List Blockref) (key_next : ℕ) (best : Option Blockref)
      → IsAgreed p cs
      → Best cs key_beg key_end best
      → Selected cs key_next best
  unfolding choose in_bounds Selected
  select cs key_next none agreed (no_child away) = elim (ℕ_discrete i p.count) [
    | yes end ↦
        let test : (i == p.count) ≡ true = ground (arith, end) in
        (none, none, rw test refl, nothing (entries_away end) away)
    | no entry ↦
        let test : (i == p.count) ≡ false = ground (arith, entry) in
        let inside : i < p.count = let le = first.inside in omega arith in
        from_media cs key_next none inside (rw test refl) (λ past. away)
          (λ n d at m. absurd (let gone = away n d at in ground (arith, gone, m)))
  ]
  select cs key_next (some _) agreed (child c n at ranged m least) = elim (ℕ_discrete i p.count) [
    | yes end ↦
        let test : (i == p.count) ≡ true = ground (arith, end) in
        from_memory cs key_next c n at m least
          (λ x lt live m'.
            absurd (let gone = entries_away end x lt live in ground (arith, gone, m')))
          (rw test refl)
    | no entry ↦
        let test : (i == p.count) ≡ false = ground (arith, entry) in
        let inside : i < p.count = let le = first.inside in omega arith in
        let (live, reach) = first.hit inside in
        let e = p.base i in
        let ranged' : IsRanged e = t.order.ranged i inside live in
        elim (agreed.agree i n c inside live at) [
          | inl same ↦
              let eq : (c.key == e.key) ≡ true = ground (arith, same) in
              from_memory cs key_next c n at m least
                (λ x lt live' m'. let l = entry_least inside x lt live' m' in omega arith)
                (ground (arith, test, same))
          | inr (inl low) ↦
              from_memory cs key_next c n at m least
                (λ x lt live' m'. let l = entry_least inside x lt live' m' in omega arith)
                (ground (arith, test, low, ranged, m))
          | inr (inr high) ↦
              from_media cs key_next (some c) inside (ground (arith, test, high, ranged', reach, m))
                (λ past. absurd (ground (arith, past, m, high, ranged')))
                (λ n' d at' m'. let l = least n' d at' m' in omega arith)
        ]
  ]

-- The lookup ends, without a failed assertion, with the reference that begins first of those that meet the
-- range, of the chains in memory and the references of the table together: with the chain if it is in
-- memory, with no chain if only the table has it, and with nothing if and only if none meets the range.
-- Of the parent no more than the cached index changes. The table and the children are in order, and a chain
-- and a reference of the table have the same key or are apart.
pub combined_find-Nearest :
    (rb_scan : RbScan) (p : Parent) (cs : List Blockref) (key_beg key_end : ℕ)
    → Scans rb_scan
    → IsTable p
    → IsOrdered cs
    → IsAgreed p cs
    → (chain : Option Blockref) × (bref : Option Blockref) × (key_next : ℕ) × (c : ℕ)
      × (hammer2_combined_find rb_scan p cs key_beg key_end
          ≡ combined chain bref key_next (record p { cache_index = c }))
      × Nearest p.base p.count cs key_beg key_end chain bref
unfolding hammer2_combined_find with_base with_chain Selected
combined_find-Nearest rb_scan p cs key_beg key_end scans t ordered agreed =
    let (i, c, e, first) = base_find_lem p ((key_end + 1) % 2 ^ 64) key_beg t in
    let key_next : ℕ =
      if i == p.count
      then (key_end + 1) % 2 ^ 64
      else next_key ((key_end + 1) % 2 ^ 64) (end_key (p.base i)) in
    let p1 : Parent = record p { cache_index = c } in
    let t1 : IsTable p1 = record {
      counted = t.counted;
      present = t.present;
      bounded = t.bounded;
      tail = t.tail;
      order = t.order;
    } in
    let (end, called, best) = chain_find_lem rb_scan cs key_next key_beg key_end scans ordered in
    let (chain, bref, selected, nearest) =
      select p1 key_beg key_end i t1 first cs end.key_next end.best
        (record { agree = agreed.agree }) best in
    (chain, bref, end.key_next, c, rw e (rw called selected), nearest)
