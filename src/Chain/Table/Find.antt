-- ===== src/Chain/Table/Find.antt =====
-- `hammer2_base_find` against a scan of the whole table.
use linux_hammer.Base.{
  ℕ, zero, suc, ◌+◌, ◌-◌, ◌≤◌, ◌<◌, ◌≡◌, refl, ◌⊎◌, inl, inr, true, false, not, ◌&&◌, ◌||◌, ◌==◌,
  ltb, leb, if◌then◌else◌, none, some, arith, Bool-cases, dec_lt, ==_self,
}
use linux_hammer.Chain.Table.{
  Blockref, is_empty, last_key, end_key, stops, Parent, BaseFound, found, start_index, search_back,
  search_forward, back_index, next_key, after_search, hammer2_base_find,
}
use linux_hammer.Chain.Table.Order.{IsRanged, IsSorted, IsTable, IsFirst}

-- The scan that the search stands for: from the first entry to the last.
unfoldable pub first_match : (ℕ → Blockref) → ℕ → ℕ → ℕ → ℕ
first_match base key zero i = i
first_match base key (suc left) i =
    if not (is_empty (base i)) && leb key (last_key (base i))
    then i
    else first_match base key left (suc i)

module _ (base : ℕ → Blockref) (key : ℕ) where
  back_le : (s : ℕ) → search_back base key s ≤ s
  unfolding search_back
  back_le zero = omega arith
  back_le (suc s) = ground (arith, back_le s)

  back_stops :
      (s : ℕ)
      → (search_back base key s ≡ 0)
        ⊎ ((is_empty (base (search_back base key s)) ≡ false)
            × ((base (search_back base key s)).key ≤ key))
  unfolding search_back
  back_stops zero = inl refl
  back_stops (suc s) = elim (Bool-cases (is_empty (base (suc s)) || ltb key ((base (suc s)).key))) [
    | inl on ↦ rw on (back_stops s)
    | inr here ↦ rw here (inr (ground (arith, here), ground (arith, here)))
  ]

  abbrev pub Missed : ℕ → Type 0
  Missed i = (x : ℕ) → x < i → is_empty (base x) ≡ false → last_key (base x) < key

  extend :
      (i : ℕ) → Missed i → (is_empty (base i) ≡ false → last_key (base i) < key) → Missed (suc i)
  extend i before at x lt here = elim (dec_lt x i) [
    | yes below ↦ before x below here
    | no end ↦ let same : x ≡ i = omega arith in rw same (at (rw same at here))
  ]

  IsFirst-from :
      (count left i : ℕ)
      → left + i ≡ count
      → Missed i
      → IsFirst base count key (first_match base key left i)
  unfolding first_match
  IsFirst-from count zero i all missed = record {
    inside = omega arith;
    hit = λ lt. absurd (omega arith);
    missed = missed;
  }
  IsFirst-from count (suc left) i all missed =
      elim (Bool-cases (not (is_empty (base i)) && leb key (last_key (base i)))) [
        | inl here ↦ rw here (record {
          inside = omega arith;
          hit = λ lt. (ground (arith, here), ground (arith, here));
          missed = missed;
        })
        | inr on ↦ rw on (
            IsFirst-from count left (suc i) (omega arith)
              (extend i missed (λ h. ground (arith, on, h))))
      ]

  module _ (limit count : ℕ) (order : IsSorted base count)
      (tail : (i : ℕ) → limit ≤ i → i < count → is_empty (base i) ≡ true) where
    -- Nothing is left to find from `limit` on.
    all_missed : (i : ℕ) → limit ≤ i → Missed i → Missed count
    all_missed i past missed x lt here = elim (dec_lt x i) [
      | yes below ↦ missed x below here
      | no beyond ↦ let gone = tail x (omega arith) lt in cc
    ]

    forward-IsFirst :
        (left i : ℕ)
        → left + i ≡ count
        → Missed i
        → ((search_forward base limit key left i ≡ none) × IsFirst base count key count)
          ⊎ ((r : ℕ) × (search_forward base limit key left i ≡ some r) × IsFirst base count key r)
    unfolding search_forward
    forward-IsFirst zero i all missed = inr (
      i,
      refl,
      record { inside = omega arith; hit = λ lt. absurd (omega arith); missed = missed },
    )
    forward-IsFirst (suc left) i all missed = elim (Bool-cases (stops key (base i))) [
      | inl here ↦
          let live : is_empty (base i) ≡ false = ground (arith, here) in
          let ranged : IsRanged (base i) = order.ranged i (omega arith) live in
          rw here (
            inr (
              i,
              refl,
              record {
                inside = omega arith;
                hit = λ lt. (live, ground (arith, here));
                missed = missed;
              },
            ))
      | inr on ↦
          let missed' : Missed (suc i) = extend i missed (λ h. ground (arith, on, h)) in
          elim (Bool-cases (leb limit i)) [
            | inl past ↦ rw on (
                rw past (
                  inl (
                    refl,
                    record {
                      inside = omega arith;
                      hit = λ lt. absurd (omega arith);
                      missed = all_missed i (ground (arith, past)) missed;
                    },
                  )))
            | inr more ↦ rw on (rw more (forward-IsFirst left (suc i) (omega arith) missed'))
          ]
    ]

-- There is one first match.
pub IsFirst-unique :
    (base : ℕ → Blockref) (count key i i' : ℕ)
    → IsFirst base count key i
    → IsFirst base count key i'
    → i ≡ i'
IsFirst-unique base count key i i' f g = elim (dec_lt i i') [
  | yes lt ↦
      let (live, reach) = f.hit (omega (arith, g.inside)) in
      let miss = g.missed i lt live in absurd (omega arith)
  | no ge ↦ elim (dec_lt i' i) [
    | yes lt ↦
        let (live, reach) = g.hit (omega (arith, f.inside)) in
        let miss = f.missed i' lt live in absurd (omega arith)
    | no same ↦ omega arith
  ]
]

-- What a search comes to.
abbrev pub IsFound : Parent → ℕ → ℕ → BaseFound → Type 0
IsFound p key_next key r =
    (i : ℕ) × (c : ℕ) × (r
      ≡ found i (if i == p.count then key_next else next_key key_next (end_key (p.base i)))
          (record p { cache_index = c }))
    × IsFirst p.base p.count key i

after_lem :
    (p : Parent) (key_next key j i : ℕ)
    → IsTable p
    → IsFirst p.base p.count key i
    → IsFound p key_next key (after_search p key_next j (some i))
unfolding after_search
after_lem p key_next key j i t f = elim (Bool-cases (i == p.count)) [
  | inl end ↦ (i, j, rw end refl, f)
  | inr here ↦
      let within : i < p.count = ground (arith, here, f.inside) in
      let (live, reach) = f.hit within in
      elim (Bool-cases (leb p.live_zero i)) [
        | inl past ↦
            let gone = t.tail i (ground (arith, past)) within in absurd (ground (arith, gone, live))
        | inr inside ↦ (i, i, rw here (rw inside refl), f)
      ]
]

start_lt : (p : Parent) → IsTable p → 0 < p.count → start_index p < p.count
unfolding start_index
start_lt p t some_count = let bounded = t.bounded in ground (arith, bounded)

back_missed :
    (p : Parent) (key : ℕ)
    → IsTable p
    → start_index p < p.count
    → (back_index p key < p.count) × Missed p.base key (back_index p key)
unfolding back_index
back_missed p key t lt =
    let j : ℕ = search_back p.base key (start_index p) in
    let le : j ≤ start_index p = back_le p.base key (start_index p) in
    (
      omega arith,
      λ x below live. elim (back_stops p.base key (start_index p)) [
        | inl zero_index ↦ absurd (omega arith)
        | inr (here, reach) ↦
            let apart = t.order.sorted x j below (omega arith) live here in omega arith
      ],
    )

searched :
    (p : Parent) (key_next key j : ℕ)
    → IsTable p
    → j < p.count
    → Missed p.base key j
    → IsFound p key_next key
        (after_search p key_next j (search_forward p.base p.live_zero key (p.count - j) j))
unfolding after_search
searched p key_next key j t lt missed =
    elim (forward-IsFirst p.base key p.live_zero p.count t.order t.tail (p.count - j) j
      (omega arith) missed) [
        | inl (none_left, end) ↦ rw none_left (p.count, j, rw (==_self p.count) refl, end)
        | inr (i, at, f) ↦ rw at (after_lem p key_next key j i t f)
      ]

pub base_find_lem :
    (p : Parent) (key_next key : ℕ)
    → IsTable p
    → IsFound p key_next key (hammer2_base_find p key_next key)
unfolding hammer2_base_find
base_find_lem p key_next key t = elim (Bool-cases (not p.counted)) [
  | inl no_counts ↦ let counted = t.counted in absurd (ground (arith, counted, no_counts))
  | inr counts ↦ elim (Bool-cases (p.count == 0 || p.absent)) [
    | inl nothing ↦
        let present = t.present in
        let zero_count : p.count ≡ 0 = ground (arith, nothing, present) in
        rw counts (
          rw nothing (
            p.count,
            p.cache_index,
            rw (==_self p.count) refl,
            record {
              inside = omega arith;
              hit = λ lt. absurd (omega arith);
              missed = λ x lt. absurd (omega arith);
            },
          ))
    | inr something ↦
        let some_count : 0 < p.count = ground (arith, something) in
        let early : start_index p < p.count = start_lt p t some_count in
        let late : leb p.count (start_index p) ≡ false = ground arith in
        let (inside, missed) = back_missed p key t early in
        rw counts
          (rw something (rw late (searched p key_next key (back_index p key) t inside missed)))
  ]
]

-- The search by the cached index gives what a scan of the whole table from its start gives, whatever the
-- index was: in a sorted table the first reference that ends at the key or after it. The index is
-- cached again, nothing else of the parent changes, and `*key_nextp` is moved by the reference found.
pub base_find-first_match :
    (p : Parent) (key_next key : ℕ)
    → IsTable p
    → (c : ℕ) × (hammer2_base_find p key_next key
        ≡ found
            (first_match p.base key p.count 0)
            (if first_match p.base key p.count 0 == p.count
              then key_next
              else next_key key_next (end_key (p.base (first_match p.base key p.count 0))))
            (record p { cache_index = c }))
base_find-first_match p key_next key t =
    let (i, c, e, f) = base_find_lem p key_next key t in
    let scan =
      IsFirst-from p.base key p.count p.count 0 (omega arith) (λ x lt. absurd (omega arith)) in
    let same : first_match p.base key p.count 0 ≡ i =
      IsFirst-unique p.base p.count key (first_match p.base key p.count 0) i scan f in
    (c, rw same e)
