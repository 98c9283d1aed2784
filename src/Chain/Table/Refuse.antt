-- ===== src/Chain/Table/Refuse.antt =====
-- What `hammer2_base_insert` does not put in.
use linux_hammer.Base.{
  ℕ, zero, suc, ◌+◌, ◌-◌, ◌≤◌, ◌<◌, ◌≡◌, refl, ◌⊎◌, inl, inr, true, false, ap, ◌∙◌, ◌&&◌, ◌||◌,
  ◌==◌, ltb, leb, arith, Bool-cases, dec_lt,
}
use linux_hammer.Chain.Table.{Blockref, is_empty, last_key, Parent}
use linux_hammer.Chain.Table.Order.{IsRanged, IsTable, IsFirst}
use linux_hammer.Chain.Table.Find.{base_find_lem}
use linux_hammer.Chain.Table.Change.{
  nowhere, find_slot, panicked, overlaps, put_slot, place_ref, count_in, hammer2_base_insert,
}
use linux_hammer.Chain.Table.Insert.{count_in_keeps}

find_slot_full :
    (base : ℕ → Blockref) (count i fuel d : ℕ)
    → i ≤ count
    → ((x : ℕ) → x < count → is_empty (base x) ≡ false)
    → find_slot base count i fuel d ≡ nowhere
unfolding find_slot
find_slot_full base count i zero d le full = refl
find_slot_full base count i (suc fuel) d le full =
    let low : (leb (d + 1) i && is_empty (base (i - (d + 1)))) ≡ false = elim (dec_lt d i) [
      | yes inside ↦ let here = full (i - (d + 1)) (omega arith) in ground (arith, here)
      | no out ↦ ground arith
    ] in
    let high : (ltb (i + d + 1) count && is_empty (base (i + d + 1))) ≡ false =
      elim (dec_lt (i + d + 1) count) [
        | yes inside ↦ let here = full (i + d + 1) inside in ground (arith, here)
        | no out ↦ ground arith
      ] in
    elim (Bool-cases (ltb d i || ltb (i + d) count)) [
      | inl on ↦ rw on (rw low (rw high (find_slot_full base count i fuel (d + 1) le full)))
      | inr end ↦ rw end refl
    ]

-- Some reference of the table has a key in common with `b`, or there is no empty entry.
abbrev pub HasNoPlace : Parent → Blockref → Type 0
HasNoPlace p b =
    ((x : ℕ) × (x < p.count)
      × (is_empty (p.base x) ≡ false)
      × ((p.base x).key ≤ last_key b)
      × (b.key ≤ last_key (p.base x)))
    ⊎ ((x : ℕ) → x < p.count → is_empty (p.base x) ≡ false)

-- An overlap is seen at the entry that the search finds.
seen :
    (p : Parent) (b : Blockref) (i x : ℕ)
    → IsTable p
    → IsFirst p.base p.count b.key i
    → x < p.count
    → is_empty (p.base x) ≡ false
    → (p.base x).key ≤ last_key b
    → b.key ≤ last_key (p.base x)
    → (i < p.count) × ((p.base i).key ≤ last_key b)
seen p b i x t first lt live low high = elim (dec_lt x i) [
  | yes before ↦ let gap = first.missed x before live in absurd (omega arith)
  | no after ↦ elim (dec_lt i x) [
    | no same ↦ let at : i ≡ x = omega arith in (omega arith, rw at low)
    | yes beyond ↦
        let (here, reach) = first.hit (omega arith) in
        let gap = t.order.sorted i x beyond lt here live in
        let ranged : IsRanged (p.base i) = t.order.ranged i (omega arith) here in
        (omega arith, omega arith)
  ]
]

refused :
    (p q : Parent) (b : Blockref) (i : ℕ)
    → q.base ≡ p.base
    → q.count ≡ p.count
    → q.live_zero ≡ p.live_zero
    → IsTable p
    → IsFirst p.base p.count b.key i
    → HasNoPlace p b
    → place_ref b i q ≡ panicked q
unfolding place_ref put_slot
refused p q b i eb en ez t first (inl (x, lt, live, low, high)) =
    let (inside, over) = seen p b i x t first lt live low high in
    let at : q.base i ≡ p.base i = ap (λ f. f i) eb in
    let over' : (q.base i).key ≤ last_key b = rw at over in ground (arith, over')
refused p q b i eb en ez t first (inr full) =
    let inside = first.inside in
    let slots : find_slot q.base q.count i (q.count + 1) 0 ≡ nowhere =
      find_slot_full q.base q.count i (q.count + 1) 0 (omega arith)
        (λ x lt. ap (λ f. is_empty (f x)) eb ∙ full x (omega arith)) in
    let end : q.live_zero ≡ q.count = elim (dec_lt p.live_zero p.count) [
      | yes room ↦
          let gone = t.tail p.live_zero (omega arith) room in
          let here = full p.live_zero room in absurd (ground (arith, gone, here))
      | no none_left ↦ let bounded = t.bounded in omega arith
    ] in
    let no_room : (i == q.count && ltb q.live_zero q.count) ≡ false = ground arith in
    elim (Bool-cases (overlaps q i b)) [
      | inl over ↦ rw no_room (rw over refl)
      | inr clear ↦ rw no_room (rw clear (rw slots refl))
    ]

-- A reference that has a key in common with one of a sorted table is not put in, nor is any if no entry is
-- empty. The code goes to `hpanic`, and the array, its size and `live_zero` are left as they were: the
-- parent is the one of before with another cached index and the counts as `count_in` raises them.
pub base_insert_refuses :
    (p : Parent) (b : Blockref)
    → IsTable p
    → HasNoPlace p b
    → (c : ℕ) × (p' : Parent) × (hammer2_base_insert p b ≡ panicked p')
      × (p' ≡ count_in b (record p { cache_index = c }))
      × (p'.base ≡ p.base)
      × (p'.count ≡ p.count)
      × (p'.live_zero ≡ p.live_zero)
unfolding hammer2_base_insert
base_insert_refuses p b t lacks =
    let (i, c, at, first) = base_find_lem p 0 b.key t in
    let p1 : Parent = record p { cache_index = c } in
    let (ec, ea, en, ez, eb) = count_in_keeps b p1 in
    let inside : leb i p.count ≡ true = ground (arith, first.inside) in
    (
      c,
      count_in b p1,
      rw at (rw inside (refused p (count_in b p1) b i eb en ez t first lacks)),
      refl,
      eb,
      en,
      ez,
    )
