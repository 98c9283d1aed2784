-- ===== src/Chain/Table/Moves.antt =====
-- A reference put into a sorted table by moving others: the order, and what is in the table then.
use linux_hammer.Base.{
  ℕ, ◌≤◌, ◌<◌, ◌≡◌, ◌≢◌, sym, ◌∙◌, ap, ◌⊎◌, inl, inr, ◌↔◌, false, arith, dec_lt, ℕ_discrete,
}
use linux_hammer.Chain.Table.{Blockref, is_empty, last_key}
use linux_hammer.Chain.Table.Order.{IsRanged, IsSorted, IsFirst}

-- A reference of the table.
abbrev pub Holds : (ℕ → Blockref) → ℕ → Blockref → Type 0
Holds base count b = (x : ℕ) × (x < count) × (is_empty (base x) ≡ false) × (base x ≡ b)

module _ (base base' : ℕ → Blockref) (count i p : ℕ) (b : Blockref) (src : ℕ → ℕ) where
  -- The new table is the old one with `b` at `p`, an entry `x` coming from `src x`; `i` is the first of the
  -- entries that are to come after `b`.
  pub record IsMove : Type 0 where
    pub place : p < count
    pub at : base' p ≡ b
    pub moved : (x : ℕ) → x < count → x ≢ p → base' x ≡ base (src x)
    pub bound : (x : ℕ) → x < count → x ≢ p → src x < count
    pub mono : (x y : ℕ) → x < y → y < count → x ≢ p → y ≢ p → src x < src y
    pub before : (x : ℕ) → x < p → src x < i
    pub after : (x : ℕ) → p < x → x < count → is_empty (base (src x)) ≡ false → i ≤ src x

module _ (base : ℕ → Blockref) (count i : ℕ) (b : Blockref) (order : IsSorted base count)
    (first : IsFirst base count b.key i) (apart : i < count → last_key b < (base i).key) where
  above : (x : ℕ) → i ≤ x → x < count → is_empty (base x) ≡ false → last_key b < (base x).key
  above x le lt live = elim (dec_lt i x) [
    | no same ↦ let at : x ≡ i = omega arith in rw at (apart (omega arith))
    | yes beyond ↦
        let (here, reach) = first.hit (omega arith) in
        let gap = order.sorted i x beyond lt here live in
        let ranged : IsRanged (base i) = order.ranged i (omega arith) here in
        let low = apart (omega arith) in omega arith
  ]

  module _ (base' : ℕ → Blockref) (p : ℕ) (src : ℕ → ℕ)
      (mv : IsMove base base' count i p b src) where
    came :
        (x : ℕ) → x < count → x ≢ p → is_empty (base' x) ≡ false → is_empty (base (src x)) ≡ false
    came x lt other live = rw (mv.moved x lt other) at live

    pub move-IsSorted : IsRanged b → IsSorted base' count
    move-IsSorted fits = record {
      ranged = λ x lt live. elim (ℕ_discrete x p) [
        | yes here ↦ rw here (rw (mv.at) fits)
        | no other ↦
            rw (mv.moved x lt other)
              (order.ranged (src x) (mv.bound x lt other) (came x lt other live))
      ];
      sorted = λ x y lt inside live live'. elim (ℕ_discrete x p) [
        | yes here ↦
            let other : y ≢ p = λ e. absurd (omega arith) in
            let from = came y inside other live' in
            rw here (
              rw (mv.at) (
                rw (mv.moved y inside other) (
                  above (src y) (mv.after y (omega arith) inside from) (mv.bound y inside other)
                    from)))
        | no away ↦ elim (ℕ_discrete y p) [
          | yes here ↦ rw here (
              rw (mv.at) (
                rw (mv.moved x (omega arith) away) (
                  first.missed (src x) (mv.before x (omega arith))
                    (came x (omega arith) away live))))
          | no other ↦ rw (mv.moved x (omega arith) away) (
              rw (mv.moved y inside other) (
                order.sorted (src x) (src y) (mv.mono x y lt inside away other)
                  (mv.bound y inside other) (came x (omega arith) away live)
                  (came y inside other live')))
        ]
      ];
    }

    -- The new table has the references of the old one and `b`; `dst` is where they went.
    pub move-Holds :
        (dst : ℕ → ℕ)
        → ((y : ℕ)
            → y < count
            → is_empty (base y) ≡ false
            → (dst y ≢ p) × (dst y < count) × (src (dst y) ≡ y))
        → is_empty b ≡ false
        → (c : Blockref) → Holds base' count c ↔ (Holds base count c ⊎ (c ≡ b))
    move-Holds dst back full c = (
      λ (x, lt, live, e). elim (ℕ_discrete x p) [
        | yes here ↦ inr (sym e ∙ (rw here (mv.at)))
        | no other ↦
            inl (src x, mv.bound x lt other, came x lt other live, sym (mv.moved x lt other) ∙ e)
      ],
      λ h. elim h [
        | inr same ↦ (p, mv.place, rw (mv.at) full, mv.at ∙ sym same)
        | inl (y, lt, live, e) ↦
            let (other, inside, from) = back y lt live in
            let went : base' (dst y) ≡ base y = mv.moved (dst y) inside other ∙ ap base from in
            (dst y, inside, rw went live, went ∙ e)
      ],
    )
