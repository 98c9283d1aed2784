-- ===== src/Chain/Table/Delete.antt =====
-- `hammer2_base_delete` takes the one reference out, and keeps the rest as it was.
use linux_hammer.Base.{
  ℕ, zero, suc, ◌+◌, ◌≤◌, ◌<◌, ◌≡◌, ◌≢◌, refl, sym, ◌∙◌, ap, subst, ◌⊎◌, inl, inr, ◌↔◌, Bool, true,
  false, not, ◌&&◌, ◌||◌, ◌==◌, if◌then◌else◌, arith, Bool-cases, dec_lt, ℕ_discrete,
}
use linux_hammer.Chain.Table.{Blockref, no_blockref, is_empty, Parent}
use linux_hammer.Chain.Table.Order.{IsRanged, IsSorted, IsTable, IsFirst}
use linux_hammer.Chain.Table.Find.{base_find_lem, IsFirst-unique}
use linux_hammer.Chain.Table.Moves.{Holds}
use linux_hammer.Chain.Table.Change.{
  write_entry, trim, clear_entry, count_out, done, delete_at, hammer2_base_delete,
}
use linux_hammer.Chain.Table.Insert.{same-IsTable}

trim_lem :
    (base : ℕ → Blockref) (i : ℕ)
    → (trim base i ≤ i) × ((x : ℕ) → trim base i ≤ x → x < i → is_empty (base x) ≡ true)
unfolding trim
trim_lem base zero = (omega arith, λ x le lt. absurd (omega arith))
trim_lem base (suc i) = elim (Bool-cases (is_empty (base i))) [
  | inr live ↦ rw live (omega arith, λ x le lt. absurd (omega arith))
  | inl free ↦
      let (le, gone) = trim_lem base i in
      rw free (
        omega arith,
        λ x past lt. elim (dec_lt x i) [
          | yes below ↦ gone x past below
          | no at ↦ let same : x ≡ i = omega arith in rw same free
        ],
      )
]

-- The entry of a key of the table is the one that the search finds.
entry-IsFirst :
    (base : ℕ → Blockref) (count x : ℕ)
    → IsSorted base count
    → x < count
    → is_empty (base x) ≡ false
    → IsFirst base count (base x).key x
entry-IsFirst base count x order lt live = record {
  inside = omega arith;
  hit = λ below. (live, order.ranged x lt live);
  missed = λ j before here. order.sorted j x before lt here live;
}

other_entry :
    (base : ℕ → Blockref) (i x : ℕ)
    → is_empty (write_entry base i no_blockref x) ≡ false
    → ((x == i) ≡ false) × (is_empty (base x) ≡ false)
other_entry base i x live = (ground (arith, live), ground (arith, live))

clear_order :
    (base : ℕ → Blockref) (count i : ℕ)
    → IsSorted base count
    → IsSorted (write_entry base i no_blockref) count
clear_order base count i order = record {
  ranged = λ x lt live.
      let (other, here) = other_entry base i x live in rw other (order.ranged x lt here);
  sorted = λ x y lt below live live'.
      let (other, here) = other_entry base i x live in
      let (other', here') = other_entry base i y live' in
      rw other (rw other' (order.sorted x y lt below here here'));
}

clear_tail :
    (base : ℕ → Blockref) (count live_zero i : ℕ)
    → ((x : ℕ) → live_zero ≤ x → x < count → is_empty (base x) ≡ true)
    → (x : ℕ) → (if live_zero == i + 1 then trim base i else live_zero) ≤ x
    → x < count
    → is_empty (write_entry base i no_blockref x) ≡ true
clear_tail base count live_zero i tail x le lt = elim (Bool-cases (live_zero == i + 1)) [
  | inl last ↦
      let le' : trim base i ≤ x = rw last at le in
      elim (dec_lt x i) [
        | yes below ↦ let gone = (trim_lem base i).1 x le' below in ground (arith, gone)
        | no above ↦ elim (dec_lt i x) [
          | yes beyond ↦ let gone = tail x (ground (arith, last)) lt in ground (arith, gone)
          | no here ↦ ground arith
        ]
      ]
  | inr other ↦
      let le' : live_zero ≤ x = rw other at le in let gone = tail x le' lt in ground (arith, gone)
]

count_out_keeps :
    (b : Blockref) (p : Parent)
    → ((count_out b p).0.counted ≡ p.counted)
      × ((count_out b p).0.absent ≡ p.absent)
      × ((count_out b p).0.count ≡ p.count)
      × ((count_out b p).0.live_zero ≡ p.live_zero)
      × ((count_out b p).0.base ≡ p.base)
unfolding count_out
count_out_keeps b p = ground arith

clear_entry-IsTable : (p : Parent) (i : ℕ) → IsTable p → i < p.count → IsTable (clear_entry p i)
unfolding clear_entry
clear_entry-IsTable p i t lt = record {
  counted = t.counted;
  present = t.present;
  bounded =
      let low = (trim_lem p.base i).0 in let bounded = t.bounded in ground (arith, low, bounded);
  tail = clear_tail p.base p.count p.live_zero i t.tail;
  order = clear_order p.base p.count i t.order;
}

-- What is left: every reference but the one of the key.
clear_Holds :
    (base : ℕ → Blockref) (count i : ℕ)
    → IsSorted base count
    → i < count
    → is_empty (base i) ≡ false
    → (c : Blockref)
    → Holds (write_entry base i no_blockref) count c ↔ (Holds base count c × (c.key ≢ (base i).key))
clear_Holds base count i order inside live c = (
  λ (x, lt, here, e).
      let (other, here') = other_entry base i x here in
      let same : base x ≡ c = rw other at e in
      (
        (x, lt, here', same),
        λ k. elim (dec_lt x i) [
          | yes before ↦
              let gap = order.sorted x i before inside here' live in
              let ranged : IsRanged (base x) = order.ranged x lt here' in
              let keys : (base x).key ≡ (base i).key = ap (λ b. b.key) same ∙ k in
              absurd (omega arith)
          | no beyond ↦
              let after : i < x = ground (arith, other, beyond) in
              let gap = order.sorted i x after lt live here' in
              let ranged : IsRanged (base i) = order.ranged i inside live in
              let keys : (base x).key ≡ (base i).key = ap (λ b. b.key) same ∙ k in
              absurd (omega arith)
        ],
      ),
  λ ((x, lt, here, e), differ).
      let other : (x == i) ≡ false = elim (ℕ_discrete x i) [
        | yes same ↦ absurd (differ (ap (λ b. b.key) (sym e) ∙ ap (λ n. (base n).key) same))
        | no away ↦ ground (arith, away)
      ] in
      (x, lt, rw other here, rw other e),
)

-- The reference of a key that a sorted table has is deleted and handed out, whatever the cached index.
-- The table is sorted then and as long as it was, and its references are those of other keys. The range
-- asked for is the reference's, or the chain is being updated, for which it may have changed.
pub base_delete-IsTable :
    (p : Parent) (b : Blockref) (updating : Bool)
    → IsTable p
    → (x : ℕ) → x < p.count
    → is_empty (p.base x) ≡ false
    → (p.base x).key ≡ b.key
    → (updating ≡ true) ⊎ ((p.base x).keybits ≡ b.keybits)
    → (p' : Parent) × (hint : Bool) × (hammer2_base_delete p b updating ≡ done p' (p.base x) hint)
      × IsTable p'
      × (p'.count ≡ p.count)
      × ((c : Blockref) → Holds p'.base p'.count c ↔ (Holds p.base p.count c × (c.key ≢ b.key)))
unfolding hammer2_base_delete delete_at clear_entry
base_delete-IsTable p b updating t x lt live key range =
    let (i, c, at, first) = base_find_lem p 0 b.key t in
    let here = entry-IsFirst p.base p.count x t.order lt live in
    let here' : IsFirst p.base p.count b.key x = subst (λ k. IsFirst p.base p.count k x) key here in
    let same : i ≡ x = IsFirst-unique p.base p.count b.key i x first here' in
    let p1 : Parent = record p { cache_index = c } in
    let t1 : IsTable p1 = record {
      counted = t.counted;
      present = t.present;
      bounded = t.bounded;
      tail = t.tail;
      order = t.order;
    } in
    let (ec, ea, en, ez, eb) = count_out_keeps (p.base x) p1 in
    let test : (x == p.count
          || is_empty (p.base x)
          || not ((p.base x).key == b.key)
          || (not updating && not ((p.base x).keybits == b.keybits)))
        ≡ false =
      ground (arith, live, key, range) in
    let q = (count_out (p.base x) p1).0 in
    let u : IsTable q =
      same-IsTable p.counted p.absent p.count p.live_zero p.base q ec ea en ez eb t.counted
        t.present t.bounded t.tail t.order in
    let inside : x < q.count = omega arith in
    (
      clear_entry q x,
      (count_out (p.base x) p1).1,
      rw at (rw same (rw test refl)),
      clear_entry-IsTable q x u inside,
      en,
      λ d.
          subst
            (λ k.
              Holds (write_entry q.base x no_blockref) q.count d
              ↔ (Holds p.base p.count d × (d.key ≢ k)))
            key
            (subst
              (λ n.
                Holds (write_entry q.base x no_blockref) n d
                ↔ (Holds p.base p.count d × (d.key ≢ (p.base x).key)))
              (sym en)
              (subst
                (λ f.
                  Holds (write_entry f x no_blockref) p.count d
                  ↔ (Holds p.base p.count d × (d.key ≢ (p.base x).key)))
                (sym eb) (clear_Holds p.base p.count x t.order lt live d))),
    )
