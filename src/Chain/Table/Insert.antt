-- ===== src/Chain/Table/Insert.antt =====
-- `hammer2_base_insert` keeps a table sorted, and puts in the one reference.
use linux_hammer.Base.{
  ℕ, ◌≤◌, ◌<◌, ◌≡◌, sym, ◌∙◌, ap, subst, ◌⊎◌, ◌↔◌, Bool, true, false, leb, arith,
}
use linux_hammer.Chain.Table.{Blockref, is_empty, Parent}
use linux_hammer.Chain.Table.Order.{IsSorted, IsTable, IsFirst}
use linux_hammer.Chain.Table.Find.{base_find_lem}
use linux_hammer.Chain.Table.Moves.{Holds}
use linux_hammer.Chain.Table.Change.{done, place_ref, count_in, hammer2_base_insert}
use linux_hammer.Chain.Table.Place.{IsNew, IsInserted, place_lem}

-- The counts are no part of the table.
pub count_in_keeps :
    (b : Blockref) (p : Parent)
    → ((count_in b p).counted ≡ p.counted)
      × ((count_in b p).absent ≡ p.absent)
      × ((count_in b p).count ≡ p.count)
      × ((count_in b p).live_zero ≡ p.live_zero)
      × ((count_in b p).base ≡ p.base)
unfolding count_in
count_in_keeps b p = ground arith

pub same-IsTable :
    (counted absent : Bool) (count live_zero : ℕ) (base : ℕ → Blockref) (p : Parent)
    → p.counted ≡ counted
    → p.absent ≡ absent
    → p.count ≡ count
    → p.live_zero ≡ live_zero
    → p.base ≡ base
    → counted ≡ true
    → absent ≡ false
    → live_zero ≤ count
    → ((i : ℕ) → live_zero ≤ i → i < count → is_empty (base i) ≡ true)
    → IsSorted base count
    → IsTable p
same-IsTable counted absent count live_zero base p ec ea en ez eb hc ha hb ht ho = record {
  counted = ec ∙ hc;
  present = ea ∙ ha;
  bounded = omega arith;
  tail = λ i le lt. ap (λ f. is_empty (f i)) eb ∙ ht i (omega arith) (omega arith);
  order = subst (λ f. IsSorted f p.count) (sym eb) (subst (IsSorted base) (sym en) ho);
}

pub count_in-IsTable : (b : Blockref) (p : Parent) → IsTable p → IsTable (count_in b p)
count_in-IsTable b p t =
    let (ec, ea, en, ez, eb) = count_in_keeps b p in
    same-IsTable p.counted p.absent p.count p.live_zero p.base (count_in b p) ec ea en ez eb
      t.counted t.present t.bounded t.tail t.order

counted_lem :
    (q : Parent) (base : ℕ → Blockref) (count : ℕ) (b : Blockref) (i e : ℕ)
    → q.count ≡ count
    → q.base ≡ base
    → IsTable q
    → IsNew base count b
    → IsFirst base count b.key i
    → e < count
    → is_empty (base e) ≡ true
    → IsInserted base count b (place_ref b i q)
counted_lem q base count b i e en eb u new first lt free =
    let new' : IsNew q.base q.count b =
      subst (λ f. IsNew f q.count b) (sym eb) (subst (λ n. IsNew base n b) (sym en) new) in
    let first' : IsFirst q.base q.count b.key i =
      subst (λ f. IsFirst f q.count b.key i) (sym eb)
        (subst (λ n. IsFirst base n b.key i) (sym en) first) in
    let free' : is_empty (q.base e) ≡ true = ap (λ f. is_empty (f e)) eb ∙ free in
    subst (λ n. IsInserted base n b (place_ref b i q)) en
      (subst (λ f. IsInserted f q.count b (place_ref b i q)) eb
        (place_lem q b i u new' first' e (omega arith) free'))

-- A reference that overlaps none of a sorted table with an empty entry is inserted: the insertion finds
-- room and passes its own check, whatever the cached index. The table is sorted then and as long as it
-- was, and its references are those of before and the new one.
pub base_insert-IsTable :
    (p : Parent) (b : Blockref)
    → IsTable p
    → IsNew p.base p.count b
    → (e : ℕ) → e < p.count
    → is_empty (p.base e) ≡ true
    → (p' : Parent) × (hammer2_base_insert p b ≡ done p')
      × IsTable p'
      × (p'.count ≡ p.count)
      × ((c : Blockref) → Holds p'.base p'.count c ↔ (Holds p.base p.count c ⊎ (c ≡ b)))
unfolding hammer2_base_insert
base_insert-IsTable p b t new e lt free =
    let (i, c, at, first) = base_find_lem p 0 b.key t in
    let p1 : Parent = record p { cache_index = c } in
    let t1 : IsTable p1 = record {
      counted = t.counted;
      present = t.present;
      bounded = t.bounded;
      tail = t.tail;
      order = t.order;
    } in
    let q = count_in b p1 in
    let (ec, ea, en, ez, eb) = count_in_keeps b p1 in
    let inside : leb i p.count ≡ true = ground (arith, first.inside) in
    let (p', placed, u, same, members) =
      counted_lem q p.base p.count b i e en eb (count_in-IsTable b p1 t1) new first lt free in
    (p', rw at (rw inside placed), u, same, members)
