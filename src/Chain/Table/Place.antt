-- ===== src/Chain/Table/Place.antt =====
-- A reference put into its place in a sorted table, which has an empty entry for it.
use linux_hammer.Base.{
  ℕ, ◌+◌, ◌-◌, ◌≤◌, ◌<◌, ◌≡◌, refl, ◌⊎◌, inl, inr, ◌↔◌, true, false, ◌&&◌, ◌==◌, ltb, leb,
  if◌then◌else◌, none, arith, Bool-cases, dec_lt,
}
use linux_hammer.Chain.Table.{Blockref, is_empty, last_key, Parent}
use linux_hammer.Chain.Table.Order.{IsRanged, IsTable, IsFirst}
use linux_hammer.Chain.Table.Moves.{Holds, move-IsSorted, move-Holds}
use linux_hammer.Chain.Table.Change.{
  write_entry, shift_down, shift_up, EmptySlot, before, after, nowhere, find_slot, Inserted, done,
  validated, put_slot, overlaps, place_ref,
}
use linux_hammer.Chain.Table.Room.{
  IsSlot, find_slot_lem, validate_sorted, down_src, up_src, down_dst, up_dst, append-IsMove,
  down-IsMove, up-IsMove, down_back, up_back,
}

-- The reference is one of the key space, and overlaps none of the table.
pub record IsNew (base : ℕ → Blockref) (count : ℕ) (b : Blockref) : Type 0 where
  pub full : is_empty b ≡ false
  pub fits : IsRanged b
  pub apart :
      (x : ℕ)
      → x < count
      → is_empty (base x) ≡ false
      → (last_key (base x) < b.key) ⊎ (last_key b < (base x).key)

-- What an insertion comes to.
abbrev pub IsInserted : (ℕ → Blockref) → ℕ → Blockref → Inserted → Type 0
IsInserted base count b r =
    (p' : Parent) × (r ≡ done p')
    × IsTable p'
    × (p'.count ≡ count)
    × ((c : Blockref) → Holds p'.base p'.count c ↔ (Holds base count c ⊎ (c ≡ b)))

module _ (p : Parent) (b : Blockref) (i : ℕ) (t : IsTable p) (new : IsNew p.base p.count b)
    (first : IsFirst p.base p.count b.key i) where
  next_apart : i < p.count → last_key b < (p.base i).key
  next_apart lt =
      let (live, reach) = first.hit lt in
      elim (new.apart i lt live) [ inl low ↦ absurd (omega arith) | inr high ↦ high ]

  append_lem :
      i ≡ p.count
      → p.live_zero < p.count
      → IsInserted p.base p.count b
          (done (record p { base = write_entry p.base p.live_zero b; live_zero = p.live_zero + 1 }))
  append_lem end room =
      let mv = append-IsMove p.base p.count i b first.inside p.live_zero end room t.tail in
      let base' = write_entry p.base p.live_zero b in
      (
        record p { base = base'; live_zero = p.live_zero + 1 },
        refl,
        record {
          counted = t.counted;
          present = t.present;
          bounded = omega arith;
          tail = λ x le lt. let gone = t.tail x (omega arith) lt in ground (arith, gone);
          order =
              move-IsSorted p.base p.count i b t.order first next_apart base' p.live_zero (λ x. x)
                mv new.fits;
        },
        refl,
        move-Holds p.base p.count i b t.order first next_apart base' p.live_zero (λ x. x) mv
            (λ y. y)
            (λ y lt live.
              (λ e. let gone = t.tail y (omega arith) lt in ground (arith, gone, live), lt, refl))
            new.full,
      )

  -- The search is at the end, or at an entry of the table; then it is below `live_zero`.
  last_live : i < p.count → i < p.live_zero
  last_live lt = elim (dec_lt i p.live_zero) [
    | yes below ↦ below
    | no past ↦
        let (live, reach) = first.hit lt in
        let gone = t.tail i (omega arith) lt in absurd (ground (arith, gone, live))
  ]

  validated_lem : (q : Parent) → IsTable q → validated q ≡ done q
  unfolding validated
  validated_lem q u =
      rw
        (validate_sorted q.base q.count u.order none q.count 0 (omega arith)
          (λ k x e le lt live. cc))
        refl

  slot_lem :
      (slot : EmptySlot)
      → (i ≡ p.count → p.live_zero ≡ p.count)
      → IsSlot p.base p.count i slot
      → IsInserted p.base p.count b (put_slot p i b slot)
  unfolding put_slot
  slot_lem nowhere full_end at = absurd at
  slot_lem (before j) full_end (lt, free) =
      let mv = down-IsMove p.base p.count i b first.inside j lt in
      let base' = shift_down p.base j i b in
      let q : Parent = record p { base = base' } in
      let bounded = t.bounded in
      let inside = first.inside in
      let low : i ≤ p.live_zero = elim (dec_lt i p.count) [
        | yes below ↦ let early = last_live below in omega arith
        | no end ↦ let same = full_end (omega arith) in omega arith
      ] in
      let u : IsTable q = record {
        counted = t.counted;
        present = t.present;
        bounded = t.bounded;
        tail = λ x le below. let gone = t.tail x le below in ground (arith, gone);
        order =
            move-IsSorted p.base p.count i b t.order first next_apart base' (i - 1) (down_src j i)
              mv new.fits;
      } in
      (
        q,
        validated_lem q u,
        u,
        refl,
        move-Holds p.base p.count i b t.order first next_apart base' (i - 1) (down_src j i) mv
            (down_dst j i)
            (λ y below live. down_back p.base p.count i b first.inside j y lt free below live)
            new.full,
      )
  slot_lem (after k) full_end (lt, room, free) =
      let mv = up-IsMove p.base p.count i b first.inside k lt room in
      let base' = shift_up p.base i k b in
      let q : Parent = record p {
        base = base';
        live_zero = if leb p.live_zero k then k + 1 else p.live_zero;
      } in
      let bounded = t.bounded in
      let u : IsTable q = record {
        counted = t.counted;
        present = t.present;
        bounded = ground arith;
        tail = λ x le below.
            let past : k < x = ground (arith, le) in
            let gone = t.tail x (ground (arith, le)) below in ground (arith, gone);
        order =
            move-IsSorted p.base p.count i b t.order first next_apart base' i (up_src i k) mv
              new.fits;
      } in
      (
        q,
        validated_lem q u,
        u,
        refl,
        move-Holds p.base p.count i b t.order first next_apart base' i (up_src i k) mv (up_dst i k)
            (λ y below live. up_back p.base p.count i b first.inside k y lt room free below live)
            new.full,
      )

  pub place_lem :
      (e : ℕ)
      → e < p.count
      → is_empty (p.base e) ≡ true
      → IsInserted p.base p.count b (place_ref b i p)
  unfolding place_ref
  place_lem e lt free = elim (Bool-cases (i == p.count && ltb p.live_zero p.count)) [
    | inl end ↦ rw end (append_lem (ground (arith, end)) (ground (arith, end)))
    | inr inner ↦
        let bounded = t.bounded in
        let inside = first.inside in
        let fits : IsRanged b = new.fits in
        let clear : overlaps p i b ≡ false = elim (dec_lt i p.count) [
          | yes below ↦ let gap = next_apart below in ground (arith, gap, fits)
          | no end ↦ ground arith
        ] in
        let away : (e + 0 < i) ⊎ (i + 0 < e) = elim (dec_lt e i) [
          | yes low ↦ inl (omega arith)
          | no high ↦ elim (dec_lt i e) [
            | yes up ↦ inr (omega arith)
            | no here ↦
                let same : i ≡ e = omega arith in
                let (live, reach) = first.hit (omega arith) in
                let gone : is_empty (p.base i) ≡ true = rw same free in
                absurd (ground (arith, live, gone))
          ]
        ] in
        rw inner (
          rw clear (
            slot_lem (find_slot p.base p.count i (p.count + 1) 0)
              (λ end. ground (arith, inner, end))
              (find_slot_lem p.base p.count i (p.count + 1) 0 e first.inside lt free away
                (omega arith))))
  ]
