-- ===== src/Ondisk/Prefix.antt =====
-- The loops that count the volumes and add up their sizes, when the volumes that are there come first.
use linux_hammer.Base.{
  ℕ, zero, suc, ◌+◌, ◌*◌, ◌%◌, ◌^◌, ◌≤◌, ◌<◌, ◌≡◌, refl, sym, ap, ◌∙◌, inl, inr, subst, true, false,
  Bool-cases, ℕ_discrete, arith,
}
use linux_hammer.Ondisk.{max_volumes, Volume, is_present}
use linux_hammer.Ondisk.Verify.{count_present, sum_sizes}
use linux_hammer.Ondisk.Segments.{start_of}

module _ (volumes : ℕ → Volume) where
  count_none :
      (left i n : ℕ)
      → ((j : ℕ) → i ≤ j → j < i + left → is_present (volumes j) ≡ false)
      → count_present volumes left i n ≡ n
  unfolding count_present
  count_none zero i n none_there = refl
  count_none (suc left) i n none_there =
      rw (none_there i (omega arith) (omega arith))
        (count_none left (suc i) n (λ j le lt. none_there j (omega arith) (omega arith)))

  sum_none :
      (left i total : ℕ)
      → ((j : ℕ) → i ≤ j → j < i + left → is_present (volumes j) ≡ false)
      → sum_sizes volumes left i total ≡ total
  unfolding sum_sizes
  sum_none zero i total none_there = refl
  sum_none (suc left) i total none_there =
      rw (none_there i (omega arith) (omega arith))
        (sum_none left (suc i) total (λ j le lt. none_there j (omega arith) (omega arith)))

  -- What the loops from volume `i` on find: `m` volumes, and then no more.
  pub record Run (i n left : ℕ) : Type 0 where
    pub m : ℕ
    pub within : m ≤ left
    pub count : count_present volumes left i n ≡ n + m
    pub sum : sum_sizes volumes left i (start_of volumes i) ≡ start_of volumes (i + m)
    pub there : (j : ℕ) → i ≤ j → j < i + m → is_present (volumes j) ≡ true

  module _
      (closed : (j : ℕ)
        → suc j < max_volumes
        → is_present (volumes j) ≡ false
        → is_present (volumes (suc j)) ≡ false)
      (small : (j : ℕ)
        → j < max_volumes
        → is_present (volumes j) ≡ true
        → (volumes j).size < 2 ^ 58) where
    none_from :
        (i j : ℕ)
        → i ≤ j
        → j < max_volumes
        → is_present (volumes i) ≡ false
        → is_present (volumes j) ≡ false
    none_from i zero le lt gone = subst (λ x. is_present (volumes x) ≡ false) (omega arith) gone
    none_from i (suc j) le lt gone = elim (ℕ_discrete i (suc j)) [
      | yes e ↦ subst (λ x. is_present (volumes x) ≡ false) e gone
      | no ne ↦ closed j lt (none_from i j (omega arith) (omega arith) gone)
    ]

    step_sum :
        (i left m : ℕ)
        → is_present (volumes i) ≡ true
        → start_of volumes i + (volumes i).size < 2 ^ 64
        → sum_sizes volumes left (suc i) (start_of volumes (suc i)) ≡ start_of volumes (suc i + m)
        → sum_sizes volumes (suc left) i (start_of volumes i) ≡ start_of volumes (i + suc m)
    unfolding sum_sizes start_of
    step_sum i left m here lt rest =
        let whole : (start_of volumes i + (volumes i).size) % 2 ^ 64
            ≡ start_of volumes i + (volumes i).size =
          omega arith in
        rw (here, whole) (rest ∙ ap (start_of volumes) (omega arith))

    pub run :
        (left i n : ℕ) → left + i ≡ max_volumes → start_of volumes i ≤ i * 2 ^ 58 → Run i n left
    unfolding count_present sum_sizes start_of
    run zero i n e le = record {
      m = 0;
      within = omega arith;
      count = omega arith;
      sum = ap (start_of volumes) (omega arith);
      there = λ j a b. absurd (omega arith);
    }
    run (suc left) i n e le = elim (Bool-cases (is_present (volumes i))) [
      | inl here ↦
          let rest =
            run left (suc i) (n + 1) (omega arith) (omega (arith, small i (omega arith) here)) in
          record {
            m = suc rest.m;
            within = omega (arith, rest.within);
            count = rw here (omega (arith, rest.count));
            sum = step_sum i left rest.m here (omega (arith, small i (omega arith) here)) rest.sum;
            there = λ j a b. elim (ℕ_discrete j i) [
              | yes e ↦ subst (λ x. is_present (volumes x) ≡ true) (sym e) here
              | no ne ↦ rest.there j (omega arith) (omega arith)
            ];
          }
      | inr gone ↦
          let none_there : (j : ℕ) → i ≤ j → j < i + suc left → is_present (volumes j) ≡ false =
            λ j a b. none_from i j a (omega arith) gone in
          record {
            m = 0;
            within = omega arith;
            count = omega (arith, count_none (suc left) i n none_there);
            sum =
                sum_none (suc left) i (start_of volumes i) none_there
                ∙ ap (start_of volumes) (omega arith);
            there = λ j a b. absurd (omega arith);
          }
    ]
