-- ===== src/Ondisk/Segments.antt =====
-- The volumes side by side: what the checks make of their offsets, and the search in them.
use linux_hammer.Base.{
  ℕ, zero, suc, ◌+◌, ◌*◌, ◌%◌, ◌^◌, ◌≤◌, ◌<◌, ◌≡◌, refl, sym, subst, Bool, true, false, some,
  dec_lt, ℕ_discrete, arith,
}
use linux_hammer.Ondisk.{max_volumes, Volume, any_from}
use linux_hammer.Ondisk.Load.{holds_offset, search_volume}

-- Where volume `n` starts when the ones before it follow each other.
unfoldable pub start_of : (ℕ → Volume) → ℕ → ℕ
start_of volumes zero = 0
start_of volumes (suc n) = start_of volumes n + (volumes n).size

-- The first `k` volumes follow each other, and none is so large that the sums wrap.
pub record IsSegmented (volumes : ℕ → Volume) (k : ℕ) : Type 0 where
  pub few : k ≤ max_volumes
  pub starts : (i : ℕ) → i < k → (volumes i).offset ≡ start_of volumes i
  pub small : (i : ℕ) → i < k → (volumes i).size < 2 ^ 58

-- A loop that did not return has found nothing.
pub any_from-none :
    (bad : ℕ → Bool) (left i j : ℕ)
    → any_from bad left i ≡ false
    → i ≤ j
    → j < i + left
    → bad j ≡ false
unfolding any_from
any_from-none bad zero i j h le lt = absurd (omega arith)
any_from-none bad (suc left) i j h le lt = elim (ℕ_discrete j i) [
  | yes e ↦ subst (λ x. bad x ≡ false) (sym e) (ground (arith, h))
  | no ne ↦ any_from-none bad left (suc i) j (ground (arith, h)) (omega arith) (omega arith)
]

module _ (volumes : ℕ → Volume) where
  start_of-le :
      (n : ℕ) → ((i : ℕ) → i < n → (volumes i).size < 2 ^ 58) → start_of volumes n ≤ n * 2 ^ 58
  unfolding start_of
  start_of-le zero small = omega arith
  start_of-le (suc n) small =
      omega (arith, small n (omega arith), start_of-le n (λ i lt. small i (omega arith)))

  start_of_mono : (m n : ℕ) → m ≤ n → start_of volumes m ≤ start_of volumes n
  unfolding start_of
  start_of_mono m zero h =
      let e : m ≡ zero = omega arith in
      subst (λ x. start_of volumes x ≤ start_of volumes zero) (sym e) (omega arith)
  start_of_mono m (suc n) h = elim (ℕ_discrete m (suc n)) [
    | yes e ↦ rw e (omega arith)
    | no ne ↦ omega (arith, start_of_mono m n (omega arith))
  ]

  pub start_of-small :
      (n : ℕ)
      → n ≤ max_volumes
      → ((i : ℕ) → i < n → (volumes i).size < 2 ^ 58)
      → (i : ℕ) → i < n
      → start_of volumes i + (volumes i).size < 2 ^ 64
  start_of-small n few small i lt =
      omega (arith, small i lt, start_of-le i (λ j k. small j (omega arith)))

  -- An address below the end is in one of the volumes.
  pub locate :
      (n x : ℕ)
      → x < start_of volumes n
      → (j : ℕ) × (j < n) × (start_of volumes j ≤ x) × (x < start_of volumes j + (volumes j).size)
  unfolding start_of
  locate zero x h = absurd (omega arith)
  locate (suc n) x h = elim (dec_lt x (start_of volumes n)) [
    | yes below ↦ let (j, lt, le, up) = locate n x below in (j, omega arith, le, up)
    | no last ↦ (n, omega arith, omega arith, h)
  ]

  module _ (k : ℕ) (segmented : IsSegmented volumes k) where
    -- No volume's end wraps.
    end_of :
        (i : ℕ)
        → i < k
        → ((volumes i).offset ≡ start_of volumes i)
          × (((volumes i).offset + (volumes i).size) % 2 ^ 64
              ≡ start_of volumes i + (volumes i).size)
    end_of i lt = (
      segmented.starts i lt,
      omega (arith, segmented.starts i lt, start_of-small k segmented.few segmented.small i lt),
    )

    holds :
        (j x : ℕ)
        → j < k
        → start_of volumes j ≤ x
        → x < start_of volumes j + (volumes j).size
        → holds_offset (volumes j) x ≡ true
    holds j x lt from to = let (o, e) = end_of j lt in ground (arith, o, e)

    holds_not :
        (i x : ℕ)
        → i < k
        → start_of volumes i + (volumes i).size ≤ x
        → holds_offset (volumes i) x ≡ false
    holds_not i x lt from = let (o, e) = end_of i lt in ground (arith, o, e)

    -- The search gives the one volume that has the address.
    pub search-found :
        (left i j x : ℕ)
        → left + i ≡ k
        → i ≤ j
        → j < k
        → start_of volumes j ≤ x
        → x < start_of volumes j + (volumes j).size
        → search_volume volumes x left i ≡ some j
    unfolding search_volume start_of
    search-found zero i j x e le lt from to = absurd (omega arith)
    search-found (suc left) i j x e le lt from to = elim (ℕ_discrete i j) [
      | yes same ↦ rw (same, holds j x lt from to) refl
      | no ne ↦
          rw (holds_not i x (omega arith) (omega (arith, start_of_mono (suc i) j (omega arith))))
            (search-found left (suc i) j x (omega arith) (omega arith) lt from to)
    ]
