-- ===== src/Xop/Fifo/Moves.antt =====
-- What `hammer2_xop_fifo_alloc` moves: in a ring made twice as large every entry is where the new mask looks.
use native.Mathlib.Nat.{
  mod-lt, mod-eq_of_lt, mod-eq-sub-mod, mod-add-mod, mod-mod_of_dvd, dvd-mul_right,
}
use linux_hammer.Base.{
  ℕ, zero, suc, ◌+◌, ◌-◌, ◌*◌, ◌%◌, ◌≤◌, ◌<◌, ◌≡◌, ◌≢◌, refl, sym, ap, ◌∙◌, ◌⊎◌, inl, inr, ◌==◌,
  if◌then◌else◌, arith, dec_lt, ℕ_discrete, Bool-cases,
}
use linux_hammer.Xop.Fifo.{Fifo, write_at, move_entry, move_entries}

-- Indices less than the size apart have different places.
pub mod_apart : (a d n : ℕ) → 0 < d → d < n → (a + d) % n ≢ a % n
mod_apart a d n pos below e =
    let r : a % n < n = mod-lt a (omega arith) in
    let split : (a % n + d) % n ≡ (a + d) % n = mod-add-mod a n d in
    elim (dec_lt (a % n + d) n) [
      | yes small ↦ let same = mod-eq_of_lt small in absurd (omega arith)
      | no large ↦
          let over : (a % n + d) % n ≡ (a % n + d - n) % n = mod-eq-sub-mod (omega arith) in
          let same : (a % n + d - n) % n ≡ a % n + d - n = mod-eq_of_lt (omega arith) in
          absurd (omega arith)
    ]

-- In a ring of twice the size a place is the same or the one in the upper half.
mod_double : (k n : ℕ) → 0 < n → (k % (n * 2) ≡ k % n) ⊎ (k % (n * 2) ≡ k % n + n)
mod_double k n pos =
    let r : k % (n * 2) < n * 2 = mod-lt k (omega arith) in
    let r' : k % n < n = mod-lt k pos in
    let down : k % (n * 2) % n ≡ k % n = mod-mod_of_dvd n k (dvd-mul_right n 2) in
    elim (dec_lt (k % (n * 2)) n) [
      | yes small ↦ let same = mod-eq_of_lt small in inl (omega arith)
      | no large ↦
          let over : k % (n * 2) % n ≡ (k % (n * 2) - n) % n = mod-eq-sub-mod (omega arith) in
          let same : (k % (n * 2) - n) % n ≡ k % (n * 2) - n = mod-eq_of_lt (omega arith) in
          inr (omega arith)
    ]

-- What the move does to one array.
pub move_array {ℓ} : {A : Type ℓ} → ℕ → ℕ → ℕ → ℕ → (ℕ → A) → ℕ → A
move_array new old zero k a = a
move_array new old (suc left) k a =
    move_array new old left (suc k)
      (if k % old == k % new then a else write_at a (k % new) (a (k % old)))

move_entry-arrays :
    (new old k : ℕ) (f : Fifo)
    → ((move_entry new old k f).array
        ≡ (if k % old == k % new then f.array else write_at f.array (k % new) (f.array (k % old))))
      × ((move_entry new old k f).errors ≡ (
          if k % old == k % new
          then f.errors
          else write_at f.errors (k % new) (f.errors (k % old))))
      × ((move_entry new old k f).ri ≡ f.ri)
      × ((move_entry new old k f).wi ≡ f.wi)
unfolding move_entry
move_entry-arrays new old k f = elim (Bool-cases (k % old == k % new)) [
  | inl same ↦ rw same (refl, refl, refl, refl)
  | inr differ ↦ rw differ (refl, refl, refl, refl)
]

pub move_entries-arrays :
    (new old left k : ℕ) (f : Fifo)
    → ((move_entries new old left k f).array ≡ move_array new old left k f.array)
      × ((move_entries new old left k f).errors ≡ move_array new old left k f.errors)
      × ((move_entries new old left k f).ri ≡ f.ri)
      × ((move_entries new old left k f).wi ≡ f.wi)
unfolding move_entries move_array
move_entries-arrays new old zero k f = (refl, refl, refl, refl)
move_entries-arrays new old (suc left) k f =
    let (a, e, r, w) = move_entry-arrays new old k f in
    let (a', e', r', w') = move_entries-arrays new old left (suc k) (move_entry new old k f) in
    (
      a' ∙ ap (move_array new old left (suc k)) a,
      e' ∙ ap (move_array new old left (suc k)) e,
      r' ∙ r,
      w' ∙ w,
    )

module _ {ℓ} {A : Type ℓ} (old : ℕ) (some_places : 0 < old) where
  -- One move keeps every place but the new one.
  step_keeps :
      (k x : ℕ) (a : ℕ → A)
      → (k % old ≡ k % (old * 2)) ⊎ (x ≢ k % (old * 2))
      → (if k % old == k % (old * 2) then a else write_at a (k % (old * 2)) (a (k % old))) x ≡ a x
  step_keeps k x a (inl same) = ground (arith, same)
  step_keeps k x a (inr other) = ground (arith, other)

  step_moves :
      (k : ℕ) (a : ℕ → A)
      → (if k % old == k % (old * 2) then a else write_at a (k % (old * 2)) (a (k % old)))
          (k % (old * 2))
        ≡ a (k % old)
  step_moves k a = elim (ℕ_discrete (k % old) (k % (old * 2))) [
    | yes same ↦ ground (arith, same)
    | no differ ↦ ground (arith, differ)
  ]

  move_keeps :
      (left k x : ℕ) (a : ℕ → A)
      → ((j : ℕ) → k ≤ j → j < k + left → x ≢ j % (old * 2))
      → move_array (old * 2) old left k a x ≡ a x
  unfolding move_array
  move_keeps zero k x a away = refl
  move_keeps (suc left) k x a away =
      move_keeps left (suc k) x
        (if k % old == k % (old * 2) then a else write_at a (k % (old * 2)) (a (k % old)))
        (λ j low high. away j (omega arith) (omega arith))
      ∙ step_keeps k x a (inr (away k (omega arith) (omega arith)))

  pub move_at :
      (left k j : ℕ) (a : ℕ → A)
      → left ≤ old
      → k ≤ j
      → j < k + left
      → move_array (old * 2) old left k a (j % (old * 2)) ≡ a (j % old)
  unfolding move_array
  move_at zero k j a few low high = absurd (omega arith)
  move_at (suc left) k j a few low high =
      let a' : ℕ → A =
        if k % old == k % (old * 2) then a else write_at a (k % (old * 2)) (a (k % old)) in
      elim (dec_lt k j) [
        | no first ↦
            let at : j ≡ k = omega arith in
            rw at (
              move_keeps left (suc k) (k % (old * 2)) a' (λ i low' high' e.
                let d : i ≡ k + (i - k) = omega arith in
                mod_apart k (i - k) (old * 2) (omega arith) (omega arith) (rw d at (sym e)))
              ∙ step_moves k a)
        | yes later ↦
            move_at left (suc k) j a' (omega arith) later (omega arith)
            ∙ step_keeps k (j % old) a (elim (mod_double k old some_places) [
              | inl same ↦ inl (sym same)
              | inr upper ↦
                  let below : j % old < old = mod-lt j some_places in
                  inr (λ e. absurd (omega arith))
            ])
      ]
