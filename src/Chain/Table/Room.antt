-- ===== src/Chain/Table/Room.antt =====
-- The parts of `hammer2_base_insert`: the search for room, the three ways to move, and the check.
use linux_hammer.Base.{
  ℕ, zero, suc, ◌+◌, ◌-◌, ◌≤◌, ◌<◌, ◌≡◌, ◌≢◌, refl, ◌⊎◌, inl, inr, true, false, ◌&&◌, ◌||◌, ltb,
  leb, if◌then◌else◌, Option, some, arith, Bool-cases, Option-cases, dec_lt, ==_self,
}
use linux_hammer.Chain.Table.{Blockref, is_empty, last_key}
use linux_hammer.Chain.Table.Order.{IsSorted}
use linux_hammer.Chain.Table.Moves.{IsMove}
use linux_hammer.Chain.Table.Change.{
  write_entry, shift_down, shift_up, EmptySlot, before, after, nowhere, find_slot, validate,
}

-- An empty entry on one side of `i`.
abbrev pub IsSlot : (ℕ → Blockref) → ℕ → ℕ → EmptySlot → Type 0
IsSlot base count i (before j) = (j < i) × (is_empty (base j) ≡ true)
IsSlot base count i (after k) = (i < k) × (k < count) × (is_empty (base k) ≡ true)
IsSlot base count i nowhere = ⊥

pub find_slot_lem :
    (base : ℕ → Blockref) (count i fuel d e : ℕ)
    → i ≤ count
    → e < count
    → is_empty (base e) ≡ true
    → (e + d < i) ⊎ (i + d < e)
    → count < fuel + d
    → IsSlot base count i (find_slot base count i fuel d)
unfolding find_slot
find_slot_lem base count i zero d e le lt empty far enough = absurd (omega arith)
find_slot_lem base count i (suc fuel) d e le lt empty far enough =
    let inside : (ltb d i || ltb (i + d) count) ≡ true = ground (arith, far) in
    elim (Bool-cases (leb (d + 1) i && is_empty (base (i - (d + 1))))) [
      | inl down ↦ rw inside (rw down (ground (arith, down), ground (arith, down)))
      | inr not_down ↦ elim (Bool-cases (ltb (i + d + 1) count && is_empty (base (i + d + 1)))) [
        | inl up ↦
            rw inside (rw not_down (rw up (omega arith, ground (arith, up), ground (arith, up))))
        | inr not_up ↦
            let further : (e + (d + 1) < i) ⊎ (i + (d + 1) < e) = elim far [
              | inl low ↦ elim (dec_lt (e + (d + 1)) i) [
                | yes more ↦ inl more
                | no here ↦
                    let at : i - (d + 1) ≡ e = omega arith in
                    let free : is_empty (base (i - (d + 1))) ≡ true = rw at empty in
                    absurd (ground (arith, not_down, free))
              ]
              | inr high ↦ elim (dec_lt (i + (d + 1)) e) [
                | yes more ↦ inr more
                | no here ↦
                    let at : i + d + 1 ≡ e = omega arith in
                    let free : is_empty (base (i + d + 1)) ≡ true = rw at empty in
                    absurd (ground (arith, not_up, free))
              ]
            ] in
            rw inside (
              rw not_down (
                rw not_up
                  (find_slot_lem base count i fuel (d + 1) e le lt empty further (omega arith))))
      ]
    ]

-- A sorted table passes the check.
pub validate_sorted :
    (base : ℕ → Blockref) (count : ℕ)
    → IsSorted base count
    → (last : Option ℕ) (left l : ℕ) → left + l ≡ count
    → ((k x : ℕ) → last ≡ some k → l ≤ x → x < count → is_empty (base x) ≡ false → k < (base x).key)
    → validate base last left l ≡ true
unfolding validate
validate_sorted base count order last zero l all under = refl
validate_sorted base count order last (suc left) l all under =
    elim (Bool-cases (is_empty (base l))) [
      | inl free ↦ rw free (
          validate_sorted base count order last left (suc l) (omega arith)
            (λ k x e le lt live. under k x e (omega arith) lt live))
      | inr live ↦
          let rest =
            validate_sorted base count order (some (last_key (base l))) left (suc l) (omega arith)
              (λ k x e le lt live'.
                let same : last_key (base l) ≡ k = cc in
                rw (← same) (order.sorted l x (omega arith) lt live live')) in
          elim (Option-cases last) [
            | inl none_before ↦ rw live (rw none_before rest)
            | inr (k, before_it) ↦
                let apart = under k l before_it (omega arith) (omega arith) live in
                rw live (rw before_it (ground (arith, apart, rest)))
          ]
    ]

pub down_src : ℕ → ℕ → ℕ → ℕ
down_src j i x = if leb j x && ltb (x + 1) i then x + 1 else x

pub up_src : ℕ → ℕ → ℕ → ℕ
up_src i k x = if ltb i x && leb x k then x - 1 else x

pub down_dst : ℕ → ℕ → ℕ → ℕ
down_dst j i y = if ltb j y && ltb y i then y - 1 else y

pub up_dst : ℕ → ℕ → ℕ → ℕ
up_dst i k y = if leb i y && ltb y k then y + 1 else y

module _ (base : ℕ → Blockref) (count i : ℕ) (b : Blockref) (le : i ≤ count) where
  pub append-IsMove :
      (p : ℕ)
      → i ≡ count
      → p < count
      → ((x : ℕ) → p ≤ x → x < count → is_empty (base x) ≡ true)
      → IsMove base (write_entry base p b) count i p b (λ x. x)
  append-IsMove p end lt tail = record {
    place = lt;
    at = rw (==_self p) refl;
    moved = λ x inside other. ground (arith, other);
    bound = λ x inside other. inside;
    mono = λ x y less inside away other. less;
    before = λ x less. omega arith;
    after = λ x less inside live.
        let gone = tail x (omega arith) inside in absurd (ground (arith, gone, live));
  }

  pub down-IsMove :
      (j : ℕ) → j < i → IsMove base (shift_down base j i b) count i (i - 1) b (down_src j i)
  unfolding down_src
  down-IsMove j lt = record {
    place = omega arith;
    at = ground arith;
    moved = λ x inside other. ground (arith, other);
    bound = λ x inside other. ground (arith, other);
    mono = λ x y less inside away other. ground (arith, away, other);
    before = λ x less. ground arith;
    after = λ x less inside live. ground arith;
  }

  pub up-IsMove :
      (k : ℕ) → i < k → k < count → IsMove base (shift_up base i k b) count i i b (up_src i k)
  unfolding up_src
  up-IsMove k lt room = record {
    place = omega arith;
    at = ground arith;
    moved = λ x inside other. ground (arith, other);
    bound = λ x inside other. ground (arith, other);
    mono = λ x y less inside away other. ground (arith, away, other);
    before = λ x less. ground arith;
    after = λ x less inside live. ground arith;
  }

  pub down_back :
      (j y : ℕ)
      → j < i
      → is_empty (base j) ≡ true
      → y < count
      → is_empty (base y) ≡ false
      → (down_dst j i y ≢ i - 1) × (down_dst j i y < count) × (down_src j i (down_dst j i y) ≡ y)
  unfolding down_src down_dst
  down_back j y lt free inside live =
      let other : y ≢ j = λ e.
        absurd (let here : is_empty (base y) ≡ true = rw e free in ground (arith, here, live)) in
      (λ e. ground (arith, other, e), ground (arith, other), ground (arith, other))

  pub up_back :
      (k y : ℕ)
      → i < k
      → k < count
      → is_empty (base k) ≡ true
      → y < count
      → is_empty (base y) ≡ false
      → (up_dst i k y ≢ i) × (up_dst i k y < count) × (up_src i k (up_dst i k y) ≡ y)
  unfolding up_src up_dst
  up_back k y lt room free inside live =
      let other : y ≢ k = λ e.
        absurd (let here : is_empty (base y) ≡ true = rw e free in ground (arith, here, live)) in
      (λ e. ground (arith, other, e), ground (arith, other), ground (arith, other))
