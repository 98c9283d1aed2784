-- ===== src/Xop/Collect/Rounds.antt =====
-- One round of the collection: what is left to read becomes less.
use linux_hammer.Base.{
  ℕ, zero, suc, ◌+◌, ◌-◌, ◌%◌, ◌≤◌, ◌<◌, ◌≡◌, refl, ◌∙◌, ap, ◌⊎◌, inl, inr, Bool, true, false, ◌||◌,
  ◌==◌, ltb, if◌then◌else◌, Option, none, some, List, [], ◌∷◌, arith, Bool-cases, ℕ_discrete,
}
use linux_hammer.Cluster.{Chain, Slot}
use linux_hammer.Cluster.Check.{has_chain}
use linux_hammer.Xop.Fifo.{Fifo, take_reply}
use linux_hammer.Xop.Collect.{is_behind, put_reply, advance, Gathered, lower, gather_elements}

-- The chains that the elements stand at.
unfoldable pub chains : List Slot → List (Option Chain)
chains [] = []
chains (s ∷ ss) = s.chain ∷ chains ss

abbrev pub one_if : Bool → ℕ
one_if true = 1
one_if false = 0

-- The replies that are not yet passed by: those of the FIFOs, and the chains that the elements stand at.
unfoldable pub held : List (Option Chain) → ℕ
held [] = 0
held (c ∷ cs) = one_if (has_chain c) + held cs

unfoldable pub unread : List Fifo → ℕ
unread [] = 0
unread (f ∷ fs) = f.wi - f.ri + unread fs

-- Every element has a FIFO, which is not read past its end.
unfoldable pub AllOrdered : List (Option Chain) → List Fifo → Type 0
AllOrdered [] fs = Unit {0}
AllOrdered (c ∷ cs) [] = ⊥
AllOrdered (c ∷ cs) (f ∷ fs) = (f.ri ≤ f.wi) × AllOrdered cs fs

abbrev pub is_passed : ℕ → Option Chain → Bool
is_passed key none = false
is_passed key (some c) = ltb c.key key

-- Some element stands at a key that is collected already.
unfoldable pub any_passed : ℕ → List (Option Chain) → Bool
any_passed key [] = false
any_passed key (c ∷ cs) = is_passed key c || any_passed key cs

passed_le : (key : ℕ) (c : Option Chain) → one_if (is_passed key c) ≤ one_if (has_chain c)
passed_le key none = omega arith
passed_le key (some c) = ground arith

pub one_if_le : (b : Bool) → one_if b ≤ 1
one_if_le true = omega arith
one_if_le false = omega arith

stays : (key : ℕ) (c : Option Chain) → is_behind key c ≡ false → one_if (is_passed key c) ≡ 0
stays key none there = absurd (ground (arith, there))
stays key (some c) there = ground (arith, there)

-- One element comes to a key of its own, or to the end of its replies.
advance_lem :
    (fuel size key : ℕ) (s : Slot) (f : Fifo)
    → f.ri ≤ f.wi
    → f.wi - f.ri < fuel
    → (s' : Slot) × (f' : Fifo) × (advance fuel size key s f ≡ some (s', f'))
      × (f'.ri ≤ f'.wi)
      × (f'.wi - f'.ri + one_if (has_chain s'.chain) + one_if (is_passed key s.chain)
          ≤ f.wi - f.ri + one_if (has_chain s.chain))
unfolding advance take_reply
advance_lem zero size key s f ordered enough = absurd (omega arith)
advance_lem (suc fuel) size key s f ordered enough = elim (Bool-cases (is_behind key s.chain)) [
  | inr there ↦ (
    s,
    f,
    rw (advance, there) refl,
    ordered,
    let none_passed = stays key s.chain there in omega arith,
  )
  | inl behind ↦ elim (ℕ_discrete f.ri f.wi) [
    | yes end ↦
        let test : (f.ri == f.wi) ≡ true = ground (arith, end) in
        (
          record s { chain = none },
          f,
          rw (advance, behind, take_reply, test) refl,
          ordered,
          let p = passed_le key s.chain in omega arith,
        )
    | no more ↦
        let test : (f.ri == f.wi) ≡ false = ground (arith, more) in
        let c = f.array (f.ri % size) in
        let e = f.errors (f.ri % size) in
        let g : Fifo = record f { ri = f.ri + 1 } in
        let (s', f', runs, ordered', less) =
          advance_lem fuel size key (put_reply c e s) g (omega arith) (omega arith) in
        (
          s',
          f',
          rw (advance, behind, take_reply, test) runs,
          ordered',
          let p = passed_le key s.chain in
              let h = one_if_le (has_chain (put_reply c e s).chain) in omega arith,
        )
  ]
]

one_if_or : (a b : Bool) → one_if (a || b) ≤ one_if a + one_if b
one_if_or true b = omega arith
one_if_or false b = omega arith

or_right : (a b : Bool) → b ≡ true → (a || b) ≡ true
or_right true b e = refl
or_right false b e = e

lower_lem : (l : ℕ) (c : Option Chain) → (lower l c ≡ l) ⊎ (is_passed (suc (lower l c)) c ≡ true)
lower_lem l none = inl refl
lower_lem l (some c) = elim (Bool-cases (ltb c.key l)) [
  | inl less ↦ inr (rw less (ground arith))
  | inr more ↦ inl (rw more refl)
]

-- A round gathers the elements: it always comes to an end, it reads what it reads once, each element that
-- stood at a passed key goes on, and `lokey` is the key of an element if it is not the greatest key.
pub gather_lem :
    (size key : ℕ) (ss : List Slot) (fs : List Fifo) (l : ℕ) (k : Bool)
    → AllOrdered (chains ss) fs
    → (g : Gathered) × (gather_elements size key ss fs l k ≡ some g)
      × AllOrdered (chains g.slots) g.fifos
      × (held (chains g.slots) + unread g.fifos + one_if (any_passed key (chains ss))
          ≤ held (chains ss) + unread fs)
      × ((g.lokey ≡ l) ⊎ (any_passed (suc g.lokey) (chains g.slots) ≡ true))
unfolding gather_elements chains AllOrdered held unread any_passed
gather_lem size key [] fs l k ordered =
    (record { slots = []; fifos = fs; lokey = l; keynull = k }, refl, tt, omega arith, inl refl)
gather_lem size key (s ∷ ss) [] l k ordered = absurd ordered
gather_lem size key (s ∷ ss) (f ∷ fs) l k (first, ordered) =
    let (s', f', runs, first', less) =
      advance_lem (f.wi - f.ri + 1) size key s f first (omega arith) in
    let (g, rest, ordered', less', low) =
      gather_lem size key ss fs (lower l s'.chain) (if has_chain s'.chain then false else k)
        ordered in
    let either = one_if_or (is_passed key s.chain) (any_passed key (chains ss)) in
    (
      record g { slots = s' ∷ g.slots; fifos = f' ∷ g.fifos },
      rw (gather_elements, runs, rest) refl,
      (first', ordered'),
      omega arith,
      elim low [
        | inr here ↦ inr (
            or_right (is_passed (suc g.lokey) s'.chain) (any_passed (suc g.lokey) (chains g.slots))
              here)
        | inl same ↦ elim (lower_lem l s'.chain) [
          | inl kept ↦ inl (same ∙ kept)
          | inr at ↦
              let at' : is_passed (suc g.lokey) s'.chain ≡ true =
                ap (λ x. is_passed (suc x) s'.chain) same ∙ at in
              inr (rw at' refl)
        ]
      ],
    )
