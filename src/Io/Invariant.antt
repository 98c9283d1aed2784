-- ===== src/Io/Invariant.antt =====
-- What holds of the table and its dios after every operation.
use linux_hammer.Base.{
  ℕ, ◌+◌, ◌%◌, ◌^◌, ◌≡◌, ◌≢◌, refl, sym, ap, subst, inl, inr, true, false, ◌==◌, if◌then◌else◌,
  none, some, List, [], ◌∷◌, Bool-cases, arith,
}
use mathlib.Core.Option.{some-injective, none-ne-some}
use linux_hammer.Base.Family.{tally}
use linux_hammer.Io.{iohash_size, is_held, Dio, Hmp}
use linux_hammer.Io.Table.{hammer2_io_hashv, find, update_dio}

abbrev pub free_weight : Dio → ℕ
free_weight d = if d.refs == 0 then 1 else 0

-- The dios of a chain that have no reference.
unfoldable pub free_of : List Dio → ℕ
free_of [] = 0
free_of (d ∷ ds) = free_weight d + free_of ds

-- A dio has a buffer exactly if it is good, and one that has no reference is not good and not dirty.
pub record IsSound (d : Dio) : Type 0 where
  pub has : is_held d.held ≡ d.good
  pub clean : d.refs ≡ 0 → (d.good ≡ false) × (d.dirty ≡ false)

-- The dios of a chain belong there, are sound, and have different blocks.
unfoldable pub IsChain : ℕ → List Dio → Type 0
IsChain slot [] = Unit
IsChain slot (d ∷ ds) =
    (hammer2_io_hashv d.pbase ≡ slot) × IsSound d × (find d.pbase ds ≡ none) × IsChain slot ds

pub record Inv (hmp : Hmp) : Type 0 where
  pub chains : (slot : ℕ) → IsChain slot (hmp.iohash slot)
  pub counted : hmp.iofree_count ≡ tally free_of iohash_size hmp.iohash % 2 ^ 32

pub empty_found : (p : ℕ) (d : Dio) → find p [] ≢ some d
unfolding find
empty_found p d at = none-ne-some d at

-- The search of a chain gives a dio of the block.
pub find-pbase : (p : ℕ) (ds : List Dio) (d : Dio) → find p ds ≡ some d → d.pbase ≡ p
unfolding find
find-pbase p [] d at = absurd (none-ne-some d at)
find-pbase p (x ∷ ds) d at = elim (Bool-cases (x.pbase == p)) [
  | inl here ↦
      let same = some-injective x d (rw here at at) in
      subst (λ y. y.pbase ≡ p) same (ground (arith, here))
  | inr other ↦ find-pbase p ds d (rw other at at)
]

pub find-IsSound :
    (slot p : ℕ) (ds : List Dio) (d : Dio) → IsChain slot ds → find p ds ≡ some d → IsSound d
unfolding find IsChain
find-IsSound slot p [] d chain at = absurd (none-ne-some d at)
find-IsSound slot p (x ∷ ds) d (belongs, sound, fresh, rest) at = elim (Bool-cases (x.pbase == p)) [
  | inl here ↦ subst IsSound (some-injective x d (rw here at at)) sound
  | inr other ↦ find-IsSound slot p ds d rest (rw other at at)
]

pub find_cons-none :
    (q : ℕ) (x : Dio) (ds : List Dio)
    → find q (x ∷ ds) ≡ none
    → ((x.pbase == q) ≡ false) × (find q ds ≡ none)
unfolding find
find_cons-none q x ds gone = elim (Bool-cases (x.pbase == q)) [
  | inl here ↦ absurd (none-ne-some x (sym (rw here at gone)))
  | inr other ↦ (other, rw other at gone)
]

pub find_cons-other :
    (q : ℕ) (x : Dio) (ds : List Dio)
    → (x.pbase == q) ≡ false
    → find q ds ≡ none
    → find q (x ∷ ds) ≡ none
unfolding find
find_cons-other q x ds other gone = rw other gone

-- The dio at the head of a chain is the one that is found.
pub head_found :
    (p : ℕ) (x d : Dio) (ds : List Dio) → (x.pbase == p) ≡ true → find p (x ∷ ds) ≡ some d → d ≡ x
unfolding find
head_found p x d ds here at = sym (some-injective x d (rw here at at))

pub tail_found :
    (p : ℕ) (x d : Dio) (ds : List Dio)
    → (x.pbase == p) ≡ false
    → find p (x ∷ ds) ≡ some d
    → find p ds ≡ some d
unfolding find
tail_found p x d ds other at = rw other at at

-- A change of the dio `d` of `p` that leaves it the dio of `p`.
module _ (p : ℕ) (f : Dio → Dio) (d : Dio) (same : (f d).pbase ≡ p) where
  head_pbase : (x : Dio) → (x.pbase == p) ≡ true → d ≡ x → (f x).pbase ≡ x.pbase
  head_pbase x here e = subst (λ y. (f y).pbase ≡ x.pbase) e (ground (arith, same, here))

  update_dio-find-none :
      (q : ℕ) (ds : List Dio)
      → find p ds ≡ some d
      → find q ds ≡ none
      → find q (update_dio p f ds) ≡ none
  unfolding update_dio
  update_dio-find-none q [] at gone = absurd (empty_found p d at)
  update_dio-find-none q (x ∷ ds) at gone =
      let (nq, rest) = find_cons-none q x ds gone in
      elim (Bool-cases (x.pbase == p)) [
        | inl here ↦
            let e = head_pbase x here (head_found p x d ds here at) in
            rw here (find_cons-other q (f x) ds (subst (λ y. (y == q) ≡ false) (sym e) nq) rest)
        | inr other ↦ rw other (
            find_cons-other q x (update_dio p f ds) nq
              (update_dio-find-none q ds (tail_found p x d ds other at) rest))
      ]

  pub update_dio-find :
      (ds : List Dio) → find p ds ≡ some d → find p (update_dio p f ds) ≡ some (f d)
  unfolding update_dio find
  update_dio-find [] at = absurd (empty_found p d at)
  update_dio-find (x ∷ ds) at = elim (Bool-cases (x.pbase == p)) [
    | inl here ↦
        let e = head_found p x d ds here at in
        let p_here : ((f x).pbase == p) ≡ true = ground (arith, head_pbase x here e, here) in
        rw (here, p_here) (ap (λ y. some (f y)) (sym e))
    | inr other ↦ rw (other, other) (update_dio-find ds (tail_found p x d ds other at))
  ]

  pub update_dio-find_other :
      (q : ℕ) (ds : List Dio) → find p ds ≡ some d → q ≢ p → find q (update_dio p f ds) ≡ find q ds
  unfolding update_dio find
  update_dio-find_other q [] at ne = refl
  update_dio-find_other q (x ∷ ds) at ne = elim (Bool-cases (x.pbase == p)) [
    | inl here ↦
        let e = head_pbase x here (head_found p x d ds here at) in
        let apart : (x.pbase == q) ≡ false = ground (arith, here, ne) in
        let too : ((f x).pbase == q) ≡ false = ground (arith, e, apart) in
        rw (here, apart, too) refl
    | inr other ↦ rw (other, update_dio-find_other q ds (tail_found p x d ds other at) ne) refl
  ]

  pub update_dio-IsChain :
      (slot : ℕ) (ds : List Dio)
      → find p ds ≡ some d
      → IsSound (f d)
      → IsChain slot ds
      → IsChain slot (update_dio p f ds)
  unfolding update_dio IsChain
  update_dio-IsChain slot [] at sound chain = tt
  update_dio-IsChain slot (x ∷ ds) at sound (belongs, its, fresh, rest) =
      elim (Bool-cases (x.pbase == p)) [
        | inl here ↦
            let e = head_found p x d ds here at in
            let q = head_pbase x here e in
            rw here (
              subst (λ y. hammer2_io_hashv y ≡ slot) (sym q) belongs,
              subst (λ y. IsSound (f y)) e sound,
              subst (λ y. find y ds ≡ none) (sym q) fresh,
              rest,
            )
        | inr other ↦
            let next = tail_found p x d ds other at in
            rw other (
              belongs,
              its,
              update_dio-find-none x.pbase ds next fresh,
              update_dio-IsChain slot ds next sound rest,
            )
      ]

  pub update_dio-free_of :
      (ds : List Dio)
      → find p ds ≡ some d
      → free_of (update_dio p f ds) + free_weight d ≡ free_of ds + free_weight (f d)
  unfolding update_dio free_of
  update_dio-free_of [] at = absurd (empty_found p d at)
  update_dio-free_of (x ∷ ds) at = elim (Bool-cases (x.pbase == p)) [
    | inl here ↦
        let e = head_found p x d ds here at in
        rw here (
          subst
            (λ y.
              free_weight (f x) + free_of ds + free_weight y
              ≡ free_weight x + free_of ds + free_weight (f y))
            (sym e) (omega arith))
    | inr other ↦ rw other (omega (arith, update_dio-free_of ds (tail_found p x d ds other at)))
  ]
