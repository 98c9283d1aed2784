-- ===== src/Base/Family.antt =====
-- Families indexed by a thread number: one entry replaced, and the entries that a weight counts.
use Prim.Native.Nat.{ℕ, zero, suc, ◌+◌, ◌≤◌, ◌<◌}
use mathlib.Core.Path.{◌≡◌, refl}
use native.Mathlib.Omega.{arith}
use native.Mathlib.Decide.{dec_lt}
use linux_hammer.Base.Tests.{◌==◌, if◌then◌else◌}

abbrev pub put {ℓ} : {A : Type ℓ} → (ℕ → A) → ℕ → A → ℕ → A
put f i a j = if i == j then a else f j

module _ {ℓ} {A : Type ℓ} (weight : A → ℕ) where
  pub tally : ℕ → (ℕ → A) → ℕ
  tally zero f = 0
  tally (suc n) f = weight (f n) + tally n f

  tally-put_out : (n : ℕ) (f : ℕ → A) (i : ℕ) (a : A) → n ≤ i → tally n (put f i a) ≡ tally n f
  unfolding tally
  tally-put_out zero f i a h = refl
  tally-put_out (suc n) f i a h = ground (arith, tally-put_out n f i a)

  pub tally-put :
      (n : ℕ) (f : ℕ → A) (i : ℕ) (a : A)
      → i < n
      → tally n (put f i a) + weight (f i) ≡ tally n f + weight a
  unfolding tally
  tally-put zero f i a h = absurd (omega arith)
  tally-put (suc n) f i a h = elim (dec_lt i n) [
    | yes below ↦ ground (arith, tally-put n f i a below)
    | no last ↦ ground (arith, tally-put_out n f i a)
  ]

  pub tally-le : ((a : A) → weight a ≤ 1) → (n : ℕ) (f : ℕ → A) → tally n f ≤ n
  unfolding tally
  tally-le small zero f = omega arith
  tally-le small (suc n) f = omega (arith, small (f n), tally-le small n f)

  pub tally-ge : (n : ℕ) (f : ℕ → A) (i : ℕ) → i < n → weight (f i) ≤ tally n f
  unfolding tally
  tally-ge zero f i h = absurd (omega arith)
  tally-ge (suc n) f i h = elim (dec_lt i n) [
    | yes below ↦ omega (arith, tally-ge n f i below)
    | no last ↦ ground arith
  ]

  pub tally-none : (n : ℕ) (f : ℕ → A) → ((i : ℕ) → weight (f i) ≡ 0) → tally n f ≡ 0
  unfolding tally
  tally-none zero f h = refl
  tally-none (suc n) f h = omega (arith, h n, tally-none n f h)

  -- A family that weighs has an entry that does.
  pub tally-some : (n : ℕ) (f : ℕ → A) → 0 < tally n f → (i : ℕ) × (i < n) × (0 < weight (f i))
  unfolding tally
  tally-some zero f h = absurd (omega arith)
  tally-some (suc n) f h = elim (dec_lt 0 (weight (f n))) [
    | yes here ↦ (n, omega arith, here)
    | no below ↦ let (i, lt, w) = tally-some n f (omega arith) in (i, omega arith, w)
  ]

  -- Families of the same weights.
  pub tally-same :
      (n : ℕ) (f g : ℕ → A) → ((j : ℕ) → weight (f j) ≡ weight (g j)) → tally n f ≡ tally n g
  unfolding tally
  tally-same zero f g same = refl
  tally-same (suc n) f g same = omega (arith, same n, tally-same n f g same)

  -- Two entries that weigh are in the tally together.
  pub tally-ge_two :
      (n : ℕ) (f : ℕ → A) (i j : ℕ) → i < j → j < n → weight (f i) + weight (f j) ≤ tally n f
  unfolding tally
  tally-ge_two zero f i j h k = absurd (omega arith)
  tally-ge_two (suc n) f i j h k = elim (dec_lt j n) [
    | yes below ↦ omega (arith, tally-ge_two n f i j h below)
    | no last ↦ ground (arith, tally-ge n f i)
  ]
