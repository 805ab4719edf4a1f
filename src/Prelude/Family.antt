-- ===== src/Prelude/Family.antt =====
-- Families indexed by numbers (threads, operations): change at one index, sums over the first ones.
use Prim.Native.Nat.{ℕ, zero, suc, ◌+◌, ◌≤◌, ◌<◌}
use mathlib.Core.Path.{◌≡◌, refl}
use mathlib.Core.Logic.{◌≢◌, ◌⊎◌, inl, inr}
use mathlib.Core.Bool.{Bool, true, false}
use native.Mathlib.Decide.{dec_lt}
use native.Mathlib.Omega.{arith}
use pc_project_2024_mtr.Prelude.Tests.{◌==◌, if◌then◌else◌, Bool-cases}

abbrev pub assign {ℓ} : {A : Type ℓ} → (ℕ → A) → ℕ → A → ℕ → A
assign f i a j = if i == j then a else f j

module _ {ℓ} {A : Type ℓ} where
  pub assign_at : (f : ℕ → A) (i : ℕ) (a : A) (j : ℕ) → i ≡ j → assign f i a j ≡ a
  assign_at f i a j e = ground arith

  pub assign_ne : (f : ℕ → A) (i : ℕ) (a : A) (j : ℕ) → i ≢ j → assign f i a j ≡ f j
  assign_ne f i a j ne = ground arith

module _ {ℓ} {A : Type ℓ} (weight : A → ℕ) where
  pub total : ℕ → (ℕ → A) → ℕ
  total zero f = 0
  total (suc n) f = total n f + weight (f n)

  pub total-assign_of_le :
      (n : ℕ) (f : ℕ → A) (i : ℕ) (a : A) → n ≤ i → total n (assign f i a) ≡ total n f
  unfolding total
  total-assign_of_le zero f i a h = refl
  total-assign_of_le (suc n) f i a h = ground (arith, total-assign_of_le n f i a)

  pub total-suc : (n : ℕ) (f : ℕ → A) → total (suc n) f ≡ total n f + weight (f n)
  unfolding total
  total-suc n f = refl

  pub total_two : (f : ℕ → A) → total 2 f ≡ weight (f 0) + weight (f 1)
  unfolding total
  total_two f = omega arith

  -- The sum moves by what the changed member does.
  pub total-assign :
      (n : ℕ) (f : ℕ → A) (i : ℕ) (a : A)
      → i < n
      → total n (assign f i a) + weight (f i) ≡ total n f + weight a
  unfolding total
  total-assign zero f i a h = absurd (omega arith)
  total-assign (suc n) f i a h = elim (dec_lt i n) [
    | yes below ↦ ground (arith, total-assign n f i a below)
    | no above ↦ ground (arith, total-assign_of_le n f i a)
  ]

  pub total_of_zero : (n : ℕ) (f : ℕ → A) → ((i : ℕ) → i < n → weight (f i) ≡ 0) → total n f ≡ 0
  unfolding total
  total_of_zero zero f h = refl
  total_of_zero (suc n) f h =
      omega (arith, h n (omega arith), total_of_zero n f (λ i lt. h i (omega arith)))

  pub weight-le-total : (n : ℕ) (f : ℕ → A) (i : ℕ) → i < n → weight (f i) ≤ total n f
  unfolding total
  weight-le-total zero f i h = absurd (omega arith)
  weight-le-total (suc n) f i h = elim (dec_lt i n) [
    | yes below ↦ omega (arith, weight-le-total n f i below)
    | no above ↦ ground arith
  ]

  pub total-le : (n : ℕ) (f : ℕ → A) → ((i : ℕ) → weight (f i) ≤ 1) → total n f ≤ n
  unfolding total
  total-le zero f small = omega arith
  total-le (suc n) f small = omega (arith, total-le n f small, small n)

  -- Two members count separately.
  pub weights-le-total :
      (n : ℕ) (f : ℕ → A) (i j : ℕ)
      → i < n
      → j < n
      → i ≢ j
      → weight (f i) + weight (f j) ≤ total n f
  unfolding total
  weights-le-total zero f i j hi hj ne = absurd (omega arith)
  weights-le-total (suc n) f i j hi hj ne = elim (dec_lt i n) [
    | yes below ↦ elim (dec_lt j n) [
      | yes below' ↦ omega (arith, weights-le-total n f i j below below' ne)
      | no above' ↦ ground (arith, weight-le-total n f i below)
    ]
    | no above ↦ ground (arith, weight-le-total n f j)
  ]

  pub total-eq-count : (n : ℕ) (f : ℕ → A) → ((i : ℕ) → i < n → weight (f i) ≡ 1) → total n f ≡ n
  unfolding total
  total-eq-count zero f h = refl
  total-eq-count (suc n) f h =
      omega (arith, h n (omega arith), total-eq-count n f (λ i lt. h i (omega arith)))

  -- A member that does not count leaves the sum short.
  pub total-lt :
      ((a : A) → weight a ≤ 1)
      → (n : ℕ) (f : ℕ → A) (i : ℕ) → i < n
      → weight (f i) ≡ 0
      → total n f < n
  unfolding total
  total-lt small zero f i h e = absurd (omega arith)
  total-lt small (suc n) f i h e = elim (dec_lt i n) [
    | yes below ↦ omega (arith, total-lt small n f i below e, small (f n))
    | no above ↦ ground (arith, total-le n f (λ i. small (f i)))
  ]

-- A weight that is the sum of two.
pub total_sum {ℓ} :
    {A : Type ℓ} (u v w : A → ℕ) (n : ℕ) (f : ℕ → A)
    → ((i : ℕ) → u (f i) ≡ v (f i) + w (f i))
    → total u n f ≡ total v n f + total w n f
unfolding total
total_sum u v w zero f h = omega arith
total_sum u v w (suc n) f h = omega (arith, total_sum u v w n f h, h n)

-- The first index below `n` that passes a test, or none does.
pub find_below :
    (test : ℕ → Bool) (n : ℕ)
    → ((i : ℕ) × (i < n) × (test i ≡ true)) ⊎ ((i : ℕ) → i < n → test i ≡ false)
find_below test zero = inr (λ i h. elim h [ ])
find_below test (suc n) = elim (find_below test n) [
  | inl (i, h, e) ↦ inl (i, omega arith, e)
  | inr none_below ↦ elim (Bool-cases (test n)) [
    | inl e ↦ inl (n, omega arith, e)
    | inr e ↦ inr (λ i h. ground (arith, none_below i, e))
  ]
]
