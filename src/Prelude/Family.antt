-- ===== src/Prelude/Family.antt =====
-- Arrays as functions of the index: a write, and the sum of a weight over the first `n` elements.
use Prim.Native.Nat.{ℕ, zero, suc, ◌+◌, ◌*◌, ◌≤◌, ◌<◌}
use mathlib.Core.Path.{◌≡◌, refl, sym}
use mathlib.Core.Logic.{◌≢◌, ◌⊎◌, inl, inr}
use mathlib.Core.Bool.{Bool, true, false}
use native.Mathlib.Decide.{dec_lt, ℕ_discrete}
use native.Mathlib.Omega.{arith}
use os_in_parts.Prelude.Tests.{◌==◌, if◌then◌else◌, Bool-cases, weight, weight-le}

abbrev pub update {ℓ} : {A : Type ℓ} → (ℕ → A) → ℕ → A → ℕ → A
update f i a j = if i == j then a else f j

pub update_self {ℓ} : {A : Type ℓ} (f : ℕ → A) (i : ℕ) (a : A) → update f i a i ≡ a
update_self f i a = ground arith

pub update_ne {ℓ} : {A : Type ℓ} (f : ℕ → A) (i j : ℕ) (a : A) → j ≢ i → update f i a j ≡ f j
update_ne f i j a ne = ground (arith, ne)

module _ {ℓ} {A : Type ℓ} (weight : A → ℕ) where
  unfoldable pub total : ℕ → (ℕ → A) → ℕ
  total zero f = 0
  total (suc n) f = total n f + weight (f n)

  total-update_above :
      (n : ℕ) (f : ℕ → A) (i : ℕ) (a : A) → n ≤ i → total n (update f i a) ≡ total n f
  unfolding total
  total-update_above zero f i a h = refl
  total-update_above (suc n) f i a h = ground (arith, total-update_above n f i a)

  pub total-update :
      (n : ℕ) (f : ℕ → A) (i : ℕ) (a : A)
      → i < n
      → total n (update f i a) + weight (f i) ≡ total n f + weight a
  unfolding total
  total-update zero f i a h = absurd (omega arith)
  total-update (suc n) f i a h = elim (dec_lt i n) [
    | yes below ↦ ground (arith, total-update n f i a)
    | no last ↦ ground (arith, total-update_above n f i a)
  ]

  -- The sum after a change at one index.
  total_beyond :
      (n : ℕ) (f g : ℕ → A) (i : ℕ)
      → n ≤ i
      → ((j : ℕ) → j ≢ i → weight (g j) ≡ weight (f j))
      → total n g ≡ total n f
  unfolding total
  total_beyond zero f g i h same = refl
  total_beyond (suc n) f g i h same =
      omega (arith, total_beyond n f g i (omega arith) same, same n (omega arith))

  pub total_change :
      (n : ℕ) (f g : ℕ → A) (i : ℕ)
      → i < n
      → ((j : ℕ) → j ≢ i → weight (g j) ≡ weight (f j))
      → total n g + weight (f i) ≡ total n f + weight (g i)
  unfolding total
  total_change zero f g i h same = absurd (omega arith)
  total_change (suc n) f g i h same = elim (ℕ_discrete i n) [
    | yes e ↦ ground (arith, total_beyond n f g i (omega arith) same)
    | no ne ↦ omega (arith, total_change n f g i (omega arith) same, same n (λ e. ne (sym e)))
  ]

  pub total-ge : (n : ℕ) (f : ℕ → A) (i : ℕ) → i < n → weight (f i) ≤ total n f
  unfolding total
  total-ge zero f i h = absurd (omega arith)
  total-ge (suc n) f i h = elim (ℕ_discrete i n) [
    | yes e ↦ ground arith
    | no ne ↦ omega (arith, total-ge n f i (omega arith))
  ]

  pub total_pair-ge :
      (n : ℕ) (f : ℕ → A) (i j : ℕ)
      → i < n
      → j < n
      → i ≢ j
      → weight (f i) + weight (f j) ≤ total n f
  unfolding total
  total_pair-ge zero f i j h k ne = absurd (omega arith)
  total_pair-ge (suc n) f i j h k ne = elim (ℕ_discrete i n) [
    | yes e ↦ rw e (omega (arith, total-ge n f j (omega arith)))
    | no ne' ↦ elim (ℕ_discrete j n) [
      | yes e ↦ rw e (omega (arith, total-ge n f i (omega arith)))
      | no ne'' ↦ omega (arith, total_pair-ge n f i j (omega arith) (omega arith) ne)
    ]
  ]

  -- A sum of weights of at most 1 below `n` has an index of weight 0.
  pub total_gap : (n : ℕ) (f : ℕ → A) → total n f < n → (j : ℕ) × (j < n) × (weight (f j) ≡ 0)
  unfolding total
  total_gap zero f h = absurd (omega arith)
  total_gap (suc n) f h = elim (ℕ_discrete (weight (f n)) 0) [
    | yes e ↦ (n, omega arith, e)
    | no ne ↦ let (j, lt, e) = total_gap n f (omega arith) in (j, omega arith, e)
  ]

  module _ (bound : ℕ) (small : (a : A) → weight a ≤ bound) where
    pub total-le : (n : ℕ) (f : ℕ → A) → total n f ≤ n * bound
    unfolding total
    total-le zero f = omega arith
    total-le (suc n) f = omega (arith, total-le n f, small (f n))

    -- One element below the bound keeps the sum below the largest one.
    pub total-lt :
        (n : ℕ) (f : ℕ → A) (i : ℕ) → i < n → weight (f i) < bound → total n f < n * bound
    unfolding total
    total-lt zero f i h k = absurd (omega arith)
    total-lt (suc n) f i h k = elim (dec_lt i n) [
      | yes below ↦ omega (arith, total-lt n f i below k, small (f n))
      | no last ↦ ground (arith, total-le n f, small (f n))
    ]

  pub total-zero : (n : ℕ) (a : A) → weight a ≡ 0 → total n (λ _. a) ≡ 0
  unfolding total
  total-zero zero a h = refl
  total-zero (suc n) a h = omega (arith, total-zero n a h)

  pub total_zeros : (n : ℕ) (f : ℕ → A) → ((i : ℕ) → i < n → weight (f i) ≡ 0) → total n f ≡ 0
  unfolding total
  total_zeros zero f h = refl
  total_zeros (suc n) f h =
      omega (arith, total_zeros n f (λ i lt. h i (omega arith)), h n (omega arith))

-- Two sums, and three, that are compared at each index.
module _ {ℓ ℓ'} {A : Type ℓ} {B : Type ℓ'} (weight : A → ℕ) (weight' : B → ℕ) where
  pub total-cong :
      (n : ℕ) (f : ℕ → A) (g : ℕ → B)
      → ((i : ℕ) → i < n → weight (f i) ≡ weight' (g i))
      → total weight n f ≡ total weight' n g
  unfolding total
  total-cong zero f g same = refl
  total-cong (suc n) f g same =
      omega (arith, total-cong n f g (λ i h. same i (omega arith)), same n (omega arith))

  pub total-add-le :
      (weight'' : B → ℕ) (n : ℕ) (f : ℕ → A) (g : ℕ → B)
      → ((i : ℕ) → i < n → weight (f i) + weight' (g i) ≤ weight'' (g i))
      → total weight n f + total weight' n g ≤ total weight'' n g
  unfolding total
  total-add-le weight'' zero f g le = omega arith
  total-add-le weight'' (suc n) f g le =
      omega (arith, total-add-le weight'' n f g (λ i h. le i (omega arith)), le n (omega arith))

-- A test holds at an index below `n`, or at none.
pub find_below :
    (f : ℕ → Bool) (n : ℕ) → ((i : ℕ) × (i < n) × (f i ≡ true)) ⊎ ((i : ℕ) → i < n → f i ≡ false)
find_below f zero = inr (λ i h. absurd (omega arith))
find_below f (suc n) = elim (Bool-cases (f n)) [
  | inl e ↦ inl (n, omega arith, e)
  | inr e ↦ elim (find_below f n) [
    | inl (i, lt, e') ↦ inl (i, omega arith, e')
    | inr no_such ↦
        inr
          (λ i h. elim (ℕ_discrete i n) [ yes same ↦ rw same e | no ne ↦ no_such i (omega arith) ])
  ]
]

-- The tests that hold below `n`, counted.
pub count-le : (n : ℕ) (f : ℕ → Bool) → total weight n f ≤ n
count-le n f = omega (arith, total-le weight 1 weight-le n f)

pub count_all : (n : ℕ) (f : ℕ → Bool) → n ≤ total weight n f → (i : ℕ) → i < n → f i ≡ true
count_all n f h i lt = elim (Bool-cases (f i)) [
  | inl e ↦ e
  | inr e ↦ absurd (omega (arith, total-lt weight 1 weight-le n f i lt (ground arith)))
]

pub count-lt : (n : ℕ) (f : ℕ → Bool) (i : ℕ) → i < n → f i ≡ false → total weight n f < n
count-lt n f i lt e = omega (arith, total-lt weight 1 weight-le n f i lt (ground arith))

pub count_gap : (n : ℕ) (f : ℕ → Bool) → total weight n f < n → (j : ℕ) × (j < n) × (f j ≡ false)
count_gap n f h = let (j, lt, e) = total_gap weight n f h in (j, lt, ground arith)

-- The sum of two stretches.
pub total-split {ℓ} :
    {A : Type ℓ} (w : A → ℕ) (n m : ℕ) (f g : ℕ → A)
    → ((i : ℕ) → i < m → g i ≡ f (n + i))
    → total w (n + m) f ≡ total w n f + total w m g
unfolding total
total-split w n zero f g same = let e : n + 0 ≡ n = omega arith in rw e (omega arith)
total-split w n (suc m) f g same =
    let e : n + suc m ≡ suc (n + m) = omega arith in
    rw (e, same m (omega arith))
      (omega (arith, total-split w n m f g (λ i h. same i (omega arith))))
