-- ===== src/Prelude/Counting.antt =====
-- Families over the natural numbers: a change at one place, and how many of the first pass a test.
use Prim.Native.Nat.{ℕ, zero, suc, ◌+◌, ◌≤◌, ◌<◌}
use mathlib.Core.Path.{◌≡◌, refl, ap, subst}
use mathlib.Core.Logic.{◌≢◌, inl, inr}
use mathlib.Core.Bool.{Bool, true, false}
use native.Mathlib.Omega.{arith}
use herbert_rs.Prelude.Tests.{◌==◌, if◌then◌else◌, Bool-cases}

-- `f` with `c` at `i`
abbrev pub put {ℓ} : {A : Type ℓ} → (ℕ → A) → ℕ → A → ℕ → A
put f i c j = if j == i then c else f j

module _ {ℓ} {A : Type ℓ} where
  pub put-ne : (f : ℕ → A) (i : ℕ) (c : A) (j : ℕ) → j ≢ i → put f i c j ≡ f j
  put-ne f i c j h = ground arith

  pub put_self : (f : ℕ → A) (i : ℕ) (c : A) → put f i c i ≡ c
  put_self f i c = ground arith

  -- What holds everywhere after the change held everywhere before it, if it held at that place.
  pub put_back {κ} :
      (P : A → Type κ) (f : ℕ → A) (i : ℕ) (c : A)
      → ((j : ℕ) → P (put f i c j))
      → P (f i)
      → (j : ℕ) → P (f j)
  put_back P f i c all old j = elim (Bool-cases (j == i)) [
    | inl e ↦ subst (λ k. P (f k)) (ground arith) old
    | inr e ↦ subst P (put-ne f i c j (λ q. absurd (ground arith))) (all j)
  ]

  pub put-all {κ} :
      (P : ℕ → A → Type κ) (f : ℕ → A) (i : ℕ) (c : A)
      → ((j : ℕ) → P j (f j))
      → P i c
      → (j : ℕ) → P j (put f i c j)
  put-all P f i c all new j = elim (Bool-cases (j == i)) [
    | inl e ↦ rw e (subst (λ k. P k c) (ground arith) new)
    | inr e ↦ rw e (all j)
  ]

abbrev pub one_if : Bool → ℕ
one_if true = 1
one_if false = 0

-- How many of the first `n` pass the test.
abbrev pub count : ℕ → (ℕ → Bool) → ℕ
count zero f = 0
count (suc n) f = count n f + one_if (f n)

pub count-le : (n : ℕ) (f : ℕ → Bool) → count n f ≤ n
count-le zero f = omega arith
count-le (suc n) f = ground (arith, count-le n f)

pub count_all : (n : ℕ) (f : ℕ → Bool) → n ≤ count n f → (i : ℕ) → i < n → f i ≡ true
count_all zero f h i lt = absurd (omega arith)
count_all (suc n) f h i lt = elim (Bool-cases (f n)) [
  | inr e ↦ absurd (omega (arith, count-le n f, rw e at h))
  | inl e ↦ elim (Bool-cases (i == n)) [
    | inl same ↦ subst (λ k. f k ≡ true) (ground arith) e
    | inr other ↦ count_all n f (omega (arith, rw e at h)) i (ground arith)
  ]
]

pub count_none : (n : ℕ) (f : ℕ → Bool) → ((i : ℕ) → f i ≡ false) → count n f ≡ 0
count_none zero f h = refl
count_none (suc n) f h = rw (h n) (omega (arith, count_none n f h))

-- The counter of a test that changes at one place.
pub count_same : (n : ℕ) (f g : ℕ → Bool) → ((i : ℕ) → i < n → f i ≡ g i) → count n f ≡ count n g
count_same zero f g h = refl
count_same (suc n) f g h =
    rw (h n (omega arith))
      (ap (λ k. k + one_if (g n)) (count_same n f g (λ i lt. h i (omega arith))))

pub count_one :
    (n : ℕ) (f g : ℕ → Bool) (i : ℕ)
    → i < n
    → f i ≡ false
    → g i ≡ true
    → ((j : ℕ) → j ≢ i → f j ≡ g j)
    → count n g ≡ suc (count n f)
count_one zero f g i lt off on same = absurd (omega arith)
count_one (suc n) f g i lt off on same = elim (Bool-cases (i == n)) [
  | inl e ↦
      let q : i ≡ n = ground arith in
      rw (subst (λ k. f k ≡ false) q off, subst (λ k. g k ≡ true) q on)
        (omega (arith, count_same n f g (λ j h. same j (λ x. absurd (omega (arith, x, q))))))
  | inr e ↦
      let q : n ≢ i = λ x. absurd (ground arith) in
      omega (arith, count_one n f g i (ground arith) off on same, ap one_if (same n q))
]

-- A change at one place changes the count by what it changes there.
pub count-put {ℓ} :
    {A : Type ℓ} (test : A → Bool) (n : ℕ) (w : ℕ → A) (i : ℕ) (c : A)
    → i < n
    → count n (λ j. test (put w i c j)) + one_if (test (w i))
      ≡ count n (λ j. test (w j)) + one_if (test c)
count-put test zero w i c lt = absurd (omega arith)
count-put test (suc n) w i c lt = elim (Bool-cases (n == i)) [
  | inl e ↦
      let q : n ≡ i = ground arith in
      rw e (
        omega (
          arith,
          ap (λ k. one_if (test (w k))) q,
          count_same n (λ j. test (put w i c j)) (λ j. test (w j))
              (λ j h. ap test (put-ne w i c j (λ x. absurd (omega (arith, x, q))))),
        ))
  | inr e ↦ rw e (omega (arith, count-put test n w i c (ground arith)))
]
