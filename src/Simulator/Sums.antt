-- ===== src/Simulator/Sums.antt =====
-- A family of users or transfers changed at one index, and weights summed over families and lists.
use mathlib.Core.Path.{subst}
use native.Mathlib.Decide.{ℕ_discrete}
use fabric_simulator.Prelude.{
  ℕ, zero, suc, ◌+◌, ◌≡◌, ◌≢◌, ◌≤◌, ◌<◌, ◌⊎◌, inl, inr, refl, ap, Bool-cases, List, [], ◌∷◌, ◌++◌,
  ◌==◌, arith, if◌then◌else◌,
}

module _ {A : Type 0} where
  unfoldable pub update : (ℕ → A) → ℕ → A → ℕ → A
  update f i a j = if i == j then a else f j

  pub update_self : (f : ℕ → A) (i : ℕ) (a : A) → update f i a i ≡ a
  unfolding update
  update_self f i a = ground arith

  pub update-ne : (f : ℕ → A) (i j : ℕ) (a : A) → i ≢ j → update f i a j ≡ f j
  unfolding update
  update-ne f i j a ne = ground (arith, ne)

  unfoldable pub sum_of : (A → ℕ) → List A → ℕ
  sum_of w [] = 0
  sum_of w (x ∷ xs) = w x + sum_of w xs

  pub sum_of-append : (w : A → ℕ) (xs ys : List A) → sum_of w (xs ++ ys) ≡ sum_of w xs + sum_of w ys
  unfolding sum_of
  sum_of-append w [] ys = omega arith
  sum_of-append w (x ∷ xs) ys = omega (arith, sum_of-append w xs ys)

  -- A part in the middle counts as if it stood in front.
  pub sum_of-middle :
      (w : A → ℕ) (xs ys zs : List A)
      → sum_of w (xs ++ (ys ++ zs)) ≡ sum_of w ys + sum_of w (xs ++ zs)
  sum_of-middle w xs ys zs =
      omega (arith, sum_of-append w xs (ys ++ zs), sum_of-append w ys zs, sum_of-append w xs zs)

  -- The sum over the first `n` of a family.
  unfoldable pub total : (A → ℕ) → ℕ → (ℕ → A) → ℕ
  total w zero f = 0
  total w (suc n) f = total w n f + w (f n)

  total-update_above :
      (w : A → ℕ) (n : ℕ) (f : ℕ → A) (i : ℕ) (a : A)
      → n ≤ i
      → total w n (update f i a) ≡ total w n f
  unfolding total
  total-update_above w zero f i a h = refl
  total-update_above w (suc n) f i a h =
      omega
        (arith, total-update_above w n f i a (omega arith), ap w (update-ne f i n a (omega arith)))

  pub total-update :
      (w : A → ℕ) (n : ℕ) (f : ℕ → A) (i : ℕ) (a : A)
      → i < n
      → total w n (update f i a) + w (f i) ≡ total w n f + w a
  unfolding total
  total-update w zero f i a h = absurd (omega arith)
  total-update w (suc n) f i a h = elim (Bool-cases (i == n)) [
    | inl same ↦
        let e : i ≡ n = ground (arith, same) in
        omega (
          arith,
          total-update_above w n f i a (omega arith),
          ap w (subst (λ m. update f i a m ≡ a) e (update_self f i a)),
          ap (λ m. w (f m)) e,
        )
    | inr other ↦ omega (
      arith,
      total-update w n f i a (ground (arith, other)),
      ap w (update-ne f i n a (ground (arith, other))),
    )
  ]

  pub sum_of-le : (w v : A → ℕ) → ((x : A) → w x ≤ v x) → (xs : List A) → sum_of w xs ≤ sum_of v xs
  unfolding sum_of
  sum_of-le w v h [] = omega arith
  sum_of-le w v h (x ∷ xs) = omega (arith, h x, sum_of-le w v h xs)

  -- Either some element weighs something, or all together nothing.
  pub sum_of-cases :
      (w : A → ℕ) (xs : List A)
      → ((before : List A) × (x : A) × (after : List A) × (xs ≡ before ++ (x ∷ after)) × (0 < w x))
        ⊎ (sum_of w xs ≡ 0)
  unfolding sum_of
  sum_of-cases w [] = inr refl
  sum_of-cases w (x ∷ xs) = elim (ℕ_discrete (w x) 0) [
    | no heavy ↦ inl ([], x, xs, refl, omega arith)
    | yes light ↦ elim (sum_of-cases w xs) [
      | inl (before, y, after, e, heavy) ↦ inl (x ∷ before, y, after, ap (λ ys. x ∷ ys) e, heavy)
      | inr none ↦ inr (omega arith)
    ]
  ]

  pub total-at : (w : A → ℕ) (n : ℕ) (f : ℕ → A) (i : ℕ) → i < n → w (f i) ≤ total w n f
  unfolding total
  total-at w zero f i h = absurd (omega arith)
  total-at w (suc n) f i h = elim (ℕ_discrete i n) [
    | yes last ↦ omega (arith, ap (λ j. w (f j)) last)
    | no below ↦ omega (arith, total-at w n f i (omega arith))
  ]

  -- Either some member weighs something, or all together nothing.
  pub total-cases :
      (w : A → ℕ) (n : ℕ) (f : ℕ → A) → ((i : ℕ) × (i < n) × (0 < w (f i))) ⊎ (total w n f ≡ 0)
  unfolding total
  total-cases w zero f = inr refl
  total-cases w (suc n) f = elim (ℕ_discrete (w (f n)) 0) [
    | no heavy ↦ inl (n, omega arith, omega arith)
    | yes light ↦ elim (total-cases w n f) [
      | inl (i, below, heavy) ↦ inl (i, omega arith, heavy)
      | inr none ↦ inr (omega arith)
    ]
  ]

pub total-le :
    {A B : Type 0} (w : A → ℕ) (v : B → ℕ) (n : ℕ) (f : ℕ → A) (g : ℕ → B)
    → ((i : ℕ) → i < n → w (f i) ≤ v (g i))
    → total w n f ≤ total v n g
unfolding total
total-le w v zero f g h = omega arith
total-le w v (suc n) f g h =
    omega (arith, h n (omega arith), total-le w v n f g (λ i l. h i (omega arith)))

pub total-zero :
    {A : Type 0} (w : A → ℕ) (n : ℕ) (f : ℕ → A) → ((i : ℕ) → w (f i) ≡ 0) → total w n f ≡ 0
unfolding total
total-zero w zero f h = refl
total-zero w (suc n) f h = omega (arith, h n, total-zero w n f h)
