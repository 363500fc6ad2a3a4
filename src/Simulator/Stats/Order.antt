-- ===== src/Simulator/Stats/Order.antt =====
-- How the printed minimum, maximum, average and median stand to the timings.
use fabric_simulator.Prelude.{
  ℕ, zero, suc, ◌+◌, ◌*◌, ◌/◌, ◌≡◌, ◌≤◌, ◌<◌, refl, ap, ◌∙◌, ◌⊎◌, inl, inr, Bool-cases, some, List,
  [], ◌∷◌, length, get_elem?, get_elem?_within, ltb, lt→ltb, ◌%◌, ◌^◌, pos, arith, if◌then◌else◌,
}
use mathlib.Core.Path.{subst}
use native.Mathlib.Nat.{le-div_iff_mul-le, div-lt_iff_lt-mul}
use fabric_simulator.Helpers.Bounds.{All}
use fabric_simulator.Simulator.Stats.{
  Running, longest, add_elapsed, run_through, insert_elapsed, sort, TimingBasics, with_median,
  basics, quotient, of_bits,
}

-- How many of the numbers are below, and how many above, a bound.
unfoldable pub below : ℕ → List ℕ → ℕ
below m [] = 0
below m (x ∷ xs) = let rest = below m xs in if ltb x m then suc rest else rest

unfoldable pub above : ℕ → List ℕ → ℕ
above m [] = 0
above m (x ∷ xs) = let rest = above m xs in if ltb m x then suc rest else rest

below-insert_elapsed : (m x : ℕ) (xs : List ℕ) → below m (insert_elapsed x xs) ≡ below m (x ∷ xs)
unfolding below insert_elapsed
below-insert_elapsed m x [] = refl
below-insert_elapsed m x (y ∷ ys) = ground (arith, below-insert_elapsed m x ys)

above-insert_elapsed : (m x : ℕ) (xs : List ℕ) → above m (insert_elapsed x xs) ≡ above m (x ∷ xs)
unfolding above insert_elapsed
above-insert_elapsed m x [] = refl
above-insert_elapsed m x (y ∷ ys) = ground (arith, above-insert_elapsed m x ys)

length-insert_elapsed : (x : ℕ) (xs : List ℕ) → length (insert_elapsed x xs) ≡ suc (length xs)
unfolding insert_elapsed
length-insert_elapsed x [] = refl
length-insert_elapsed x (y ∷ ys) = ground (arith, length-insert_elapsed x ys)

below-sort : (m : ℕ) (xs : List ℕ) → below m (sort xs) ≡ below m xs
unfolding sort below
below-sort m [] = refl
below-sort m (x ∷ xs) = ground (arith, below-insert_elapsed m x (sort xs), below-sort m xs)

above-sort : (m : ℕ) (xs : List ℕ) → above m (sort xs) ≡ above m xs
unfolding sort above
above-sort m [] = refl
above-sort m (x ∷ xs) = ground (arith, above-insert_elapsed m x (sort xs), above-sort m xs)

length-sort : (xs : List ℕ) → length (sort xs) ≡ length xs
unfolding sort
length-sort [] = refl
length-sort (x ∷ xs) = length-insert_elapsed x (sort xs) ∙ ap suc (length-sort xs)

-- Each number is at most all that follow it.
abbrev Sorted : List ℕ → Type 0
Sorted [] = Unit
Sorted (x ∷ xs) = All (λ y. x ≤ y) xs × Sorted xs

All-insert_elapsed :
    (z x : ℕ) (xs : List ℕ) → z ≤ x → All (λ y. z ≤ y) xs → All (λ y. z ≤ y) (insert_elapsed x xs)
unfolding insert_elapsed
All-insert_elapsed z x [] h g = (h, tt)
All-insert_elapsed z x (y ∷ ys) h g = ground (arith, All-insert_elapsed z x ys h g.1)

All-weaken : (x y : ℕ) (xs : List ℕ) → x ≤ y → All (λ z. y ≤ z) xs → All (λ z. x ≤ z) xs
All-weaken x y [] h g = tt
All-weaken x y (z ∷ zs) h g = (omega (arith, g.0), All-weaken x y zs h g.1)

insert_elapsed-Sorted : (x : ℕ) (xs : List ℕ) → Sorted xs → Sorted (insert_elapsed x xs)
unfolding insert_elapsed
insert_elapsed-Sorted x [] h = (tt, tt)
insert_elapsed-Sorted x (y ∷ ys) h = elim (Bool-cases (ltb y x)) [
  | inl e ↦ rw e (All-insert_elapsed y x ys (ground (arith, e)) h.0, insert_elapsed-Sorted x ys h.1)
  | inr e ↦ rw e ((ground (arith, e), All-weaken x y ys (ground (arith, e)) h.0), h)
]

sort-Sorted : (xs : List ℕ) → Sorted (sort xs)
unfolding sort
sort-Sorted [] = tt
sort-Sorted (x ∷ xs) = insert_elapsed-Sorted x (sort xs) (sort-Sorted xs)

All-get {ℓ} :
    {A : Type ℓ} (P : A → Type 0) (xs : List A) (i : ℕ) (m : A)
    → All P xs
    → get_elem? xs i ≡ some m
    → P m
All-get P [] i m h e = cc
All-get P (x ∷ xs) zero m h e = subst P (some-eq e) h.0
  where
    some-eq : some x ≡ some m → x ≡ m
    some-eq e = cc
All-get P (x ∷ xs) (suc i) m h e = All-get P xs i m h.1 e

below-least : (m : ℕ) (xs : List ℕ) → All (λ y. m ≤ y) xs → below m xs ≡ 0
unfolding below
below-least m [] h = refl
below-least m (x ∷ xs) h = ground (arith, below-least m xs h.1, h.0)

above-le : (m : ℕ) (xs : List ℕ) → above m xs ≤ length xs
unfolding above
above-le m [] = omega arith
above-le m (x ∷ xs) = ground (arith, above-le m xs)

-- In a sorted list at most i numbers are below the i-th, and at most those after it are above it.
rank_lem :
    (s : List ℕ) (i m : ℕ)
    → Sorted s
    → get_elem? s i ≡ some m
    → (below m s ≤ i) × (above m s + i < length s)
unfolding below above
rank_lem [] i m h e = cc
rank_lem (x ∷ xs) zero m h e = ground (arith, below-least x xs h.0, above-le x xs, e)
rank_lem (x ∷ xs) (suc i) m h e =
    ground (arith, rank_lem xs i m h.1 e, All-get (λ y. x ≤ y) xs i m h.0 e)

min_lem :
    (xs : List ℕ) (r : Running)
    → ((run_through xs r).min ≤ r.min) × All (λ d. (run_through xs r).min ≤ d) xs
unfolding run_through add_elapsed
min_lem [] r = (omega arith, tt)
min_lem (x ∷ xs) r = ground (arith, min_lem xs (add_elapsed x r))

max_lem :
    (xs : List ℕ) (r : Running)
    → (r.max ≤ (run_through xs r).max) × All (λ d. d ≤ (run_through xs r).max) xs
unfolding run_through add_elapsed
max_lem [] r = (omega arith, tt)
max_lem (x ∷ xs) r = ground (arith, max_lem xs (add_elapsed x r))

-- The number stands in the list.
abbrev pub Among : ℕ → List ℕ → Type 0
Among m xs = (i : ℕ) × (get_elem? xs i ≡ some m)

min-Among :
    (xs : List ℕ) (r : Running) → ((run_through xs r).min ≡ r.min) ⊎ Among (run_through xs r).min xs
unfolding run_through add_elapsed
min-Among [] r = inl refl
min-Among (x ∷ xs) r = elim (min-Among xs (add_elapsed x r)) [
  | inl e ↦ elim (Bool-cases (ltb x r.min)) [
    | inl l ↦ inr (0, ground (arith, e, l))
    | inr l ↦ inl (ground (arith, e, l))
  ]
  | inr (i, e) ↦ inr (suc i, e)
]

max-Among :
    (xs : List ℕ) (r : Running) → ((run_through xs r).max ≡ r.max) ⊎ Among (run_through xs r).max xs
unfolding run_through add_elapsed
max-Among [] r = inl refl
max-Among (x ∷ xs) r = elim (max-Among xs (add_elapsed x r)) [
  | inl e ↦ elim (Bool-cases (ltb r.max x)) [
    | inl l ↦ inr (0, ground (arith, e, l))
    | inr l ↦ inl (ground (arith, e, l))
  ]
  | inr (i, e) ↦ inr (suc i, e)
]

unfoldable pub sum : List ℕ → ℕ
sum [] = 0
sum (x ∷ xs) = x + sum xs

-- A total that fits 64 bits is the sum.
total_lem :
    (xs : List ℕ) (r : Running)
    → r.total + sum xs < 2 ^ 64
    → (run_through xs r).total ≡ r.total + sum xs
unfolding run_through add_elapsed sum
total_lem [] r h = omega arith
total_lem (x ∷ xs) r h =
    let here : (r.total + x) % 2 ^ 64 ≡ r.total + x = omega arith in
    omega (arith, total_lem xs (add_elapsed x r) (omega (arith, here)), here)

sum_ge : (m : ℕ) (xs : List ℕ) → All (λ d. m ≤ d) xs → m * length xs ≤ sum xs
unfolding sum
sum_ge m [] h = omega arith
sum_ge m (x ∷ xs) h = grind (arith, sum_ge m xs h.1, h.0)

sum_le : (m : ℕ) (xs : List ℕ) → All (λ d. d ≤ m) xs → sum xs ≤ m * length xs
unfolding sum
sum_le m [] h = omega arith
sum_le m (x ∷ xs) h = grind (arith, sum_le m xs h.1, h.0)

-- What minimum, maximum, average and median have to be of the timings: bounds that are attained, the
-- quotient of the sum by the number of timings, which is between them, and a number with at most half of the timings on each side.
pub record Describes (totals : List ℕ) (b : TimingBasics) : Type 0 where
  pub least : All (λ d. b.min ≤ d) totals
  pub greatest : All (λ d. d ≤ b.max) totals
  pub min_attained : Among b.min totals
  pub max_attained : Among b.max totals
  pub average : b.avg ≡ pos (sum totals / length totals)
  pub avg_above : b.min ≤ sum totals / length totals
  pub avg_below : sum totals / length totals ≤ b.max
  pub median_middle :
      (below b.median totals * 2 ≤ length totals) × (above b.median totals * 2 ≤ length totals)

min_is_attained :
    (x : ℕ) (xs : List ℕ) (r : Running) → x ≤ r.min → Among (run_through (x ∷ xs) r).min (x ∷ xs)
unfolding run_through add_elapsed
min_is_attained x xs r h = elim (min-Among xs (add_elapsed x r)) [
  | inl e ↦ (0, ground (arith, e, h))
  | inr (i, e) ↦ (suc i, e)
]

max_is_attained :
    (x : ℕ) (xs : List ℕ) (r : Running) → r.max ≡ 0 → Among (run_through (x ∷ xs) r).max (x ∷ xs)
unfolding run_through add_elapsed
max_is_attained x xs r h = elim (max-Among xs (add_elapsed x r)) [
  | inl e ↦ (0, ground (arith, e, h))
  | inr (i, e) ↦ (suc i, e)
]

avg_le : (m total n : ℕ) → 0 < n → total ≤ m * n → total / n ≤ m
avg_le m total n h g =
    omega (arith, (div-lt_iff_lt-mul {k = n} {x = total} {y = suc m} h).1 (grind arith))

-- An average of timings that are all between two bounds is between them.
average_between :
    (low high : ℕ) (xs : List ℕ)
    → 0 < length xs
    → All (λ d. low ≤ d) xs
    → All (λ d. d ≤ high) xs
    → (low ≤ sum xs / length xs) × (sum xs / length xs ≤ high)
average_between low high xs some_timing above_low below_high = (
  (le-div_iff_mul-le some_timing).1 (sum_ge low xs above_low),
  avg_le high (sum xs) (length xs) some_timing (sum_le high xs below_high),
)

quotient-of_bits :
    (total sum n : ℕ) → total ≡ sum → sum < 2 ^ 63 → quotient (of_bits total) n ≡ pos (sum / n)
quotient-of_bits total sum n e h = rw (e, lt→ltb sum (2 ^ 63) h) refl

-- If there is a timing, none is longer than 3600000 seconds, and their sum fits an int64, then the
-- numbers are printed, and they are the minimum, the maximum, the average (the sum divided by the
-- number of timings, which lies between minimum and maximum), and a median of the timings.
pub basics_lem :
    (x : ℕ) (xs : List ℕ)
    → All (λ d. d ≤ longest) (x ∷ xs)
    → sum (x ∷ xs) < 2 ^ 63
    → (b : TimingBasics) × (basics (x ∷ xs) ≡ some b) × Describes (x ∷ xs) b
unfolding basics
basics_lem x xs h fits =
    let totals = x ∷ xs in
    let start : Running = record { min = longest; max = 0; total = 0 } in
    let r = run_through totals start in
    let (m, e) =
      get_elem?_within (sort totals) (length totals / 2) (omega (arith, length-sort totals)) in
    let (few_below, few_above) =
      rank_lem (sort totals) (length totals / 2) m (sort-Sorted totals) e in
    let least = (min_lem totals start).1 in
    let greatest = (max_lem totals start).1 in
    let (avg_above, avg_below) = average_between r.min r.max totals (omega arith) least greatest in
    (
      record {
        min = r.min;
        max = r.max;
        avg = quotient (of_bits r.total) (length totals);
        median = m;
      },
      ap (with_median r (length totals)) e,
      record {
        least = least;
        greatest = greatest;
        min_attained = min_is_attained x xs start h.0;
        max_attained = max_is_attained x xs start refl;
        average =
            quotient-of_bits r.total (sum totals) (length totals)
              (omega (arith, total_lem totals start (omega arith))) fits;
        avg_above = avg_above;
        avg_below = avg_below;
        median_middle = (
          omega (arith, few_below, below-sort m totals),
          omega (arith, few_above, above-sort m totals, length-sort totals),
        );
      },
    )
