-- ===== src/Revocation/Requests/Times.antt =====
-- How often a request's index stands in a list, when one is taken out of it.
use fabric_simulator.Prelude.{
  ℕ, suc, ◌+◌, ◌≡◌, refl, ap, List, [], ◌∷◌, ◌++◌, length, ◌==◌, arith, if◌then◌else◌,
}
use fabric_simulator.Helpers.Bounds.{All}

-- How often an index stands in a list.
unfoldable pub times : ℕ → List ℕ → ℕ
times i [] = 0
times i (x ∷ xs) = let rest = times i xs in if x == i then suc rest else rest

pub times-append : (i : ℕ) (xs ys : List ℕ) → times i (xs ++ ys) ≡ times i xs + times i ys
unfolding times
times-append i [] ys = omega arith
times-append i (x ∷ xs) ys = ground (arith, times-append i xs ys)

pub times-remove :
    (i j : ℕ) (before after : List ℕ)
    → times i (before ++ j ∷ after) ≡ times i (before ++ after) + (if j == i then 1 else 0)
unfolding times
times-remove i j [] after = ground arith
times-remove i j (x ∷ before) after = ground (arith, times-remove i j before after)

pub length-remove :
    (j : ℕ) (before after : List ℕ) → length (before ++ j ∷ after) ≡ suc (length (before ++ after))
length-remove j [] after = refl
length-remove j (x ∷ before) after = ap suc (length-remove j before after)

pub All-remove :
    {A : Type 0} (P : A → Type 0) (before after : List A) (x : A)
    → All P (before ++ x ∷ after)
    → P x × All P (before ++ after)
All-remove P [] after x h = h
All-remove P (y ∷ before) after x h = let (a, b) = All-remove P before after x h.1 in (a, (h.0, b))
