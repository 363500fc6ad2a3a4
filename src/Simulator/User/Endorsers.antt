-- ===== src/Simulator/User/Endorsers.antt =====
-- The endorsers of a transaction.
use mathlib.Core.Path.{subst}
use native.Mathlib.Decide.{dec_lt}
use native.Mathlib.Nat.{div-add-mod, mul-le-mul_left, add-mod_right}
use fabric_simulator.Prelude.{
  ℕ, zero, suc, ◌+◌, ◌-◌, ◌↔◌, ◌/◌, ◌%◌, ◌≤◌, ◌<◌, ◌≡◌, ◌≢◌, refl, ap, sym, List, [], ◌∷◌, length,
  arith,
}
use fabric_simulator.Helpers.Bounds.{All}
use fabric_simulator.Simulator.User.{endorsers_from, select_endorsers}

abbrev pub IsDistinct : List ℕ → Type 0
IsDistinct [] = Unit
IsDistinct (x ∷ xs) = All (λ y. x ≢ y) xs × IsDistinct xs

remainders_differ : (P e i j : ℕ) → i < j → j < i + P → (e + i) % P ≢ (e + j) % P
remainders_differ P e i j h k same = elim (dec_lt ((e + i) / P) ((e + j) / P)) [
  | yes up ↦ ground (arith, mul-le-mul_left P up, div-add-mod (e + i) P, div-add-mod (e + j) P)
  | no same_or_down ↦
      ground (
        arith,
        mul-le-mul_left P (not_lt same_or_down),
        div-add-mod (e + i) P,
        div-add-mod (e + j) P,
      )
]
  where
    not_lt : ¬ ((e + i) / P < (e + j) / P) → (e + j) / P ≤ (e + i) / P
    not_lt q = omega arith

module _ (e P : ℕ) where
  length-endorsers_from : (k n : ℕ) → length (endorsers_from e P k n) ≡ n
  unfolding endorsers_from
  length-endorsers_from k zero = refl
  length-endorsers_from k (suc n) = ap suc (length-endorsers_from (suc k) n)

  endorsers_from-lt : 0 < P → (k n : ℕ) → All (λ x. x < P) (endorsers_from e P k n)
  unfolding endorsers_from
  endorsers_from-lt h k zero = tt
  endorsers_from-lt h k (suc n) = (omega arith, endorsers_from-lt h (suc k) n)

  endorsers_from-ne :
      (i k n : ℕ) → i < k → k + n ≤ i + P → All (λ y. (e + i) % P ≢ y) (endorsers_from e P k n)
  unfolding endorsers_from
  endorsers_from-ne i k zero h l = tt
  endorsers_from-ne i k (suc n) h l = (
    remainders_differ P e i k h (omega arith),
    endorsers_from-ne i (suc k) n (omega arith) (omega arith),
  )

  endorsers_from-IsDistinct : (k n : ℕ) → n ≤ P → IsDistinct (endorsers_from e P k n)
  unfolding endorsers_from
  endorsers_from-IsDistinct k zero l = tt
  endorsers_from-IsDistinct k (suc n) l = (
    endorsers_from-ne k (suc k) n (omega arith) (omega arith),
    endorsers_from-IsDistinct (suc k) n (omega arith),
  )

  -- What holds of all endorsers holds of the one at each place.
  endorsers_from-at :
      (Q : ℕ → Type 0) (k n d : ℕ) → d < n → All Q (endorsers_from e P k n) → Q ((e + (k + d)) % P)
  unfolding endorsers_from
  endorsers_from-at Q k zero d h all = absurd (omega arith)
  endorsers_from-at Q k (suc n) zero h all = subst (λ x. Q ((e + x) % P)) (omega arith) all.0
  endorsers_from-at Q k (suc n) (suc d) h all =
      subst (λ x. Q ((e + x) % P)) (omega arith)
        (endorsers_from-at Q (suc k) n d (omega arith) all.1)

  -- Past the number of peers the first endorser comes again.
  endorsers_from-again : 0 < P → (k n : ℕ) → P < n → ¬ IsDistinct (endorsers_from e P k n)
  unfolding endorsers_from
  endorsers_from-again pos k zero h d = absurd (omega arith)
  endorsers_from-again pos k (suc n) h d =
      endorsers_from-at (λ y. (e + k) % P ≢ y) (suc k) n (P - 1) (omega arith) d.0
        (wraps (suc k + (P - 1)) (omega arith))
    where
      wraps : (m : ℕ) → m ≡ k + P → (e + k) % P ≡ (e + m) % P
      wraps m q = subst (λ x. (e + k) % P ≡ x % P) (omega arith) (sym (add-mod_right (e + k) P))

pub length-select_endorsers : (e P n : ℕ) → length (select_endorsers e P n) ≡ n
unfolding select_endorsers
length-select_endorsers e P n = length-endorsers_from e P 0 n

-- With at least one peer, as many endorsers are chosen as the policy asks for, each a peer; and they
-- are distinct exactly when the policy asks for no more endorsers than there are peers.
pub select_endorsers_lem :
    (endorser peers endorsements : ℕ)
    → 0 < peers
    → (length (select_endorsers endorser peers endorsements) ≡ endorsements)
      × All (λ x. x < peers) (select_endorsers endorser peers endorsements)
      × (IsDistinct (select_endorsers endorser peers endorsements) ↔ (endorsements ≤ peers))
unfolding select_endorsers
select_endorsers_lem e P n pos = (
  length-endorsers_from e P 0 n,
  endorsers_from-lt e P pos 0 n,
  (
    λ d. elim (dec_lt P n) [
      | yes more ↦ absurd (endorsers_from-again e P pos 0 n more d)
      | no fits ↦ omega arith
    ],
    endorsers_from-IsDistinct e P 0 n,
  ),
)
