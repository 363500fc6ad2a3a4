-- ===== src/Exec/Ensures.antt =====
-- Rules for partial correctness: what holds of the result of a block, if it returns.
use mathlib.Core.Path.{subst}
use fabric_simulator.Prelude.{
  ◌≡◌, ◌<◌, refl, Bool, true, false, List, ◌∷◌, [], length, arith, if◌then◌else◌,
}
use fabric_simulator.Exec.{Fault, Exec, ok, pure, check, >>=-eq-ok, ◌>>=◌, for_each, collect}

module _ {S A : Type 0} where
  pub record Ensures (m : Exec S A) (Q : A → Type 0) : Type 0 where
    pub at : (s s' : S) (a : A) → m s ≡ (ok a, s') → Q a

  pub Ensures-any : (m : Exec S A) → Ensures m (λ _. Unit {0})
  Ensures-any m = record { at = λ s s' a e. tt }

  pub Ensures-pure : (Q : A → Type 0) (a : A) → Q a → Ensures (pure a) Q
  unfolding pure
  Ensures-pure Q a q = record { at = λ s s' b e. subst Q (cc) q }

  pub Ensures-if :
      (Q : A → Type 0) (b : Bool) (m l : Exec S A)
      → (b ≡ true → Ensures m Q)
      → (b ≡ false → Ensures l Q)
      → Ensures (if b then m else l) Q
  Ensures-if Q true m l h g = h refl
  Ensures-if Q false m l h g = g refl

module _ {S A B : Type 0} where
  pub Ensures-bind :
      {m : Exec S A} {f : A → Exec S B} (Q : A → Type 0) {R : B → Type 0}
      → Ensures m Q
      → ((a : A) → Q a → Ensures (f a) R)
      → Ensures (m >>= f) R
  Ensures-bind {m} {f} Q h g = record {
    at = λ s s' b e.
        let (a, s₁, first, rest) = >>=-eq-ok m f s e in (g a (h.at s s₁ a first)).at s₁ s' b rest;
  }

-- `m` returns under the condition `C` alone.
abbrev pub Needs : {S A : Type 0} → Type 0 → Exec S A → Type 0
Needs C m = Ensures m (λ _. C)

module _ {S : Type 0} where
  pub Needs-check :
      (b : Bool) (f : Fault) (C : Type 0) → (b ≡ true → C) → Needs {S = S} C (check b f)
  unfolding check
  Needs-check true f C h = record { at = λ s s' a e. h refl }
  Needs-check false f C h = record { at = λ s s' a e. cc }

module _ {S A B : Type 0} {C : Type 0} where
  -- A block needs what its first part needs, and what the rest needs.
  pub Needs-first : (m : Exec S A) (f : A → Exec S B) → Needs C m → Needs C (m >>= f)
  Needs-first m f h = record {
    at = λ s s' b e. let (a, s₁, first, _) = >>=-eq-ok m f s e in h.at s s₁ a first;
  }

  pub Needs-rest : (m : Exec S A) (f : A → Exec S B) → ((a : A) → Needs C (f a)) → Needs C (m >>= f)
  Needs-rest m f h = record {
    at = λ s s' b e. let (a, s₁, _, rest) = >>=-eq-ok m f s e in (h a).at s₁ s' b rest;
  }

-- A loop that is entered needs what each of its turns needs.
module _ {S A : Type 0} {C : Type 0} where
  pub Needs-for_each :
      (xs : List A) (f : A → Exec S Unit)
      → 0 < length xs
      → ((a : A) → Needs C (f a))
      → Needs C (for_each xs f)
  unfolding for_each
  Needs-for_each [] f some_turn h = absurd (omega arith)
  Needs-for_each (x ∷ xs) f some_turn h = Needs-first _ _ (h x)

module _ {S A B : Type 0} {C : Type 0} where
  pub Needs-collect :
      (xs : List A) (f : A → Exec S B)
      → 0 < length xs
      → ((a : A) → Needs C (f a))
      → Needs C (collect xs f)
  unfolding collect
  Needs-collect [] f some_turn h = absurd (omega arith)
  Needs-collect (x ∷ xs) f some_turn h = Needs-first _ _ (h x)
