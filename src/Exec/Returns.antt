-- ===== src/Exec/Returns.antt =====
-- Rules for total correctness: from a state that satisfies `P` a block returns, with a result that
-- satisfies `Q`, in a state that satisfies `P` again.
use fabric_simulator.Prelude.{
  suc, length, ◌≡◌, ◌∙◌, ap, refl, Bool, true, false, Option, none, some, List, [], ◌∷◌,
  if◌then◌else◌,
}
use fabric_simulator.Exec.{
  Fault, ok, Exec, pure, gets, modify, check, require, when, continue, ◌>>=◌, for_each, collect,
}
use fabric_simulator.Helpers.Bounds.{All}

pub record Returns {S A : Type 0} (P : S → Type 0) (m : Exec S A) (Q : A → Type 0) : Type 0 where
  pub at : (s : S) → P s → (a : A) × (s' : S) × (m s ≡ (ok a, s')) × Q a × P s'

-- A result of which nothing is said.
abbrev pub Any : {A : Type 0} → A → Type 0
Any a = Unit {0}

module _ {S : Type 0} {P : S → Type 0} where
  pub Returns-check : (b : Bool) (f : Fault) → b ≡ true → Returns P (check b f) Any
  unfolding check
  Returns-check true f e = record { at = λ s h. (tt, s, refl, tt, h) }
  Returns-check false f e = cc

  pub Returns-modify : (f : S → S) → ((s : S) → P s → P (f s)) → Returns P (modify f) Any
  unfolding modify
  Returns-modify f k = record { at = λ s h. (tt, f s, refl, tt, k s h) }

  pub Returns-when :
      (b : Bool) (m : Exec S Unit) → (b ≡ true → Returns P m Any) → Returns P (when b m) Any
  unfolding when
  Returns-when true m k = record { at = (k refl).at }
  Returns-when false m k = record { at = λ s h. (tt, s, refl, tt, h) }

module _ {S A : Type 0} {P : S → Type 0} where
  pub Returns-pure : (Q : A → Type 0) (a : A) → Q a → Returns P (pure a) Q
  unfolding pure
  Returns-pure Q a q = record { at = λ s h. (a, s, refl, q, h) }

  pub Returns-if :
      (Q : A → Type 0) (b : Bool) (m n : Exec S A)
      → (b ≡ true → Returns P m Q)
      → (b ≡ false → Returns P n Q)
      → Returns P (if b then m else n) Q
  Returns-if Q true m n h g = h refl
  Returns-if Q false m n h g = g refl

  -- What is read satisfies what the state says of it.
  pub Returns-gets : (Q : A → Type 0) (f : S → A) → ((s : S) → P s → Q (f s)) → Returns P (gets f) Q
  unfolding gets
  Returns-gets Q f k = record { at = λ s h. (f s, s, refl, k s h, h) }

  pub Returns-require :
      (f : Fault) (o : Option A) (a : A) → o ≡ some a → Returns P (require f o) (λ x. x ≡ a)
  unfolding require
  Returns-require f none a e = cc
  Returns-require f (some x) a e = record { at = λ s h. (x, s, refl, cc, h) }

module _ {S A B : Type 0} {P : S → Type 0} where
  pub Returns-bind :
      {m : Exec S A} {f : A → Exec S B} (Q : A → Type 0) {R : B → Type 0}
      → Returns P m Q
      → ((a : A) → Q a → Returns P (f a) R)
      → Returns P (m >>= f) R
  unfolding ◌>>=◌
  Returns-bind {m} {f} Q {R} h k = record {
    at = λ s ps.
        let (a, s', e, q, ps') = h.at s ps in
        let (b, s'', e', r, ps'') = (k a q).at s' ps' in
        (b, s'', ap (λ x. continue x.0 f x.1) e ∙ e', r, ps'');
  }

module _ {S A : Type 0} {P : S → Type 0} where
  pub Returns-for_each :
      (Q : A → Type 0) (xs : List A) (f : A → Exec S Unit)
      → ((a : A) → Q a → Returns P (f a) Any)
      → All Q xs
      → Returns P (for_each xs f) Any
  unfolding for_each
  Returns-for_each Q [] f k all = Returns-pure Any tt tt
  Returns-for_each Q (x ∷ xs) f k all =
      Returns-bind Any (k x all.0) (λ _ _. Returns-for_each Q xs f k all.1)

module _ {S A B : Type 0} {P : S → Type 0} where
  pub Returns-collect :
      (Q : A → Type 0) (R : B → Type 0) (xs : List A) (f : A → Exec S B)
      → ((a : A) → Q a → Returns P (f a) R)
      → All Q xs
      → Returns P (collect xs f) (λ ys. (length ys ≡ length xs) × All R ys)
  unfolding collect
  Returns-collect Q R [] f k all = Returns-pure _ [] (refl, tt)
  Returns-collect Q R (x ∷ xs) f k all = Returns-bind R (k x all.0) λ y r.
      Returns-bind _ (Returns-collect Q R xs f k all.1)
        λ ys rs. Returns-pure _ (y ∷ ys) (ap suc rs.0, (r, rs.1))

-- The same with another statement about the last state.
pub record Reaches {S A : Type 0} (P : S → Type 0) (m : Exec S A) (R : A → S → Type 0)
    : Type 0 where
  pub at : (s : S) → P s → (a : A) × (s' : S) × (m s ≡ (ok a, s')) × R a s'

module _ {S A B : Type 0} {P : S → Type 0} where
  pub Reaches-bind :
      {m : Exec S A} {f : A → Exec S B} (Q : A → Type 0) {R : B → S → Type 0}
      → Returns P m Q
      → ((a : A) → Q a → Reaches P (f a) R)
      → Reaches P (m >>= f) R
  unfolding ◌>>=◌
  Reaches-bind {m} {f} Q {R} h k = record {
    at = λ s ps.
        let (a, s', e, q, ps') = h.at s ps in
        let (b, s'', e', r) = (k a q).at s' ps' in (b, s'', ap (λ x. continue x.0 f x.1) e ∙ e', r);
  }

module _ {S A B : Type 0} {P : S → Type 0} where
  pub Reaches-then :
      {m : Exec S A} {f : A → Exec S B} (R : A → S → Type 0) {Q : B → S → Type 0}
      → Reaches P m R
      → ((a : A) → Reaches (R a) (f a) Q)
      → Reaches P (m >>= f) Q
  unfolding ◌>>=◌
  Reaches-then {m} {f} R {Q} h k = record {
    at = λ s ps.
        let (a, s', e, r) = h.at s ps in
        let (b, s'', e', q) = (k a).at s' r in (b, s'', ap (λ x. continue x.0 f x.1) e ∙ e', q);
  }
