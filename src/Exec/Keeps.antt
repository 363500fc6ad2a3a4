-- ===== src/Exec/Keeps.antt =====
-- Rules for what a block of code keeps, whether it returns or ends the process.
use fabric_simulator.Prelude.{
  ◌≡◌, refl, Bool, true, false, Option, none, some, List, [], ◌∷◌, if◌then◌else◌,
}
use fabric_simulator.Exec.{
  Fault, Outcome, ok, halt, Exec, pure, gets, modify, check, require, when, continue, ◌>>=◌, ◌>>◌,
  for_each, collect,
}

pub record Keeps {S A : Type 0} (P : S → Type 0) (m : Exec S A) : Type 0 where
  pub at : (s : S) → P s → P (m s).1

module _ {S : Type 0} {P : S → Type 0} where
  pub Keeps-check : (b : Bool) (f : Fault) → Keeps P (check b f)
  unfolding check
  Keeps-check true f = record { at = λ s h. h }
  Keeps-check false f = record { at = λ s h. h }

  pub Keeps-modify : (f : S → S) → ((s : S) → P s → P (f s)) → Keeps P (modify f)
  unfolding modify
  Keeps-modify f k = record { at = k }

  pub Keeps-when : (b : Bool) (m : Exec S Unit) → Keeps P m → Keeps P (when b m)
  unfolding when
  Keeps-when true m k = k
  Keeps-when false m k = record { at = λ s h. h }

module _ {S A : Type 0} {P : S → Type 0} where
  pub Keeps-require : (fault : Fault) (value : Option A) → Keeps P (require fault value)
  unfolding require
  Keeps-require fault (some x) = record { at = λ _ kept. kept }
  Keeps-require fault none = record { at = λ _ kept. kept }

  pub Keeps-if :
      (test : Bool) (then_block else_block : Exec S A)
      → Keeps P then_block
      → Keeps P else_block
      → Keeps P (if test then then_block else else_block)
  Keeps-if false _ _ _ l = l
  Keeps-if true _ _ k _ = k

  pub Keeps-gets : (read : S → A) → Keeps P (gets read)
  unfolding gets
  Keeps-gets read = record { at = λ _ kept. kept }

  pub Keeps-pure : (x : A) → Keeps P (pure x)
  unfolding pure
  Keeps-pure x = record { at = λ _ kept. kept }

module _ {S A B : Type 0} {P : S → Type 0} where
  Keeps-continue :
      (outcome : Outcome A) (rest : A → Exec S B)
      → ((x : A) → Keeps P (rest x))
      → Keeps P (continue outcome rest)
  Keeps-continue (halt fault) rest k = record { at = λ _ kept. kept }
  Keeps-continue (ok x) rest k = k x

  pub Keeps-bind :
      (first : Exec S A) (rest : A → Exec S B)
      → Keeps P first
      → ((x : A) → Keeps P (rest x))
      → Keeps P (first >>= rest)
  unfolding ◌>>=◌
  Keeps-bind first rest k l = record {
    at = λ s kept. (Keeps-continue (first s).0 rest l).at (first s).1 (k.at s kept);
  }

-- The rest of the block may use that the check passed.
module _ {S B : Type 0} {P : S → Type 0} where
  pub Keeps-check-bind :
      (b : Bool) (e : Fault) (m : Exec S B) → (b ≡ true → Keeps P m) → Keeps P (check b e >> m)
  unfolding ◌>>=◌
  Keeps-check-bind true e m k = k refl
  Keeps-check-bind false e m k = record { at = λ s h. h }

module _ {S A : Type 0} {P : S → Type 0} where
  pub Keeps-for_each :
      (xs : List A) (f : A → Exec S Unit) → ((a : A) → Keeps P (f a)) → Keeps P (for_each xs f)
  unfolding for_each
  Keeps-for_each [] f k = Keeps-pure tt
  Keeps-for_each (x ∷ xs) f k = Keeps-bind (f x) _ (k x) (λ _. Keeps-for_each xs f k)

module _ {S A B : Type 0} {P : S → Type 0} where
  pub Keeps-collect :
      (xs : List A) (f : A → Exec S B) → ((a : A) → Keeps P (f a)) → Keeps P (collect xs f)
  unfolding collect
  Keeps-collect [] f k = Keeps-pure []
  Keeps-collect (x ∷ xs) f k =
      Keeps-bind (f x) _ (k x)
        λ y. Keeps-bind (collect xs f) _ (Keeps-collect xs f k) λ ys. Keeps-pure (y ∷ ys)

pub ruleset keeps_rules = (
  Keeps-check, Keeps-when, Keeps-pure, Keeps-gets, Keeps-require, Keeps-if, Keeps-bind,
  Keeps-for_each, Keeps-collect,
)
