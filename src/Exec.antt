-- ===== src/Exec.antt =====
-- Code that changes a state and may end the process. A Go `panic` that nobody recovers, and
-- logger.Fatal, end it with a `Fault`; what was written before stays written. Waiting for a permit that
-- never comes is a `Fault` too: what follows is not reached.
pub mod Ensures
pub mod Keeps
pub mod Returns
use fabric_simulator.Prelude.{
  ℕ, ltb, ◌≡◌, refl, Bool, true, false, Option, none, some, List, [], ◌∷◌,
}

pub data Fault : Type 0 where
  bad_nym_signature too_few_endorsements bad_endorsement bad_identity : Fault
  bad_audit_proof bad_non_revocation_proof audit_failed : Fault
  bad_cred_request no_delegation bad_credentials no_proof bad_handle : Fault
  index_out_of_range nil_dereference division_by_zero : Fault
  no_permit no_connection call_failed validation_failed not_running bad_point bad_verbosity : Fault

pub data Outcome {ℓ} (A : Type ℓ) : Type ℓ where
  ok : A → Outcome A
  halt : Fault → Outcome A

abbrev pub Exec {ℓ} : Type ℓ → Type ℓ → Type ℓ
Exec S A = S → Outcome A × S

module _ {ℓ} {S A : Type ℓ} where
  unfoldable pub pure : A → Exec S A
  pure a s = (ok a, s)

  unfoldable pub fail : Fault → Exec S A
  fail f s = (halt f, s)

  unfoldable pub gets : (S → A) → Exec S A
  gets f s = (ok (f s), s)

  -- A missing value is the given fault.
  unfoldable pub require : Fault → Option A → Exec S A
  require f none s = (halt f, s)
  require f (some a) s = (ok a, s)

module _ {S : Type 0} where
  unfoldable pub modify : (S → S) → Exec S (Unit {0})
  modify f s = (ok tt, f s)

  -- `if e := check; e != nil { panic(e) }`
  unfoldable pub check : Bool → Fault → Exec S (Unit {0})
  check true f s = (ok tt, s)
  check false f s = (halt f, s)

  -- `semaphore.Acquire(ctx, 1)` where every handler runs to its end, and gives its permit back, before
  -- the next message is taken: with a limit of 0 it waits for ever, which is the outcome `no_permit`.
  abbrev pub acquire : ℕ → Exec S (Unit {0})
  acquire limit = check (ltb 0 limit) no_permit

  -- `if b { m }`
  unfoldable pub when : Bool → Exec S (Unit {0}) → Exec S (Unit {0})
  when true m s = m s
  when false m s = (ok tt, s)

module _ {ℓ} {S A B : Type ℓ} where
  abbrev pub continue : Outcome A → (A → Exec S B) → Exec S B
  continue (ok a) f s = f a s
  continue (halt e) f s = (halt e, s)

  infixl 10 ◌>>=◌ ◌>>◌
  -- To open this is to open all the blocks above.
  unfoldable pub ◌>>=◌ : Exec S A → (A → Exec S B) → Exec S B
  unfolding pure fail gets require modify check when
  ◌>>=◌ m f s = continue (m s).0 f (m s).1

  abbrev pub ◌>>◌ : Exec S A → Exec S B → Exec S B
  m >> n = m >>= λ _. n

module _ {ℓ} {S A B : Type ℓ} where
  continue-eq-ok :
      (r : Outcome A × S) (f : A → Exec S B) {b : B} {s'' : S}
      → continue r.0 f r.1 ≡ (ok b, s'')
      → (a : A) × (s' : S) × (r ≡ (ok a, s')) × (f a s' ≡ (ok b, s''))
  continue-eq-ok (ok a, s') f h = (a, s', refl, h)
  continue-eq-ok (halt e, s') f h = cc

  -- Inversion of a block that returned.
  pub >>=-eq-ok :
      (m : Exec S A) (f : A → Exec S B) (s : S) {b : B} {s'' : S}
      → (m >>= f) s ≡ (ok b, s'')
      → (a : A) × (s' : S) × (m s ≡ (ok a, s')) × (f a s' ≡ (ok b, s''))
  unfolding ◌>>=◌
  >>=-eq-ok m f s h = continue-eq-ok (m s) f h

module _ {ℓ} {S : Type 0} {A : Type ℓ} where
  -- `for _, x := range xs { f(x) }`
  unfoldable pub for_each : List A → (A → Exec S (Unit {0})) → Exec S (Unit {0})
  for_each [] f = pure tt
  for_each (x ∷ xs) f = f x >> for_each xs f

module _ {S A B : Type 0} where
  -- the results of a loop, in order
  unfoldable pub collect : List A → (A → Exec S B) → Exec S (List B)
  collect [] f = pure []
  collect (x ∷ xs) f = do y ← f x; ys ← collect xs f; pure (y ∷ ys)
