-- ===== src/Simulator/Costs.antt =====
-- How many crypto events a block of the simulator's code records when it returns.
pub mod Handlers
pub mod Transaction
use fabric_simulator.Prelude.{
  ℕ, zero, suc, ◌+◌, ◌*◌, ◌≡◌, refl, ap, Bool, true, false, Option, none, some, List, [], ◌∷◌,
  length, arith, if◌then◌else◌,
}
use fabric_simulator.Platform.{Platform}
use fabric_simulator.Exec.{
  Fault, Outcome, ok, halt, Exec, pure, gets, modify, check, require, when, continue, ◌>>=◌, ◌>>◌,
  for_each, collect,
}
use fabric_simulator.Params.{SystemParameters}
use fabric_simulator.Simulator.Counter.{CryptoEvent}
use fabric_simulator.Simulator.Counter.Counts.{count, hit, count-record_crypto_event}
use fabric_simulator.Simulator.Types.{Party, ObjectName, World}
use fabric_simulator.Simulator.Env.{now, sleep, fresh_rand, event}
use fabric_simulator.Simulator.Bandwidth.{record_bandwidth}

module _ {c : Platform} (e : CryptoEvent) where
  abbrev pub seen : World c → ℕ
  seen w = count e w.crypto_events

  -- When `m` returns, it has recorded the event `n` times.
  pub record Costs {A : Type 0} (n : ℕ) (m : Exec (World c) A) : Type 0 where
    pub at : (w : World c) (a : A) → (m w).0 ≡ ok a → seen (m w).1 ≡ seen w + n

  module _ {A : Type 0} where
    pub Costs-eq : {n k : ℕ} {m : Exec (World c) A} → n ≡ k → Costs n m → Costs k m
    Costs-eq q h = record { at = λ w a r. omega (arith, h.at w a r) }

    pub Costs-pure : (a : A) → Costs 0 (pure a)
    unfolding pure
    Costs-pure a = record { at = λ w b r. omega arith }

    pub Costs-gets : (f : World c → A) → Costs 0 (gets f)
    unfolding gets
    Costs-gets f = record { at = λ w b r. omega arith }

    pub Costs-require : (f : Fault) (o : Option A) → Costs 0 (require f o)
    unfolding require
    Costs-require f none = record { at = λ w b r. omega arith }
    Costs-require f (some a) = record { at = λ w b r. omega arith }

    pub Costs-if :
        (b : Bool) {n k : ℕ} {m l : Exec (World c) A}
        → Costs n m
        → Costs k l
        → Costs (if b then n else k) (if b then m else l)
    Costs-if true h g = h
    Costs-if false h g = g

  pub Costs-check : (b : Bool) (f : Fault) → Costs 0 (check b f)
  unfolding check
  Costs-check true f = record { at = λ w b r. omega arith }
  Costs-check false f = record { at = λ w b r. omega arith }

  pub Costs-modify :
      (f : World c → World c)
      → ((w : World c) → (f w).crypto_events ≡ w.crypto_events)
      → Costs 0 (modify f)
  unfolding modify
  Costs-modify f same = record { at = λ w a r. omega (arith, ap (count e) (same w)) }

  pub Costs-when :
      (b : Bool) {n : ℕ} {m : Exec (World c) Unit}
      → Costs n m
      → Costs (if b then n else 0) (when b m)
  unfolding when
  Costs-when true h = record { at = h.at }
  Costs-when false h = record { at = λ w b r. omega arith }

  pub Costs-event : (x : CryptoEvent) → Costs (hit x e) (event c x)
  unfolding event ◌>>=◌
  Costs-event x = record { at = λ w a r. count-record_crypto_event x e w.crypto_events }

  pub Costs-now : Costs 0 (now c)
  unfolding now
  Costs-now = record { at = λ w a r. omega arith }

  pub Costs-sleep : (n : ℕ) → Costs 0 (sleep c n)
  unfolding sleep ◌>>=◌
  Costs-sleep n = record { at = λ w a r. omega arith }

  pub Costs-fresh_rand : Costs 0 (fresh_rand c)
  unfolding fresh_rand now ◌>>=◌
  Costs-fresh_rand = record { at = λ w a r. omega arith }

  pub Costs-record_bandwidth :
      (p : SystemParameters c) (from to : Party) (object : ObjectName) (size : ℕ)
      → Costs 0 (record_bandwidth p from to object size)
  unfolding record_bandwidth now sleep ◌>>=◌
  Costs-record_bandwidth p from to object size = record { at = λ w a r. omega arith }

  module _ {A B : Type 0} where
    continue-Costs :
        (r : Outcome A × World c) (f : A → Exec (World c) B) (before n : ℕ) {k : ℕ}
        → ((a : A) → r.0 ≡ ok a → seen r.1 ≡ before + n)
        → ((a : A) → r.0 ≡ ok a → Costs k (f a))
        → (b : B) → (continue r.0 f r.1).0 ≡ ok b
        → seen (continue r.0 f r.1).1 ≡ before + (n + k)
    continue-Costs (ok a, w) f before n h g b q = omega (arith, h a refl, (g a refl).at w b q)
    continue-Costs (halt x, w) f before n h g b q = cc

    -- The rest may use what the first part returned.
    pub Costs-bind_of :
        (m : Exec (World c) A) (f : A → Exec (World c) B) {n k : ℕ}
        → Costs n m
        → ((w : World c) (a : A) → (m w).0 ≡ ok a → Costs k (f a))
        → Costs (n + k) (m >>= f)
    unfolding ◌>>=◌
    Costs-bind_of m f {n} h g = record {
      at = λ w b q. continue-Costs (m w) f (seen w) n (h.at w) (g w) b q;
    }

    pub Costs-bind :
        {m : Exec (World c) A} {f : A → Exec (World c) B} {n k : ℕ}
        → Costs n m
        → ((a : A) → Costs k (f a))
        → Costs (n + k) (m >>= f)
    Costs-bind {m} {f} h g = Costs-bind_of m f h (λ w a _. g a)

  module _ {A : Type 0} where
    pub Costs-for_each :
        (xs : List A) (f : A → Exec (World c) Unit) (n : ℕ)
        → ((a : A) → Costs n (f a))
        → Costs (length xs * n) (for_each xs f)
    unfolding for_each
    Costs-for_each [] f n h = Costs-eq (omega arith) (Costs-pure tt)
    Costs-for_each (x ∷ xs) f n h =
        Costs-eq (grind arith) (Costs-bind (h x) (λ _. Costs-for_each xs f n h))

  module _ {A B : Type 0} where
    pub Costs-collect :
        (xs : List A) (f : A → Exec (World c) B) (n : ℕ)
        → ((a : A) → Costs n (f a))
        → Costs (length xs * n) (collect xs f)
    unfolding collect
    Costs-collect [] f n h = Costs-eq (omega arith) (Costs-pure [])
    Costs-collect (x ∷ xs) f n h =
        Costs-eq (grind arith)
          (Costs-bind (h x) λ y. Costs-bind (Costs-collect xs f n h) λ ys. Costs-pure (y ∷ ys))
