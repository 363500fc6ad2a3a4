-- ===== src/Simulator/Counter/Counts.antt =====
-- What the table of crypto events says after a recorded event.
use mathlib.Core.Logic.{ite}
use fabric_simulator.Prelude.{ℕ, ◌+◌, ◌≡◌, Option, none, some, [], ◌∷◌, arith}
use fabric_simulator.Simulator.Counter.{
  CryptoEvent, CryptoEvent-discrete, Counters, lookup, insert, bumped, record_crypto_event,
}

-- The number shown for an event: an absent key counts nothing.
abbrev pub shown : Option ℕ → ℕ
shown none = 0
shown (some n) = n

abbrev pub count : CryptoEvent → Counters → ℕ
count event m = shown (lookup event m)

-- What one recorded event adds to the count of another.
abbrev pub hit : CryptoEvent → CryptoEvent → ℕ
hit e event = ite (CryptoEvent-discrete e event) 1 0

lookup-insert :
    (e event : CryptoEvent) (v : ℕ) (m : Counters)
    → lookup event (insert e v m) ≡ ite (CryptoEvent-discrete e event) (some v) (lookup event m)
unfolding lookup insert
lookup-insert e event v [] = ground arith
lookup-insert e event v ((o, n) ∷ m) = ground (arith, lookup-insert e event v m)

-- Recording an event adds one to its own count and leaves every other count alone.
pub count-record_crypto_event :
    (e event : CryptoEvent) (m : Counters)
    → count event (record_crypto_event e m) ≡ count event m + hit e event
unfolding record_crypto_event
count-record_crypto_event e event m = ground (arith, lookup-insert e event (bumped (lookup e m)) m)
