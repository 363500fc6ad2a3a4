-- ===== src/Simulator/Counter.antt =====
-- simulator/counter.go: the table of crypto events and the list of transaction timings.
pub mod Counts
pub mod InFlight
use mathlib.Core.Logic.{ite}
use fabric_simulator.Prelude.{ℕ, ◌+◌, Option, none, some, List, [], ◌∷◌, ◌++◌}

pub data CryptoEvent : Type 0 where
  cred_delegation cred_prove cred_verify : CryptoEvent
  non_revoke_grant non_revoke_prove non_revoke_verify : CryptoEvent
  audit_encrypt audit_decrypt audit_prove audit_verify : CryptoEvent
  sha3hash sign_nym verify_nym sign_schnorr verify_schnorr : CryptoEvent

unfoldable pub CryptoEvent-discrete : Discrete CryptoEvent
CryptoEvent-discrete = hlevel

-- map[CryptoEvent]int
abbrev pub Counters : Type 0
Counters = List (CryptoEvent × ℕ)

unfoldable pub lookup : CryptoEvent → Counters → Option ℕ
lookup event [] = none
lookup event ((other, n) ∷ m) = ite (CryptoEvent-discrete other event) (some n) (lookup event m)

unfoldable pub insert : CryptoEvent → ℕ → Counters → Counters
insert event v [] = (event, v) ∷ []
insert event v ((other, n) ∷ m) =
    ite (CryptoEvent-discrete other event) ((event, v) ∷ m) ((other, n) ∷ insert event v m)

unfoldable pub bumped : Option ℕ → ℕ
bumped none = 1
bumped (some current) = current + 1

unfoldable pub record_crypto_event : CryptoEvent → Counters → Counters
unfolding bumped
record_crypto_event event m = insert event (bumped (lookup event m)) m

pub record TransactionTimingInfo : Type 0 where
  pub start : ℕ
  pub end : ℕ
  pub endorsements_start : ℕ
  pub endorsements_end : ℕ
  pub validation_start : ℕ
  pub validation_end : ℕ

unfoldable pub record_transaction_timing_info :
    TransactionTimingInfo → List TransactionTimingInfo → List TransactionTimingInfo
record_transaction_timing_info info timings = timings ++ info ∷ []
