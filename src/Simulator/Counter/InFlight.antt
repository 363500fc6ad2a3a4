-- ===== src/Simulator/Counter/InFlight.antt =====
-- simulator/counter.go: calls of recordCryptoEvent that are in flight together. Each locks the mutex of
-- the table, looks its event up, stores the next number, and unlocks; any call may be next.
pub mod Ends
use fabric_simulator.Prelude.{ℕ, zero, suc, ◌≡◌, ◌<◌, Option}
use fabric_simulator.Simulator.Counter.{CryptoEvent, Counters, lookup, insert, bumped}
use fabric_simulator.Simulator.Sums.{update, total}

-- A call with its event: before Lock, under the mutex, with what it found, with its number stored,
-- and after Unlock.
pub data Call : Type 0 where
  waits : CryptoEvent → Call
  locked : CryptoEvent → Call
  looked : CryptoEvent → Option ℕ → Call
  stored : CryptoEvent → Call
  over : CryptoEvent → Call

pub record Recording : Type 0 where
  pub calls : ℕ → Call
  pub table : Counters

-- 1 for a call that holds the mutex.
abbrev pub holding : Call → ℕ
holding (waits e) = 0
holding (locked e) = 1
holding (looked e found) = 1
holding (stored e) = 1
holding (over e) = 0

module _ (n : ℕ) where
  -- One step of call `i` of `n`: the call and the table after it.
  pub data Move (s : Recording) (i : ℕ) : Call → Counters → Type 0 where
    lock :
        (e : CryptoEvent)
        → s.calls i ≡ waits e
        → total holding n s.calls ≡ 0
        → Move s i (locked e) s.table
    look : (e : CryptoEvent) → s.calls i ≡ locked e → Move s i (looked e (lookup e s.table)) s.table
    store :
        (e : CryptoEvent) (found : Option ℕ)
        → s.calls i ≡ looked e found
        → Move s i (stored e) (insert e (bumped found) s.table)
    unlock : (e : CryptoEvent) → s.calls i ≡ stored e → Move s i (over e) s.table

  pub data Step : Recording → Recording → Type 0 where
    moves :
        (s : Recording) (i : ℕ) (call : Call) (table : Counters)
        → i < n
        → Move s i call table
        → Step s (record { calls = update s.calls i call; table = table })

  -- `Steps s t k`: `k` steps lead from `s` to `t`.
  pub data Steps : Recording → Recording → ℕ → Type 0 where
    here : (s : Recording) → Steps s s 0
    then_step : (s t v : Recording) (k : ℕ) → Steps s t k → Step t v → Steps s v (suc k)

-- Call `i` is about to record the event `events i`.
abbrev pub begun : (ℕ → CryptoEvent) → Counters → Recording
begun events table = record { calls = λ i. waits (events i); table = table }
