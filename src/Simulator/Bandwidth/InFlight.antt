-- ===== src/Simulator/Bandwidth/InFlight.antt =====
-- simulator/bandwidth.go: transfers that are in flight together. Each has three goroutines that sleep
-- under the mutexes of its two ends and of the whole network, and waits for all three.
pub mod Apart
pub mod Locks
pub mod Invariant
pub mod Ends
use fabric_simulator.Prelude.{
  ℕ, zero, suc, ◌+◌, ◌*◌, ◌%◌, ◌^◌, ◌≡◌, ◌<◌, List, [], ◌∷◌, ◌++◌, ◌==◌, if◌then◌else◌,
}
use fabric_simulator.Simulator.Types.{Party}
use fabric_simulator.Simulator.Bandwidth.{Connections, get_lock}
use fabric_simulator.Simulator.Sums.{update, total}

-- spinWait: before Lock, under the mutex, after Unlock.
pub data Stage : Type 0 where
  waits : Stage
  sleeps : Stage
  over : Stage

-- A call of recordBandwidth: with no lock, with that of its first end, with its three goroutines, and
-- with its event in the log.
pub data Progress : Type 0 where
  fresh : Progress
  found : ℕ → Progress
  flying : (from_lock to_lock : ℕ) → (from to global : Stage) → Progress
  logged : Progress

-- The calls, the map of mutexes, and the log: which call wrote, and the number of the event.
pub record Transfers : Type 0 where
  pub calls : ℕ → Progress
  pub connections : Connections
  pub log : List (ℕ × ℕ)
  pub next_id : ℕ

abbrev pub sleeping : Stage → ℕ
sleeping sleeps = 1
sleeping _ = 0

-- How many goroutines of a call hold a mutex: 0 is that of the network, `suc lock` that of an end.
abbrev pub holders : ℕ → Progress → ℕ
holders mutex (flying a b x y z) =
    (if suc a == mutex then sleeping x else 0)
    + (if suc b == mutex then sleeping y else 0)
    + (if 0 == mutex then sleeping z else 0)
holders mutex _ = 0

-- `n` calls, of which call `i` goes from `(ends i).0` to `(ends i).1`.
module _ (ends : ℕ → Party × Party) (n : ℕ) where
  -- One step of call `i`: its progress, the map, the log and the counter after it.
  pub data Move (s : Transfers) (i : ℕ) : Progress → Connections → List (ℕ × ℕ) → ℕ → Type 0 where
    find_from :
        s.calls i ≡ fresh
        → Move s i
            (found (get_lock (ends i).0 s.connections).0)
            (get_lock (ends i).0 s.connections).1
            s.log
            s.next_id
    find_to :
        (a : ℕ)
        → s.calls i ≡ found a
        → Move s i
            (flying a (get_lock (ends i).1 s.connections).0 waits waits waits)
            (get_lock (ends i).1 s.connections).1
            s.log
            s.next_id
    lock_from :
        (a b : ℕ) (y z : Stage)
        → s.calls i ≡ flying a b waits y z
        → total (holders (suc a)) n s.calls ≡ 0
        → Move s i (flying a b sleeps y z) s.connections s.log s.next_id
    lock_to :
        (a b : ℕ) (x z : Stage)
        → s.calls i ≡ flying a b x waits z
        → total (holders (suc b)) n s.calls ≡ 0
        → Move s i (flying a b x sleeps z) s.connections s.log s.next_id
    lock_global :
        (a b : ℕ) (x y : Stage)
        → s.calls i ≡ flying a b x y waits
        → total (holders 0) n s.calls ≡ 0
        → Move s i (flying a b x y sleeps) s.connections s.log s.next_id
    unlock_from :
        (a b : ℕ) (y z : Stage)
        → s.calls i ≡ flying a b sleeps y z
        → Move s i (flying a b over y z) s.connections s.log s.next_id
    unlock_to :
        (a b : ℕ) (x z : Stage)
        → s.calls i ≡ flying a b x sleeps z
        → Move s i (flying a b x over z) s.connections s.log s.next_id
    unlock_global :
        (a b : ℕ) (x y : Stage)
        → s.calls i ≡ flying a b x y sleeps
        → Move s i (flying a b x y over) s.connections s.log s.next_id
    -- wg.Wait() has returned; the event is written under bandwidthLoggingLock.
    write :
        (a b : ℕ)
        → s.calls i ≡ flying a b over over over
        → Move s i logged s.connections (s.log ++ (i, s.next_id) ∷ []) ((s.next_id + 1) % 2 ^ 64)

  pub data Step : Transfers → Transfers → Type 0 where
    moves :
        (s : Transfers) (i : ℕ) (k : Progress) (m : Connections) (log : List (ℕ × ℕ)) (id : ℕ)
        → i < n
        → Move s i k m log id
        → Step s (record { calls = update s.calls i k; connections = m; log = log; next_id = id })

  -- `Steps s t k`: `k` steps lead from `s` to `t`.
  pub data Steps : Transfers → Transfers → ℕ → Type 0 where
    here : (s : Transfers) → Steps s s 0
    then_step : (s t v : Transfers) (k : ℕ) → Steps s t k → Step t v → Steps s v (suc k)

-- No call has begun, and nothing is logged.
abbrev pub no_transfers : Transfers
no_transfers = record { calls = λ i. fresh; connections = []; log = []; next_id = 1 }
