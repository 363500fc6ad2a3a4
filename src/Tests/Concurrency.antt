-- ===== src/Tests/Concurrency.antt =====
-- Runs of the goroutines of simulator/ on concrete users and transfers.
use fabric_simulator.Prelude.{
  ℕ, suc, ◌+◌, true, ◌*◌, ◌≡◌, ◌≤◌, ◌<◌, refl, ◌⊎◌, inl, List, [], ◌∷◌, ◌++◌, map, arith,
}
use native.Mathlib.Decide.{ℕ_discrete}
use fabric_simulator.Platform.{Bytes}
use fabric_simulator.Helpers.{sha3, peer_by_hash, of_big_endian}
use fabric_simulator.Simulator.User.{select_endorsers, endorsers_from}
use fabric_simulator.Revocation.Requests.Times.{times}
use fabric_simulator.Simulator.Sums.{update, sum_of, total}
use fabric_simulator.Simulator.Types.{Party, Party-discrete}
use fabric_simulator.Simulator.Concurrent.{
  State, Client, Job, Move, launch, start, propose, request, admit_request, grant, moves, Steps,
  here, then_step, at_start, Finished, holds_request, grants, holds_proposal,
}
use fabric_simulator.Simulator.Concurrent.Invariant.{Sound, reached-Sound}
use fabric_simulator.Simulator.Concurrent.Work.{work}
use fabric_simulator.Simulator.Concurrent.Stop.{
  Whole, Quiet, WholeStep, WholeSteps, runs, then_whole, at_first,
}
use fabric_simulator.Simulator.Concurrent.Stop
use fabric_simulator.Simulator.Concurrent.Stop.Ends.{simulation_ends}
use fabric_simulator.Simulator.Bandwidth.InFlight.{
  Transfers, Progress, logged, find_from, find_to, lock_from, lock_global, no_transfers,
}
use fabric_simulator.Simulator.Bandwidth.{Connections, get_lock, find_lock}
use fabric_simulator.Simulator.Bandwidth.InFlight
use fabric_simulator.Simulator.Bandwidth.InFlight.Locks.{NumberedFrom}
use fabric_simulator.Simulator.Bandwidth.InFlight.Invariant.{
  sleeping_at, sleeping_global, one_at_a_time,
}
use fabric_simulator.Simulator.Bandwidth.InFlight.Ends.{transfers_end}
use fabric_simulator.Simulator.Counter.{CryptoEvent, sha3hash, Counters, lookup}
use fabric_simulator.Simulator.Counter.Counts.{count, hit}
use fabric_simulator.Simulator.Counter.InFlight.{Call, Recording, begun}
use fabric_simulator.Simulator.Counter.InFlight as Counter
use fabric_simulator.Simulator.Counter.InFlight.Ends.{recordings_end}
use fabric_simulator.Tests.Toy.{parameters}

abbrev messages : ℕ → List Bytes
messages u = (1 ∷ u ∷ []) ∷ []

abbrev Run : Type 0
Run = (s : State) × (k : ℕ) × Steps parameters 2 (at_start messages) s k

abbrev on :
    (r : Run) (gone new : List Job) {k : Client}
    → r.0.threads ≡ map (λ j. (0, j)) gone ++ []
    → Move parameters r.0 0 gone k new
    → Run
on r gone new e move =
    (_, suc r.1, then_step _ _ _ r.1 r.2 (moves r.0 0 [] [] gone new _ (omega arith) e move))

abbrev launched_first : Run
unfolding update sum_of
launched_first = on (at_start messages, 0, here _) [] [] refl (launch refl (inl refl))

abbrev asked : Run
unfolding update sum_of
asked = on launched_first [] (holds_request ∷ []) refl (request true refl refl)

abbrev admitted : Run
unfolding update sum_of
admitted = on asked (holds_request ∷ []) (grants ∷ []) refl (admit_request (omega arith))

abbrev granted : Run
unfolding update sum_of
granted = on admitted (grants ∷ []) [] refl (grant true refl)

abbrev started : Run
unfolding update sum_of peer_by_hash sha3 of_big_endian select_endorsers endorsers_from
started = on granted [] [] refl (start (1 ∷ 0 ∷ []) [] _ refl refl refl)

-- The first user has its first handle and has sent its proposal to the first of its endorsers.
abbrev proposed_once : Run
unfolding update sum_of peer_by_hash sha3 of_big_endian select_endorsers endorsers_from
proposed_once = on started [] (holds_proposal 0 ∷ []) refl (propose _ _ refl refl)

reached-Sound_example : Sound parameters messages 2 proposed_once.0
reached-Sound_example =
    reached-Sound parameters messages 2 (omega arith) {s = proposed_once.0} {k = proposed_once.1}
      proposed_once.2

as_turns :
    {s : State} {k : ℕ}
    → Steps parameters 2 (at_start messages) s k
    → WholeSteps parameters 2 (at_first messages) (record { state = s; stopped = 0 }) k
as_turns (here s) = Stop.here _
as_turns (then_step s t v k steps step) = then_whole _ _ _ k (as_turns steps) (runs t v 0 step)

simulation_ends_example :
    (proposed_once.1 ≤ work parameters 2 (at_start messages) + suc parameters.peers)
    × (0 < 0 → Quiet proposed_once.0)
    × ((Finished messages 2 proposed_once.0 × (0 ≡ suc parameters.peers))
        ⊎ ((v : Whole) × WholeStep parameters 2
              (record { state = proposed_once.0; stopped = 0 })
              v))
simulation_ends_example =
    simulation_ends parameters 2 messages (omega arith) (omega arith) (omega arith) (omega arith)
      {w = record { state = proposed_once.0; stopped = 0 }} {k = proposed_once.1}
      (as_turns proposed_once.2)

-- Two transfers between the same parties; the first has the mutexes of its first end and the network.
abbrev ends : ℕ → Party × Party
ends i = (Party.user 0, Party.peer 1)

abbrev TransferRun : Type 0
TransferRun = (s : Transfers) × (k : ℕ) × InFlight.Steps ends 2 no_transfers s k

abbrev move_on :
    (r : TransferRun) (i : ℕ) {k : Progress} {m : Connections} {log : List (ℕ × ℕ)} {id : ℕ}
    → i < 2
    → InFlight.Move ends 2 r.0 i k m log id
    → TransferRun
move_on r i l move =
    (_, suc r.1, InFlight.then_step _ _ _ r.1 r.2 (InFlight.moves r.0 i _ _ _ _ l move))

abbrev both_begun : TransferRun
unfolding update total get_lock find_lock
both_begun =
    move_on (move_on (no_transfers, 0, InFlight.here _) 0 (omega arith) (find_from refl)) 1
      (omega arith) (find_from refl)

abbrev locked : TransferRun
unfolding update total get_lock find_lock Party-discrete ℕ_discrete
locked =
    move_on
      (move_on (move_on both_begun 0 (omega arith) (find_to _ refl)) 0 (omega arith)
        (lock_from _ _ _ _ refl refl))
      0 (omega arith) (lock_global _ _ _ _ refl refl)

one_at_a_time_example :
    ((x : Party) → total (λ c. c) 2 (λ i. sleeping_at x (ends i) (locked.0.calls i)) ≤ 1)
    × (total sleeping_global 2 locked.0.calls ≤ 1)
one_at_a_time_example = one_at_a_time ends 2 {s = locked.0} {k = locked.1} locked.2

transfers_end_example :
    NumberedFrom 1 locked.0.log
    × ((locked.1 ≡ 2 * 9)
          × ((i : ℕ)
              → i < 2
              → (locked.0.calls i ≡ logged) × (times i (map (λ e. e.0) locked.0.log) ≡ 1))
        ⊎ (locked.1 < 2 * 9) × ((t : Transfers) × InFlight.Step ends 2 locked.0 t))
transfers_end_example = transfers_end ends 2 {s = locked.0} {k = locked.1} locked.2

-- two calls record the same event; the second gets the mutex first

abbrev events : ℕ → CryptoEvent
events i = sha3hash

abbrev Recorded : Type 0
Recorded = (s : Recording) × (k : ℕ) × Counter.Steps 2 (begun events []) s k

abbrev then_call :
    (r : Recorded) (call : Call) (table : Counters) → Counter.Move 2 r.0 1 call table → Recorded
then_call r call table move = (
  _,
  suc r.1,
  Counter.then_step _ _ _ r.1 r.2 (Counter.moves r.0 1 call table (omega arith) move),
)

abbrev second_locked : Recorded
unfolding update total
second_locked = then_call (begun events [], 0, Counter.here _) _ _ (Counter.lock sha3hash refl refl)

abbrev second_looked : Recorded
unfolding update total lookup
second_looked = then_call second_locked _ _ (Counter.look sha3hash refl)

abbrev second_stored : Recorded
unfolding update total lookup
second_stored = then_call second_looked _ _ (Counter.store sha3hash (lookup sha3hash []) refl)

recordings_end_example :
    (3 ≤ 4 * 2)
    × (((t : Recording) × Counter.Step 2 second_stored.0 t)
        ⊎ ((◌≡◌ {A = ℕ} 3 (4 * 2))
            × ((event : CryptoEvent)
                → count event second_stored.0.table
                  ≡ count event [] + total (λ x. hit x event) 2 events)))
unfolding second_stored
recordings_end_example = recordings_end 2 events [] second_stored.0 3 second_stored.2
