-- ===== src/Simulator/Concurrent/Caps.antt =====
-- The messages that a loop holds and the permits that are taken, kept in bounds by each move.
use fabric_simulator.Prelude.{ℕ, ◌+◌, ◌≡◌, ◌≤◌, List, arith}
use fabric_simulator.Platform.{Platform}
use fabric_simulator.Params.{SystemParameters}
use fabric_simulator.Simulator.Concurrent.{
  Client, Job, State, held, endorsing, validating, held_request, granting, in_all, Move, launch,
  start, propose, proposed, collect, collected, request, submit, confirm, complete, admit_proposal,
  endorse, start_order, deliver, ordered, admit_transaction, validate, admit_request, grant,
}
use fabric_simulator.Simulator.Sums.{sum_of}

module _ {c : Platform} (p : SystemParameters c) where
  -- The bounds on the jobs at peer `q` and at the authority, by the counts of each.
  abbrev pub Capped : ℕ → ((Job → ℕ) → ℕ) → Type 0
  Capped q count =
      (count (held q) ≤ 1)
      × (count (endorsing q) ≤ p.concurrent_endorsements)
      × (count (validating q) ≤ p.concurrent_validations)
      × (count held_request ≤ 1)
      × (count granting ≤ p.concurrent_revocations)

  pub Capped-same :
      (q : ℕ) (f g : (Job → ℕ) → ℕ) → ((w : Job → ℕ) → f w ≡ g w) → Capped q f → Capped q g
  Capped-same q f g same h = (
    omega (arith, same (held q)),
    omega (arith, same (endorsing q)),
    omega (arith, same (validating q)),
    omega (arith, same held_request),
    omega (arith, same granting),
  )

  module _ {s : State} {u : ℕ} (q : ℕ) (x : (Job → ℕ) → ℕ) where
    pub Move-Capped :
        {gone new : List Job} {k : Client}
        → Move p s u gone k new
        → ((w : Job → ℕ) → in_all w s.threads ≡ sum_of w gone + x w)
        → Capped q (λ w. sum_of w gone + x w)
        → Capped q (λ w. sum_of w new + x w)
    unfolding sum_of
    Move-Capped (launch ph turn) e h = h
    Move-Capped (start m rest first ph todo hash) e h = h
    Move-Capped (propose r rs ph free) e h = ground (arith, e (held q), free)
    Move-Capped (proposed ph) e h = h
    Move-Capped (collect i k ph more full) e h = h
    Move-Capped (collected seen ph no_revoke) e h = h
    Move-Capped (request b ph free) e h = ground (arith, e held_request, free)
    Move-Capped (submit orderer ph hash free) e h = ground (arith, e (held q), free)
    Move-Capped (start_order r rs) e h = ground arith
    Move-Capped (confirm i k ph more full) e h = h
    Move-Capped (complete ph) e h = h
    Move-Capped (admit_proposal r room) e h = ground (arith, e (endorsing q), room)
    Move-Capped (endorse r room) e h = ground arith
    Move-Capped (deliver r rs free) e h = ground (arith, e (held q), free)
    Move-Capped ordered e h = h
    Move-Capped (admit_transaction r room) e h = ground (arith, e (validating q), room)
    Move-Capped (validate r room) e h = ground arith
    Move-Capped (admit_request room) e h = ground (arith, e granting, room)
    Move-Capped (grant b ph) e h = ground arith
