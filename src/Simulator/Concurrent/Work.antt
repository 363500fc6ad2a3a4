-- ===== src/Simulator/Concurrent/Work.antt =====
-- The work that is left: every move lowers it.
use fabric_simulator.Prelude.{
  ℕ, ◌+◌, ◌-◌, ◌*◌, ◌≤◌, ◌<◌, ap, Bool-cases, List, [], ◌∷◌, ◌++◌, length, arith, if◌then◌else◌,
}
use fabric_simulator.Platform.{Platform, Bytes}
use fabric_simulator.Params.{SystemParameters}
use fabric_simulator.Simulator.User.Endorsers.{length-select_endorsers}
use fabric_simulator.Simulator.Concurrent.{
  Phase, unstarted, asking, awaiting, idle, proposing, collecting, submitting, confirming, Client,
  Job, holds_proposal, endorses, holds_order, orders, start_order, holds_transaction, validates,
  holds_request, grants, State, in_all, Move, launch, start, propose, proposed, collect, collected,
  request, submit, confirm, complete, admit_proposal, endorse, deliver, ordered, admit_transaction,
  validate, admit_request, grant, Step, moves, Steps, here, then_step,
}
use fabric_simulator.Simulator.Concurrent.Accounts.Moves.{length-peers_from}
use fabric_simulator.Simulator.Sums.{sum_of, sum_of-append, sum_of-middle, total, total-update}
use fabric_simulator.Simulator.Concurrent.Threads.{threads_of, in_all-threads_of}

abbrev pub job_work : Job → ℕ
job_work (holds_proposal q) = 2
job_work (endorses q) = 1
job_work (holds_order q qs) = 2 + length qs * 3
job_work (orders qs) = 1 + length qs * 3
job_work (holds_transaction q) = 2
job_work (validates q) = 1
job_work holds_request = 2
job_work grants = 1

module _ {c : Platform} (p : SystemParameters c) where
  abbrev pub phase_work : Phase → ℕ
  phase_work unstarted = 5
  phase_work (asking b) = if b then 4 else 4 * p.peers + 8
  phase_work (awaiting b) = if b then 1 else 4 * p.peers + 5
  phase_work idle = 0
  phase_work (proposing es) = length es * 3 + p.endorsements + 4 * p.peers + 10
  phase_work (collecting i) = p.endorsements - i + 4 * p.peers + 9
  phase_work submitting = 4 * p.peers + 4
  phase_work (confirming i) = p.peers - i + 1

  unfoldable pub todo_work : List Bytes → ℕ
  todo_work [] = 0
  todo_work (m ∷ ms) = 4 * p.endorsements + 4 * p.peers + 11 + todo_work ms

  abbrev pub user_work : Client → ℕ
  user_work k = phase_work k.phase + todo_work k.todo

  Move-less :
      {s : State} {u : ℕ} {gone new : List Job} {k : Client}
      → Move p s u gone k new
      → user_work k + sum_of job_work new < user_work (s.users u) + sum_of job_work gone
  unfolding sum_of todo_work
  Move-less (launch ph turn) = ground (arith, ph, Bool-cases p.revoke)
  Move-less (start m rest first ph todo hash) =
      ground (arith, ph, todo, length-select_endorsers first p.peers p.endorsements)
  Move-less (propose r rs ph free) = ground (arith, ph)
  Move-less (proposed ph) = ground (arith, ph)
  Move-less (collect i k ph more full) = ground (arith, ph, more)
  Move-less (collected seen ph no_revoke) = ground (arith, ph, Bool-cases seen)
  Move-less (request b ph free) = ground (arith, ph, Bool-cases b)
  Move-less (submit orderer ph hash free) = ground (arith, ph, length-peers_from 0 p.peers)
  Move-less (confirm i k ph more full) = ground (arith, ph, more)
  Move-less (complete ph) = ground (arith, ph)
  Move-less (admit_proposal r room) = omega arith
  Move-less (endorse r room) = omega arith
  Move-less (start_order r rs) = omega arith
  Move-less (deliver r rs free) = omega arith
  Move-less ordered = omega arith
  Move-less (admit_transaction r room) = omega arith
  Move-less (validate r room) = omega arith
  Move-less (admit_request room) = omega arith
  Move-less (grant b ph) = ground (arith, ph, Bool-cases b)

  -- The work of `n` users and of all threads.
  abbrev pub work : ℕ → State → ℕ
  work n s = total user_work n s.users + in_all job_work s.threads

  pub Step-less : (n : ℕ) {s t : State} → Step p n s t → work n t < work n s
  unfolding threads_of
  Step-less n (moves s u before after gone new k l e move) = omega (
    arith,
    total-update user_work n s.users u k l,
    ap (in_all job_work) e,
    sum_of-middle (λ t. job_work t.1) before (threads_of u gone) after,
    sum_of-append (λ t. job_work t.1) (threads_of u new) (before ++ after),
    in_all-threads_of job_work u gone,
    in_all-threads_of job_work u new,
    Move-less move,
  )

  -- A run of `k` steps takes `k` off the work at least.
  pub Steps-work : (n : ℕ) {s t : State} {k : ℕ} → Steps p n s t k → work n t + k ≤ work n s
  Steps-work n (here s) = omega arith
  Steps-work n (then_step s t v k steps step) = omega (arith, Step-less n step, Steps-work n steps)
