-- ===== src/Simulator/Concurrent/Stop.antt =====
-- simulator/network.go: stop, which ends the loops of the peers and of the authority one after the
-- other, once the users are done; and with it a whole run of the goroutines.
use mathlib.Core.Path.{subst}
pub mod Ends
use mathlib.Core.List.{append_assoc}
use native.Mathlib.Decide.{dec_lt, ℕ_discrete}
use fabric_simulator.Prelude.{
  ℕ, zero, suc, ◌+◌, ◌-◌, ◌≡◌, sym, ◌≤◌, ◌<◌, ◌⊎◌, inl, inr, refl, ap, ◌∙◌, List, [], ◌∷◌, ◌++◌,
  length, arith,
}
use fabric_simulator.Platform.{Platform, Bytes}
use fabric_simulator.Helpers.Bounds.{All}
use fabric_simulator.Params.{SystemParameters}
use fabric_simulator.Simulator.Sums.{update, update_self, update-ne, sum_of}
use fabric_simulator.Simulator.Concurrent.{
  Phase, unstarted, asking, awaiting, idle, proposing, collecting, submitting, confirming, Client,
  Job, holds_proposal, endorses, holds_order, orders, holds_transaction, validates, holds_request,
  grants, State, at, held, held_request, in_all, Move, launch, start, propose, proposed, collect,
  collected, request, submit, confirm, complete, admit_proposal, endorse, start_order, deliver,
  ordered, admit_transaction, validate, admit_request, grant, Step, moves, at_start, Finished,
}
use fabric_simulator.Simulator.Concurrent.Threads.{of_user, All-middle}
use fabric_simulator.Simulator.Concurrent.Accounts.{
  endorsements_of, confirmations_of, handles_of, Within, at_phase,
}
use fabric_simulator.Simulator.Concurrent.Invariant.{Sound, InPlace, Step-Sound, start-Sound}
use fabric_simulator.Simulator.Concurrent.Handlers.{own_weight}
use fabric_simulator.Simulator.Concurrent.Work.{work, Step-less}
use fabric_simulator.Simulator.Concurrent.Progress.{not_stuck}

-- The goroutines, and how many loops have been told to end: the peers in turn, then the authority.
pub record Whole : Type 0 where
  pub state : State
  pub stopped : ℕ

-- MakeNetwork is done.
abbrev pub at_first : (ℕ → List Bytes) → Whole
at_first messages = record { state = at_start messages; stopped = 0 }

-- wgUser.Wait() has returned.
abbrev pub Waited : ℕ → State → Type 0
Waited n s = (u : ℕ) → u < n → ((s.users u).phase ≡ idle) × ((s.users u).todo ≡ [])

-- No loop holds a message, and no orderer has anything to send.
abbrev pub Quiet : State → Type 0
Quiet s = All (λ t. t.1 ≡ orders []) s.threads

module _ {c : Platform} (p : SystemParameters c) (n : ℕ) where
  -- exitChannel has no buffer: the loop must be at its select.
  pub data WholeStep : Whole → Whole → Type 0 where
    runs :
        (s t : State) (i : ℕ)
        → Step p n s t
        → WholeStep (record { state = s; stopped = i }) (record { state = t; stopped = i })
    stop_peer :
        (s : State) (i : ℕ)
        → Waited n s
        → i < p.peers
        → in_all (held i) s.threads ≡ 0
        → WholeStep (record { state = s; stopped = i }) (record { state = s; stopped = suc i })
    stop_authority :
        (s : State)
        → Waited n s
        → in_all held_request s.threads ≡ 0
        → WholeStep
            (record { state = s; stopped = p.peers })
            (record { state = s; stopped = suc p.peers })

  -- `WholeSteps w v k`: `k` turns lead from `w` to `v`.
  pub data WholeSteps : Whole → Whole → ℕ → Type 0 where
    here : (w : Whole) → WholeSteps w w 0
    then_whole : (w v x : Whole) (k : ℕ) → WholeSteps w v k → WholeStep v x → WholeSteps w x (suc k)

  -- A user that is done stays done, whatever moves.
  pub Move-done :
      {s : State} {u : ℕ} {gone new : List Job} {k : Client}
      → Move p s u gone k new
      → ((s.users u).phase ≡ idle) × ((s.users u).todo ≡ [])
      → (k.phase ≡ idle) × (k.todo ≡ [])
  Move-done (launch ph turn) h = ground (arith, ph, h)
  Move-done (start m rest first ph todo hash) h = ground (arith, todo, h)
  Move-done (propose q qs ph free) h = ground (arith, ph, h)
  Move-done (proposed ph) h = ground (arith, ph, h)
  Move-done (collect i m ph more full) h = ground (arith, ph, h)
  Move-done (collected seen ph no_revoke) h = ground (arith, ph, h)
  Move-done (request b ph free) h = ground (arith, ph, h)
  Move-done (submit orderer ph hash free) h = ground (arith, ph, h)
  Move-done (confirm i m ph more full) h = ground (arith, ph, h)
  Move-done (complete ph) h = (refl, h.1)
  Move-done (admit_proposal q room) h = h
  Move-done (endorse q room) h = h
  Move-done (start_order q qs) h = h
  Move-done (deliver q qs free) h = h
  Move-done ordered h = h
  Move-done (admit_transaction q room) h = h
  Move-done (validate q room) h = h
  Move-done (admit_request room) h = h
  Move-done (grant b ph) h = ground (arith, ph, h)

  module _ (messages : ℕ → List Bytes) (some_peer : 0 < p.peers) where
    -- A job that brings its user nothing.
    quiet_job :
        (j : Job)
        → Within p j
        → endorsements_of j ≡ 0
        → confirmations_of j ≡ 0
        → handles_of j ≡ 0
        → j ≡ orders []
    quiet_job (orders []) w e v g = refl
    quiet_job (orders (q ∷ qs)) w e v g = absurd (omega arith)
    quiet_job (holds_order q qs) w e v g = absurd (omega (arith, w.2))
    quiet_job j w e v g = absurd (omega arith)

    module _ (s : State) (sound : Sound p messages n s) (waited : Waited n s) where
      quiet_from :
          (before after : List (ℕ × Job))
          → s.threads ≡ before ++ after
          → All (λ t. t.1 ≡ orders []) after
      quiet_from before [] e = tt
      quiet_from before (t ∷ after) e =
          let (user, within) =
            (All-middle (InPlace p messages n) before (t ∷ []) after
              (subst (All (InPlace p messages n)) e sound.in_place)).0.0 in
          let a = at_phase p idle (sound.users t.0) (waited t.0 user).0 in
          let weight = own_weight p messages n s sound before after t.0 t.1 e in
          (
            quiet_job t.1 within (omega (arith, weight endorsements_of, a.endorsements))
                (omega (arith, weight confirmations_of, a.confirmations))
                (omega (arith, weight handles_of, a.handles)),
            quiet_from (before ++ t ∷ []) after (e ∙ sym (append_assoc before (t ∷ []) after)),
          )

      pub state-Quiet : Quiet s
      state-Quiet = quiet_from [] s.threads refl

    pub quiet_weight :
        (w : Job → ℕ) (threads : List (ℕ × Job))
        → w (orders []) ≡ 0
        → All (λ t. t.1 ≡ orders []) threads
        → in_all w threads ≡ 0
    unfolding sum_of
    quiet_weight w [] zero_weight h = refl
    quiet_weight w (t ∷ threads) zero_weight h =
        omega (arith, ap w h.0, quiet_weight w threads zero_weight h.1)
