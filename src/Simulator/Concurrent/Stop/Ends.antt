-- ===== src/Simulator/Concurrent/Stop/Ends.antt =====
-- A whole run ends, and stops no loop too early.
use mathlib.Core.Path.{subst}
use native.Mathlib.Decide.{dec_lt, ℕ_discrete}
use fabric_simulator.Prelude.{
  ℕ, suc, ◌+◌, ◌-◌, ◌≡◌, sym, ◌≤◌, ◌<◌, ◌⊎◌, inl, inr, refl, List, [], arith,
}
use fabric_simulator.Platform.{Platform, Bytes}
use fabric_simulator.Params.{SystemParameters}
use fabric_simulator.Simulator.Sums.{update, update_self, update-ne}
use fabric_simulator.Simulator.Concurrent.{
  idle, Client, State, held, held_request, Step, moves, at_start, Finished,
}
use fabric_simulator.Simulator.Concurrent.Invariant.{Sound, Step-Sound, start-Sound}
use fabric_simulator.Simulator.Concurrent.Work.{work, Step-less}
use fabric_simulator.Simulator.Concurrent.Progress.{not_stuck}
use fabric_simulator.Simulator.Concurrent.Stop.{
  Whole, Waited, Quiet, WholeStep, runs, stop_peer, stop_authority, WholeSteps, at_first, here,
  then_whole, Move-done, state-Quiet, quiet_weight,
}

module _ {c : Platform} (p : SystemParameters c) (n : ℕ) (messages : ℕ → List Bytes)
    (some_peer : 0 < p.peers) where
  -- What holds all along: the goroutines are sound, and nothing is stopped before the users are done.
  record Orderly (w : Whole) : Type 0 where
    sound : Sound p messages n w.state
    in_turn : (w.stopped ≡ 0) ⊎ Waited n w.state
    bounded : w.stopped ≤ suc p.peers

  Waited-Step : {s t : State} → Step p n s t → Waited n s → Waited n t
  Waited-Step (moves s u before after gone new k l e move) waited v lt = elim (ℕ_discrete u v) [
    | yes same ↦
        subst (λ w. DoneClient (update s.users u k w)) same
          (subst DoneClient (sym (update_self s.users u k)) (Move-done p n move (waited u l)))
    | no other ↦ subst DoneClient (sym (update-ne s.users u v k other)) (waited v lt)
  ]
    where
      DoneClient : Client → Type 0
      DoneClient x = (x.phase ≡ idle) × (x.todo ≡ [])

  WholeStep-Orderly : {w v : Whole} → WholeStep p n w v → Orderly w → Orderly v
  WholeStep-Orderly (runs s t i step) h = record {
    sound = Step-Sound p messages n some_peer step h.sound;
    in_turn = elim h.in_turn [ inl none ↦ inl none | inr waited ↦ inr (Waited-Step step waited) ];
    bounded = h.bounded;
  }
  WholeStep-Orderly (stop_peer s i waited more free) h = record {
    sound = h.sound;
    in_turn = inr waited;
    bounded = omega arith;
  }
  WholeStep-Orderly (stop_authority s waited free) h = record {
    sound = h.sound;
    in_turn = inr waited;
    bounded = omega arith;
  }

  WholeSteps-Orderly : {w : Whole} {k : ℕ} → WholeSteps p n (at_first messages) w k → Orderly w
  WholeSteps-Orderly (here w) = record {
    sound = start-Sound p messages n some_peer;
    in_turn = inl refl;
    bounded = omega arith;
  }
  WholeSteps-Orderly (then_whole w v x k turns turn) =
      WholeStep-Orderly turn (WholeSteps-Orderly turns)

  abbrev whole_work : Whole → ℕ
  whole_work w = work p n w.state + (suc p.peers - w.stopped)

  WholeStep-less : {w v : Whole} → WholeStep p n w v → whole_work v < whole_work w
  WholeStep-less (runs s t i step) = omega (arith, Step-less p n step)
  WholeStep-less (stop_peer s i waited more free) = omega arith
  WholeStep-less (stop_authority s waited free) = omega arith

  WholeSteps-work : {w v : Whole} {k : ℕ} → WholeSteps p n w v k → whole_work v + k ≤ whole_work w
  WholeSteps-work (here w) = omega arith
  WholeSteps-work (then_whole w v x k turns turn) =
      omega (arith, WholeSteps-work turns, WholeStep-less turn)

  Goes : Whole → Type 0
  Goes w = (v : Whole) × WholeStep p n w v

  -- The main goroutine's next send, once the users are done and their threads have ended.
  stop_next :
      (s : State) (i : ℕ)
      → Sound p messages n s
      → Finished messages n s
      → i ≤ suc p.peers
      → (i ≡ suc p.peers) ⊎ Goes (record { state = s; stopped = i })
  unfolding Goes
  stop_next s i sound (no_thread, done) l =
      let waited : Waited n s = λ u g. ((done u g).0, (done u g).1) in
      let quiet = state-Quiet p n messages some_peer s sound waited in
      elim (dec_lt i p.peers) [
        | yes more ↦ inr (
          _,
          stop_peer s i waited more
              (quiet_weight p n messages some_peer (held i) s.threads refl quiet),
        )
        | no rest ↦ elim (ℕ_discrete i p.peers) [
          | yes last ↦ inr (
              subst (λ j. Goes (record { state = s; stopped = j })) (sym last)
                (
                  _,
                  stop_authority s waited
                      (quiet_weight p n messages some_peer held_request s.threads refl quiet),
                ))
          | no past ↦ inl (omega arith)
        ]
      ]

  -- If there is a peer and every semaphore admits at least one, then no run, the shut-down included, is
  -- longer than the work of its start and a step for each loop; a loop is stopped only when no loop
  -- holds a message and no orderer has anything to send; and a run that has not come to its end, with
  -- every message of every user submitted, its transaction recorded and every loop stopped, can go on.
  pub simulation_ends :
      0 < p.concurrent_endorsements
      → 0 < p.concurrent_validations
      → 0 < p.concurrent_revocations
      → {w : Whole} {k : ℕ} → WholeSteps p n (at_first messages) w k
      → (k ≤ work p n (at_start messages) + suc p.peers)
        × (0 < w.stopped → Quiet w.state)
        × ((Finished messages n w.state × (w.stopped ≡ suc p.peers))
            ⊎ ((v : Whole) × WholeStep p n w v))
  unfolding Goes
  simulation_ends endorse_room validate_room grant_room {w} turns =
      let h = WholeSteps-Orderly turns in
      (
        omega (arith, WholeSteps-work turns),
        λ begun. elim h.in_turn [
          | inl none ↦ absurd (omega arith)
          | inr waited ↦ state-Quiet p n messages some_peer w.state h.sound waited
        ],
        elim (not_stuck p messages n some_peer endorse_room validate_room grant_room w.state
            h.sound) [
              | inr (t, step) ↦ inr (_, runs w.state t w.stopped step)
              | inl finished ↦ elim (stop_next w.state w.stopped h.sound finished h.bounded) [
                | inl ended ↦ inl (finished, ended)
                | inr next ↦ inr next
              ]
            ],
      )
