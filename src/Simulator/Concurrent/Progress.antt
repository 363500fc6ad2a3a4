-- ===== src/Simulator/Concurrent/Progress.antt =====
-- No goroutine waits for ever: short of the end some goroutine can go on.
use mathlib.Core.Path.{subst}
use native.Mathlib.Decide.{dec_lt, ℕ_discrete}
use fabric_simulator.Prelude.{
  ℕ, zero, suc, ◌-◌, ◌≡◌, ◌≤◌, ◌<◌, ◌⊎◌, inl, inr, refl, sym, ap, ◌∙◌, true, false, List, [], ◌∷◌,
  ◌++◌, length, arith,
}
use fabric_simulator.Platform.{Platform, Bytes}
use fabric_simulator.Helpers.{codes, sha3}
use fabric_simulator.Helpers.Bounds.{peer_by_hash-lt}
use fabric_simulator.Params.{SystemParameters}
use fabric_simulator.Simulator.Concurrent.{
  Phase, unstarted, asking, awaiting, idle, proposing, collecting, submitting, confirming, Client,
  Job, State, launched, Move, launch, start, propose, proposed, collect, collected, request, submit,
  confirm, complete, Step, moves, Finished,
}
use fabric_simulator.Simulator.Sums.{sum_of}
use fabric_simulator.Simulator.Concurrent.Threads.{of_user}
use fabric_simulator.Simulator.Concurrent.Accounts.{
  endorsements_of, confirmations_of, handles_of, at_phase,
}
use fabric_simulator.Simulator.Concurrent.Invariant.{Sound}
use fabric_simulator.Simulator.Concurrent.Handlers.{thread_step}

module _ {c : Platform} (p : SystemParameters c) (messages : ℕ → List Bytes) (n : ℕ) where
  -- A user that has submitted all its messages.
  abbrev Done : State → ℕ → Type 0
  Done s u =
      ((s.users u).phase ≡ idle)
      × ((s.users u).todo ≡ [])
      × ((s.users u).recorded ≡ length (messages u))

  module _ (s : State) (sound : Sound p messages n s) (no_thread : s.threads ≡ [])
      (some_peer : 0 < p.peers) (u : ℕ) (is_user : u < n) where
    abbrev Next : Type 0
    Next = (t : State) × Step p n s t

    user_move : (new : List Job) (k : Client) → Move p s u [] k new → Next
    user_move new k move = (_, moves s u [] [] [] new k is_user no_thread move)

    -- Nothing weighs anything.
    no_weight : (w : ℕ × Job → ℕ) → sum_of w s.threads ≡ 0
    unfolding sum_of
    no_weight w = ap (sum_of w) no_thread

    idle_step :
        (todo : List Bytes) → (s.users u).phase ≡ idle → (s.users u).todo ≡ todo → Done s u ⊎ Next
    idle_step [] ph e =
        inl (ph, e, omega (arith, (at_phase p idle (sound.users u) ph).counted, ap length e))
    idle_step (m ∷ rest) ph e =
        let (first, hash, small) = peer_by_hash-lt (sha3 c m) p.peers some_peer in
        inr (user_move [] _ (start m rest first ph e hash))

    collect_step : (i : ℕ) → (s.users u).phase ≡ collecting i → Next
    collect_step i ph =
        let a = at_phase p (collecting i) (sound.users u) ph in
        elim (dec_lt i p.endorsements) [
          | yes more ↦ user_move [] _ (
              collect i (p.endorsements - i - 1) ph more
                (omega (arith, a.endorsements, no_weight (of_user u endorsements_of))))
          | no last ↦
              user_move [] _
                (collected false (ph ∙ ap collecting (omega (arith, a.place))) (λ e. refl))
        ]

    confirm_step : (i : ℕ) → (s.users u).phase ≡ confirming i → Next
    confirm_step i ph =
        let a = at_phase p (confirming i) (sound.users u) ph in
        elim (dec_lt i p.peers) [
          | yes more ↦ user_move [] _ (
              confirm i (p.peers - i - 1) ph more
                (omega (arith, a.confirmations, no_weight (of_user u confirmations_of))))
          | no last ↦ user_move [] _ (complete (ph ∙ ap confirming (omega (arith, a.place))))
        ]

    user_step :
        (x : Phase)
        → (s.users u).phase ≡ x
        → (u ≡ 0) ⊎ ((before : ℕ) × (u ≡ suc before) × (launched (s.users before).phase ≡ true))
        → Done s u ⊎ Next
    user_step unstarted ph turn = inr (user_move [] _ (launch ph turn))
    user_step (asking b) ph turn = inr (user_move _ _ (request b ph (no_weight _)))
    user_step (awaiting b) ph turn = absurd (
        omega (
          arith,
          (at_phase p (awaiting b) (sound.users u) ph).handles,
          no_weight (of_user u handles_of),
        ))
    user_step idle ph turn = idle_step (s.users u).todo ph refl
    user_step (proposing []) ph turn = inr (user_move [] _ (proposed ph))
    user_step (proposing (e ∷ es)) ph turn = inr (user_move _ _ (propose e es ph (no_weight _)))
    user_step (collecting i) ph turn = inr (collect_step i ph)
    user_step submitting ph turn =
        let (orderer, hash, small) =
          peer_by_hash-lt (sha3 c ((s.users u).message ++ codes "-order")) p.peers some_peer in
        inr (user_move _ _ (submit orderer ph hash (no_weight _)))
    user_step (confirming i) ph turn = inr (confirm_step i ph)

  module _ (some_peer : 0 < p.peers) where
    -- The first `m` users are done, or one of them can go on.
    first_users :
        (s : State)
        → Sound p messages n s
        → s.threads ≡ []
        → (m : ℕ) → m ≤ n
        → ((u : ℕ) → u < m → Done s u) ⊎ ((t : State) × Step p n s t)
    unfolding launched
    first_users s sound no_thread zero l = inl (λ u h. absurd (omega arith))
    first_users s sound no_thread (suc m) l = elim (first_users s sound no_thread m (omega arith)) [
      | inr next ↦ inr next
      | inl done ↦
          elim (user_step s sound no_thread some_peer m (omega arith) (s.users m).phase refl
            (turn m done)) [
              | inr next ↦ inr next
              | inl last ↦ inl (λ u h. elim (ℕ_discrete u m) [
                | yes e ↦ subst (Done s) (sym e) last
                | no ne ↦ done u (omega arith)
              ])
            ]
    ]
      where
        turn :
            (m : ℕ)
            → ((u : ℕ) → u < m → Done s u)
            → (m ≡ 0) ⊎ ((before : ℕ) × (m ≡ suc before) × (launched (s.users before).phase ≡ true))
        turn zero done = inl refl
        turn (suc before) done = inr (before, refl, rw ((done before (omega arith)).0) refl)

    -- If every semaphore admits at least one, a state that is not at its end has a next one.
    pub not_stuck :
        0 < p.concurrent_endorsements
        → 0 < p.concurrent_validations
        → 0 < p.concurrent_revocations
        → (s : State) → Sound p messages n s
        → Finished messages n s ⊎ ((t : State) × Step p n s t)
    not_stuck endorse_room validate_room grant_room s sound =
        elim (thread_step p messages n s sound endorse_room validate_room grant_room) [
          | inr next ↦ inr next
          | inl no_thread ↦ elim (first_users s sound no_thread n (omega arith)) [
            | inr next ↦ inr next
            | inl done ↦ inl (no_thread, done)
          ]
        ]
