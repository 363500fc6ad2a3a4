-- ===== src/Simulator/Concurrent/Handlers.antt =====
-- While a handler runs, a loop holds a message or an orderer sends, one of them can go on.
use mathlib.Core.Path.{subst}
use fabric_simulator.Prelude.{
  ℕ, ◌≡◌, ◌≤◌, ◌<◌, ◌⊎◌, inl, inr, refl, ap, Bool, List, [], ◌∷◌, ◌++◌, arith,
}
use fabric_simulator.Platform.{Platform, Bytes}
use fabric_simulator.Helpers.Bounds.{All}
use fabric_simulator.Params.{SystemParameters}
use fabric_simulator.Simulator.Concurrent.{
  Phase, awaiting, proposing, collecting, confirming, Client, Job, holds_proposal, endorses,
  holds_order, orders, start_order, holds_transaction, validates, holds_request, grants, State,
  held, endorsing, validating, held_request, granting, in_all, Move, admit_proposal, endorse,
  deliver, ordered, admit_transaction, validate, admit_request, grant, Step, moves,
}
use fabric_simulator.Simulator.Sums.{sum_of, sum_of-middle, sum_of-le, sum_of-cases}
use fabric_simulator.Simulator.Concurrent.Threads.{of_user, All-middle}
use fabric_simulator.Simulator.Concurrent.Accounts.{
  endorsements_of, confirmations_of, handles_of, ungranted, uncollected, unconfirmed,
}
use fabric_simulator.Simulator.Concurrent.Invariant.{Sound, InPlace}

abbrev running : Job → ℕ
running (endorses q) = 1
running (validates q) = 1
running grants = 1
running _ = 0

abbrev holding : Job → ℕ
holding (holds_proposal q) = 1
holding (holds_order q qs) = 1
holding (holds_transaction q) = 1
holding holds_request = 1
holding _ = 0

-- What keeps a loop from its select, and what takes a permit.
held_le :
    (q : ℕ) (j : Job)
    → (held q j ≤ holding j)
      × (held_request j ≤ holding j)
      × (endorsing q j ≤ running j)
      × (validating q j ≤ running j)
      × (granting j ≤ running j)
held_le q (holds_proposal x) = ground arith
held_le q (endorses x) = ground arith
held_le q (holds_order x qs) = ground arith
held_le q (holds_transaction x) = ground arith
held_le q (validates x) = ground arith
held_le q j = ground arith

awaiting_of : (x : Phase) → 0 < ungranted x → (b : Bool) × (x ≡ awaiting b)
awaiting_of (awaiting b) h = (b, refl)
awaiting_of x h = absurd (omega arith)

module _ {c : Platform} (p : SystemParameters c) (messages : ℕ → List Bytes) (n : ℕ) where
  uncollected_le : (x : Phase) → uncollected p x ≤ p.endorsements
  uncollected_le (proposing es) = omega arith
  uncollected_le (collecting i) = omega arith
  uncollected_le x = omega arith

  unconfirmed_le : (x : Phase) → unconfirmed p x ≤ p.peers
  unconfirmed_le (confirming i) = omega arith
  unconfirmed_le x = omega arith

  module _ (s : State) (sound : Sound p messages n s) where
    abbrev pub Next : Type 0
    Next = (t : State) × Step p n s t

    -- A thread of the state: its user, and a step that ends its job.
    module _ (before after : List (ℕ × Job)) (u : ℕ) (j : Job)
        (e : s.threads ≡ before ++ ((u, j) ∷ after)) where
      is_user : u < n
      is_user =
          (All-middle (InPlace p messages n) before ((u, j) ∷ []) after
            (subst (All (InPlace p messages n)) e sound.in_place)).0.0.0

      step_of : (new : List Job) (k : Client) → Move p s u (j ∷ []) k new → Next
      step_of new k move = (_, moves s u before after (j ∷ []) new k is_user e move)

      pub own_weight : (w : Job → ℕ) → w j ≤ sum_of (of_user u w) s.threads
      unfolding sum_of
      own_weight w = ground (
        arith,
        ap (sum_of (of_user u w)) e,
        sum_of-middle (of_user u w) before ((u, j) ∷ []) after,
      )

    run_step :
        (before after : List (ℕ × Job)) (u : ℕ) (j : Job)
        → s.threads ≡ before ++ ((u, j) ∷ after)
        → 0 < running j
        → Next
    run_step before after u (endorses q) e h = step_of before after u (endorses q) e [] _ (
        endorse q (
          omega (
            arith,
            own_weight before after u (endorses q) e endorsements_of,
            (sound.users u).endorsements,
            uncollected_le (s.users u).phase,
          )))
    run_step before after u (validates q) e h = step_of before after u (validates q) e [] _ (
        validate q (
          omega (
            arith,
            own_weight before after u (validates q) e confirmations_of,
            (sound.users u).confirmations,
            unconfirmed_le (s.users u).phase,
          )))
    run_step before after u grants e h =
        let (b, ph) =
          awaiting_of (s.users u).phase (
            omega
              (arith, own_weight before after u grants e handles_of, (sound.users u).handles)) in
        step_of before after u grants e [] _ (grant b ph)
    run_step before after u j e h = absurd (omega arith)

    module _ (no_runner : in_all running s.threads ≡ 0) where
      -- A loop that holds a message gets its permit, as all permits are free.
      hold_step :
          (before after : List (ℕ × Job)) (u : ℕ) (j : Job)
          → 0 < p.concurrent_endorsements
          → 0 < p.concurrent_validations
          → 0 < p.concurrent_revocations
          → s.threads ≡ before ++ ((u, j) ∷ after)
          → 0 < holding j
          → Next
      hold_step before after u (holds_proposal q) endorse_room validate_room grant_room e h =
          step_of before after u (holds_proposal q) e (endorses q ∷ []) _ (
            admit_proposal q (
              omega (
                arith,
                sum_of-le (λ t. endorsing q t.1) (λ t. running t.1) (λ t. (held_le q t.1).2)
                    s.threads,
              )))
      hold_step before after u (holds_transaction q) endorse_room validate_room grant_room e h =
          step_of before after u (holds_transaction q) e (validates q ∷ []) _ (
            admit_transaction q (
              omega (
                arith,
                sum_of-le (λ t. validating q t.1) (λ t. running t.1) (λ t. (held_le q t.1).3)
                    s.threads,
              )))
      hold_step before after u (holds_order q qs) endorse_room validate_room grant_room e h =
          step_of before after u (holds_order q qs) e (orders qs ∷ []) _ (start_order q qs)
      hold_step before after u holds_request endorse_room validate_room grant_room e h =
          step_of before after u holds_request e (grants ∷ []) _ (
            admit_request (
              omega (
                arith,
                sum_of-le (λ t. granting t.1) (λ t. running t.1) (λ t. (held_le 0 t.1).4) s.threads,
              )))
      hold_step before after u j endorse_room validate_room grant_room e h = absurd (omega arith)

      -- Then only orderers are left, and every loop is at its select.
      order_step :
          in_all holding s.threads ≡ 0
          → (u : ℕ) (j : Job) (rest : List (ℕ × Job)) → s.threads ≡ (u, j) ∷ rest
          → running j ≡ 0
          → holding j ≡ 0
          → Next
      order_step no_holder u (orders []) rest e r h = step_of [] rest u (orders []) e [] _ ordered
      order_step no_holder u (orders (q ∷ qs)) rest e r h =
          step_of [] rest u (orders (q ∷ qs)) e (orders qs ∷ holds_transaction q ∷ []) _ (
            deliver q qs (
              omega (
                arith,
                sum_of-le (λ t. held q t.1) (λ t. holding t.1) (λ t. (held_le q t.1).0) s.threads,
              )))
      order_step no_holder u j rest e r h = absurd (omega arith)

    pub thread_step :
        0 < p.concurrent_endorsements
        → 0 < p.concurrent_validations
        → 0 < p.concurrent_revocations
        → (s.threads ≡ []) ⊎ Next
    unfolding sum_of
    thread_step endorse_room validate_room grant_room =
        elim (sum_of-cases (λ t. running t.1) s.threads) [
          | inl (before, t, after, e, h) ↦ inr (run_step before after t.0 t.1 e h)
          | inr no_runner ↦ elim (sum_of-cases (λ t. holding t.1) s.threads) [
            | inl (before, t, after, e, h) ↦
                inr (
                  hold_step no_runner before after t.0 t.1 endorse_room validate_room grant_room e
                    h)
            | inr no_holder ↦ by_threads s.threads refl no_runner no_holder
          ]
        ]
      where
        by_threads :
            (threads : List (ℕ × Job))
            → s.threads ≡ threads
            → in_all running s.threads ≡ 0
            → in_all holding s.threads ≡ 0
            → (s.threads ≡ []) ⊎ Next
        by_threads [] e no_runner no_holder = inl e
        by_threads (t ∷ rest) e no_runner no_holder = inr (
            order_step no_runner no_holder t.0 t.1 rest e (omega (arith, ap (in_all running) e))
              (omega (arith, ap (in_all holding) e)))
