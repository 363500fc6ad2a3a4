-- ===== src/Simulator/Bandwidth/InFlight/Ends.antt =====
-- Every transfer that is begun ends, and leaves one event.
use fabric_simulator.Prelude.{
  ℕ, zero, suc, ◌+◌, ◌*◌, ◌≡◌, ◌≤◌, ◌<◌, refl, ◌⊎◌, inl, inr, List, map, arith,
}
use fabric_simulator.Revocation.Requests.Times.{times}
use fabric_simulator.Simulator.Sums.{total, total-update, total-at, total-cases, total-le}
use fabric_simulator.Simulator.Types.{Party}
use fabric_simulator.Simulator.Bandwidth.{Connections}
use fabric_simulator.Simulator.Bandwidth.InFlight.{
  Stage, waits, sleeps, over, Progress, fresh, found, flying, logged, Transfers, sleeping, holders,
  Move, find_from, find_to, lock_from, lock_to, lock_global, unlock_from, unlock_to, unlock_global,
  write, Step, moves, Steps, here, then_step, no_transfers,
}
use fabric_simulator.Simulator.Bandwidth.InFlight.Locks.{NumberedFrom}
use fabric_simulator.Simulator.Bandwidth.InFlight.Invariant.{reached-Sound}

abbrev stage_work : Stage → ℕ
stage_work waits = 2
stage_work sleeps = 1
stage_work over = 0

-- The steps that a call has still to take.
abbrev call_work : Progress → ℕ
call_work fresh = 9
call_work (found a) = 8
call_work (flying a b x y z) = stage_work x + stage_work y + stage_work z + 1
call_work logged = 0

abbrev all_sleeping : Progress → ℕ
all_sleeping (flying a b x y z) = sleeping x + sleeping y + sleeping z
all_sleeping _ = 0

holders-le : (mutex : ℕ) (k : Progress) → holders mutex k ≤ all_sleeping k
holders-le mutex (flying a b x y z) = ground arith
holders-le mutex k = omega arith

module _ (ends : ℕ → Party × Party) (n : ℕ) where
  Move-work :
      {s : Transfers} {i : ℕ} {k : Progress} {m : Connections} {log : List (ℕ × ℕ)} {id : ℕ}
      → Move ends n s i k m log id
      → suc (call_work k) ≡ call_work (s.calls i)
  Move-work (find_from ph) = ground (arith, ph)
  Move-work (find_to a ph) = ground (arith, ph)
  Move-work (lock_from a b y z ph free) = ground (arith, ph)
  Move-work (lock_to a b x z ph free) = ground (arith, ph)
  Move-work (lock_global a b x y ph free) = ground (arith, ph)
  Move-work (unlock_from a b y z ph) = ground (arith, ph)
  Move-work (unlock_to a b x z ph) = ground (arith, ph)
  Move-work (unlock_global a b x y ph) = ground (arith, ph)
  Move-work (write a b ph) = ground (arith, ph)

  Step-work :
      {s t : Transfers}
      → Step ends n s t
      → suc (total call_work n t.calls) ≡ total call_work n s.calls
  Step-work (moves s i k m log id l move) =
      omega (arith, total-update call_work n s.calls i k l, Move-work move)

  all_fresh : (m : ℕ) → total call_work m (λ i. fresh) ≡ m * 9
  unfolding total
  all_fresh zero = refl
  all_fresh (suc m) = omega (arith, all_fresh m)

  -- Every step is one of nine for each call.
  Steps-work :
      {s : Transfers} {k : ℕ}
      → Steps ends n no_transfers s k
      → k + total call_work n s.calls ≡ n * 9
  Steps-work (here s) = omega (arith, all_fresh n)
  Steps-work (then_step s t v k steps step) = omega (arith, Steps-work steps, Step-work step)

  module _ (s : Transfers) where
    abbrev Next : Type 0
    Next = (t : Transfers) × Step ends n s t

    module _ (i : ℕ) (l : i < n) where
      next_of :
          {k : Progress} {m : Connections} {log : List (ℕ × ℕ)} {id : ℕ}
          → Move ends n s i k m log id
          → Next
      next_of move = (_, moves s i _ _ _ _ l move)

      -- A goroutine that sleeps wakes and gives its mutex back.
      wake : (k : Progress) → s.calls i ≡ k → 0 < all_sleeping k → Next
      wake (flying a b sleeps y z) ph h = next_of (unlock_from a b y z ph)
      wake (flying a b x sleeps z) ph h = next_of (unlock_to a b x z ph)
      wake (flying a b x y sleeps) ph h = next_of (unlock_global a b x y ph)
      wake k ph h = absurd (omega arith)

      -- Where none sleeps, every mutex is free.
      go_on :
          ((mutex : ℕ) → total (holders mutex) n s.calls ≡ 0)
          → (k : Progress) → s.calls i ≡ k
          → all_sleeping k ≡ 0
          → 0 < call_work k
          → Next
      go_on free fresh ph none h = next_of (find_from ph)
      go_on free (found a) ph none h = next_of (find_to a ph)
      go_on free (flying a b waits y z) ph none h = next_of (lock_from a b y z ph (free (suc a)))
      go_on free (flying a b over waits z) ph none h =
          next_of (lock_to a b over z ph (free (suc b)))
      go_on free (flying a b over over waits) ph none h =
          next_of (lock_global a b over over ph (free 0))
      go_on free (flying a b over over over) ph none h = next_of (write a b ph)
      go_on free k ph none h = absurd (omega arith)

    next_step : (total call_work n s.calls ≡ 0) ⊎ Next
    next_step = elim (total-cases all_sleeping n s.calls) [
      | inl (i, l, h) ↦ inr (wake i l (s.calls i) refl h)
      | inr none ↦ elim (total-cases call_work n s.calls) [
        | inl (i, l, h) ↦ inr (
            go_on i l
              (λ mutex. omega (
                arith,
                total-le (holders mutex) all_sleeping n s.calls s.calls
                    (λ j g. holders-le mutex (s.calls j)),
              ))
              (s.calls i) refl (omega (arith, total-at all_sleeping n s.calls i l)) h)
        | inr finished ↦ inl finished
      ]
    ]

  no_work : (k : Progress) → call_work k ≡ 0 → k ≡ logged
  no_work logged h = refl
  no_work k h = absurd (omega arith)

  -- However the calls interleave, none waits for ever: a run has nine steps for each call and then is at
  -- its end, where every call has written exactly one event; before that it can go on. The events have
  -- consecutive numbers from 1, as a uint64 counts.
  pub transfers_end :
      {s : Transfers} {k : ℕ}
      → Steps ends n no_transfers s k
      → NumberedFrom 1 s.log
        × ((k ≡ n * 9)
              × ((i : ℕ) → i < n → (s.calls i ≡ logged) × (times i (map (λ e. e.0) s.log) ≡ 1))
            ⊎ (k < n * 9) × ((t : Transfers) × Step ends n s t))
  transfers_end {s} steps =
      let sound = reached-Sound ends n steps in
      (
        sound.numbered,
        elim (next_step s) [
          | inl finished ↦ inl (
            omega (arith, Steps-work steps),
            λ i l.
                let last = no_work (s.calls i) (omega (arith, total-at call_work n s.calls i l)) in
                (last, ground (arith, sound.written i, last)),
          )
          | inr (t, step) ↦ inr (omega (arith, Steps-work steps, Step-work step), (t, step))
        ],
      )
