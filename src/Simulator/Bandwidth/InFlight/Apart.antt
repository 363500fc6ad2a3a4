-- ===== src/Simulator/Bandwidth/InFlight/Apart.antt =====
-- No mutex is held twice.
use fabric_simulator.Prelude.{ℕ, ◌+◌, ◌-◌, ◌≡◌, ◌≤◌, List, arith}
use fabric_simulator.Simulator.Types.{Party}
use fabric_simulator.Simulator.Bandwidth.{Connections}
use fabric_simulator.Simulator.Bandwidth.InFlight.{
  Progress, Transfers, holders, Move, find_from, find_to, lock_from, lock_to, lock_global,
  unlock_from, unlock_to, unlock_global, write, Step, moves,
}
use fabric_simulator.Simulator.Sums.{total, total-update, total-at}

module _ (ends : ℕ → Party × Party) (n : ℕ) where
  -- What a move changes in the count of a mutex.
  Move-holders :
      {s : Transfers} {i : ℕ} {k : Progress} {m : Connections} {log : List (ℕ × ℕ)} {id : ℕ}
      (mutex rest : ℕ)
      → Move ends n s i k m log id
      → total (holders mutex) n s.calls ≡ holders mutex (s.calls i) + rest
      → holders mutex (s.calls i) + rest ≤ 1
      → holders mutex k + rest ≤ 1
  Move-holders mutex rest (find_from ph) e h = ground (arith, ph)
  Move-holders mutex rest (find_to a ph) e h = ground (arith, ph)
  Move-holders mutex rest (lock_from a b y z ph free) e h = ground (arith, ph, free)
  Move-holders mutex rest (lock_to a b x z ph free) e h = ground (arith, ph, free)
  Move-holders mutex rest (lock_global a b x y ph free) e h = ground (arith, ph, free)
  Move-holders mutex rest (unlock_from a b y z ph) e h = ground (arith, ph)
  Move-holders mutex rest (unlock_to a b x z ph) e h = ground (arith, ph)
  Move-holders mutex rest (unlock_global a b x y ph) e h = ground (arith, ph)
  Move-holders mutex rest (write a b ph) e h = ground (arith, ph)

  abbrev pub Apart : Transfers → Type 0
  Apart s = (mutex : ℕ) → total (holders mutex) n s.calls ≤ 1

  pub Step-Apart : {s t : Transfers} → Step ends n s t → Apart s → Apart t
  Step-Apart (moves s i k m log id l move) h mutex =
      let mine = holders mutex (s.calls i) in
      let all = total (holders mutex) n s.calls in
      let own = total-at (holders mutex) n s.calls i l in
      omega (
        arith,
        total-update (holders mutex) n s.calls i k l,
        Move-holders mutex (all - mine) move (omega (arith, own)) (omega (arith, own, h mutex)),
        own,
      )
