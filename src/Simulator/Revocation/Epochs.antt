-- ===== src/Simulator/Revocation/Epochs.antt =====
-- The epoch timer, and what it does to a request that is on its way.
use fabric_simulator.Prelude.{ℕ, zero, suc, ◌+◌, ◌≡◌, ◌∙◌, arith, if◌then◌else◌}
use fabric_simulator.Platform.{Platform}
use fabric_simulator.Params.{SystemParameters}
use fabric_simulator.Simulator.Types.{World}
use fabric_simulator.Simulator.Revocation.{tick, ticks}

module _ {c : Platform} (p : SystemParameters c) where
  tick_lem :
      (w : World c) → tick p w ≡ record w { epoch = if p.revoke then w.epoch + 1 else w.epoch }
  unfolding tick
  tick_lem w = ground arith

  -- The timer changes the epoch alone, by one for each tick if epochs are in use.
  pub ticks_lem :
      (n : ℕ) (w : World c)
      → ticks p n w ≡ record w { epoch = if p.revoke then w.epoch + n else w.epoch }
  unfolding ticks
  ticks_lem zero w = ground arith
  ticks_lem (suc n) w = ticks_lem n (tick p w) ∙ ground arith
