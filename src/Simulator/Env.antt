-- ===== src/Simulator/Env.antt =====
-- What every part of the simulator does to the shared state: it reads the clock, sleeps, makes a
-- generator (NewRand of helpers/helpers.go) and counts a crypto event (simulator/counter.go).
use fabric_simulator.Prelude.{ℕ, ◌+◌}
use fabric_simulator.Platform.{Platform}
use fabric_simulator.Exec.{Exec, ok, pure, modify, ◌>>=◌}
use fabric_simulator.Helpers
use fabric_simulator.Simulator.Counter.{CryptoEvent, record_crypto_event}
use fabric_simulator.Simulator.Types.{World}

module _ (c : Platform) where
  -- time.Now(): never earlier than the reading before.
  unfoldable pub clock_after : World c → ℕ
  clock_after w = w.clock + c.lapse w.clock_reads

  unfoldable pub now : Exec (World c) ℕ
  unfolding clock_after
  now w = (ok (clock_after w), record w { clock = clock_after w; clock_reads = w.clock_reads + 1 })

  unfoldable pub sleep : ℕ → Exec (World c) Unit
  sleep nanoseconds = modify (λ w. record w { clock = w.clock + nanoseconds })

  unfoldable pub fresh_rand : Exec (World c) c.Rand
  unfolding now
  fresh_rand = do nanoseconds ← now; pure (Helpers.new_rand c nanoseconds)

  unfoldable pub event : CryptoEvent → Exec (World c) Unit
  event e = modify (λ w. record w { crypto_events = record_crypto_event e w.crypto_events })
