-- ===== src/Tests/Services.antt =====
-- The theorems on the revocation service, the statistics and the command line at concrete inputs.
use fabric_simulator.Prelude.{◌≡◌, refl, Bool, true, false, some, [], ◌∷◌, ==_iff, arith}
use fabric_simulator.Platform.{Bytes}
use fabric_simulator.Simulator.Stats.{TimingBasics, basics}
use fabric_simulator.Simulator.Stats.Order.{Describes, sum, basics_lem}
use fabric_simulator.Revocation.{Progress, nothing_yet, launch, Steps, here, then_step}
use fabric_simulator.Revocation.Requests.{Signs, Sound, Steps-start-Sound}
use fabric_simulator.Tests.Wired.{wire, wire-Faithful}

-- the revocation service: three requests, two at a time

every_point : Bytes → Bool
every_point bytes = true

toy-Signs : Signs wire every_point
unfolding every_point
toy-Signs = record {
  points = λ x. refl;
  verifies = λ prg prg' ys pk epoch. (==_iff epoch epoch).1 refl;
}

abbrev first_sent : Progress
first_sent = record nothing_yet { next = 1; flying = 0 ∷ [] }

sent : Steps wire every_point 3 2 false nothing_yet first_sent
sent =
    then_step nothing_yet nothing_yet first_sent (here nothing_yet)
      (launch nothing_yet refl (omega arith) (omega arith))

Steps-start-Sound_example : Sound wire 3 2 false first_sent
Steps-start-Sound_example =
    Steps-start-Sound wire 3 2 false every_point wire-Faithful toy-Signs first_sent sent

-- the statistics

basics_lem_example :
    (b : TimingBasics) × (basics (30 ∷ 10 ∷ 50 ∷ 20 ∷ []) ≡ some b)
    × Describes (30 ∷ 10 ∷ 50 ∷ 20 ∷ []) b
unfolding sum
basics_lem_example =
    basics_lem 30 (10 ∷ 50 ∷ 20 ∷ []) (omega arith, (omega arith, (omega arith, (omega arith, tt))))
      (omega arith)
