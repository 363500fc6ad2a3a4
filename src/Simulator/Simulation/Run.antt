-- ===== src/Simulator/Simulation/Run.antt =====
-- In an honest network every schedule is run to its end, and the audit succeeds.
use fabric_simulator.Prelude.{true, ℕ, ◌≤◌, ◌<◌, ◌≡◌, true, List, [], ◌∷◌, ◌++◌, length, get_elem?}
use fabric_simulator.Platform.{Platform}
use fabric_simulator.Exec.{Exec}
use fabric_simulator.Helpers.Bounds.{All}
use fabric_simulator.Params.{SystemParameters}
use fabric_simulator.Simulator.Types.{Transaction, Network, World}
use fabric_simulator.Simulator.Honest.{Complete, SomePermits}
use fabric_simulator.Simulator.Simulation.{Turn}
use fabric_simulator.Exec.Keeps.{Keeps}
use fabric_simulator.Simulator.Simulation.{audit}
use fabric_simulator.Simulator.Simulation.Audit.{names_author}
use fabric_simulator.Simulator.Simulation.Members.{Members, Started}

module _ {c : Platform} (p : SystemParameters c) where
  -- The audit of this transaction succeeds.
  abbrev Opens : Network c → Transaction c → Type 0
  Opens net tx =
      p.audit ≡ true
      → names_author net tx.audit_enc (get_elem? net.users tx.proposal.author_id) ≡ true

  module _ (laws : Complete c) (n : ℕ) where
    -- The turn is of a user there is, and no tick comes between its look at the epoch and the grant.
    abbrev pub Prompt : Turn → Type 0
    Prompt turn = (turn.user < n) × (turn.late ≡ 0)

    module _ (permits : SomePermits p) (net : Network c) (s : Started p n net) where
      -- What a turn adds.
      record Added (k : ℕ) (l : List (Transaction c)) (w : World c) : Type 0 where
        same_epoch : w.epoch ≡ k
        tx : Transaction c
        tx_opens : Opens net tx
        one_more : w.transactions ≡ l ++ tx ∷ []

      -- What a run adds: later or the same epoch, and a transaction that opens for each turn.
      record Ran (w : World c) (turns : List Turn) (w' : World c) : Type 0 where
        no_earlier : w.epoch ≤ w'.epoch
        added : List (Transaction c)
        one_each : length added ≡ length turns
        all_open : All (Opens net) added
        recorded : w'.transactions ≡ w.transactions ++ added
