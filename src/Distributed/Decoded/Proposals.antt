-- ===== src/Distributed/Decoded/Proposals.antt =====
-- The user's process makes the proposal that the simulated user makes.
use fabric_simulator.Prelude.{◌≡◌, refl, arith}
use fabric_simulator.Platform.{Platform, Bytes}
use fabric_simulator.Exec.{Outcome, ok, halt, ◌>>=◌}
use fabric_simulator.Params.{SystemParameters}
use fabric_simulator.Simulator.Types as Simulated
use fabric_simulator.Simulator.Env as SimulatedEnv
use fabric_simulator.Simulator.Proposal as SimulatedProposal
use fabric_simulator.Distributed.Wire.{Wire}
use fabric_simulator.Distributed.Types.{TransactionProposal, User, World}
use fabric_simulator.Distributed.Rpc.{clock_after, now, fresh_rand}
use fabric_simulator.Distributed.Proposal.{get_message, make_transaction_proposal}
use fabric_simulator.Distributed.Peer.{indices_of}
use fabric_simulator.Distributed.Decoded.{decoded_proposal}
use fabric_simulator.Distributed.Wire.Laws.{Faithful}

-- The two texts of getMessage are one function.
pub get_message-decoded_proposal :
    {c : Platform} (wire : Wire c) (p : SystemParameters c) (tp : TransactionProposal)
    → SimulatedProposal.get_message (decoded_proposal wire p tp) ≡ get_message tp
unfolding get_message decoded_proposal SimulatedProposal.get_message
get_message-decoded_proposal wire p tp = refl

module _ {c : Platform} (wire : Wire c) (p : SystemParameters c) where
  pub decoded : TransactionProposal × c.Pk × c.Sk → Simulated.TransactionProposal c × c.Pk × c.Sk
  decoded (tp, pk_nym, sk_nym) = (decoded_proposal wire p tp, pk_nym, sk_nym)

  pub decoded_outcome :
      Outcome (TransactionProposal × c.Pk × c.Sk)
      → Outcome (Simulated.TransactionProposal c × c.Pk × c.Sk)
  unfolding decoded
  decoded_outcome (ok made) = ok (decoded made)
  decoded_outcome (halt fault) = halt fault

  -- With faithful marshalling and clocks that agree, the proposal that a user's process makes, decoded, is
  -- the one that the simulated user with the same credentials makes, with the same pseudonym, and it
  -- fails with the same fault.
  pub make_transaction_proposal-decoded :
      Faithful wire
      → (hash : Bytes) (user : User c) (simulated : Simulated.User c) (w : World c)
        (v : Simulated.World c)
      → simulated.holder ≡ user.creds
      → w.clock ≡ v.clock
      → w.clock_reads ≡ v.clock_reads
      → decoded_outcome (make_transaction_proposal wire p hash user w).0
        ≡ (SimulatedProposal.make_transaction_proposal p hash simulated v).0
  unfolding decoded_outcome decoded_proposal indices_of get_message make_transaction_proposal
      fresh_rand now SimulatedProposal.make_transaction_proposal SimulatedProposal.indices_of
      SimulatedEnv.fresh_rand SimulatedEnv.now clock_after SimulatedEnv.clock_after
      SimulatedProposal.get_message SimulatedProposal.message_of SimulatedEnv.event ◌>>=◌
  make_transaction_proposal-decoded laws hash user simulated w v e f g =
      rw (e, f, g) (grind (arith, laws.point, laws.attribute, laws.nym_signature))
