-- ===== src/Simulator/User/Permits.antt =====
-- What the semaphores of the peers have to admit for a transaction to return.
use fabric_simulator.Prelude.{ℕ, ◌≡◌, ◌<◌, length, arith, ltb→lt}
use fabric_simulator.Platform.{Platform, Bytes}
use fabric_simulator.Exec.{ok}
use fabric_simulator.Exec.Ensures.{
  Needs, Needs-check, Needs-first, Needs-rest, Needs-for_each, Needs-collect,
}
use fabric_simulator.Params.{SystemParameters}
use fabric_simulator.Simulator.Types.{User, Peer, TransactionProposal, Transaction, Network, World}
use fabric_simulator.Simulator.Peer.{
  receive_endorsement, receive_validation, order, receive_ordering,
}
use fabric_simulator.Simulator.User.{send_proposal, send_transaction, submit_transaction}
use fabric_simulator.Simulator.User.Endorsers.{length-select_endorsers}

module _ {c : Platform} (p : SystemParameters c) (net : Network c) where
  send_proposal-Needs :
      (proposal : TransactionProposal c) (endorser : ℕ)
      → Needs (0 < p.concurrent_endorsements) (send_proposal p net proposal endorser)
  unfolding send_proposal receive_endorsement
  send_proposal-Needs proposal endorser = Needs-rest _ _ λ peer.
      Needs-rest _ _ λ _. Needs-first _ _ (Needs-check _ _ _ (ltb→lt 0 p.concurrent_endorsements))

  receive_validation-Needs :
      (peer : Peer c) (tx : Transaction c)
      → Needs (0 < p.concurrent_validations) (receive_validation p net peer tx)
  unfolding receive_validation
  receive_validation-Needs peer tx =
      Needs-rest _ _ λ _. Needs-first _ _ (Needs-check _ _ _ (ltb→lt 0 p.concurrent_validations))

  send_transaction-Needs :
      (message : Bytes) (tx : Transaction c)
      → 0 < length net.peers
      → Needs (0 < p.concurrent_validations) (send_transaction p net message tx)
  unfolding send_transaction receive_ordering order
  send_transaction-Needs message tx some_peer = Needs-rest _ _ λ _. Needs-rest _ _ λ _.
      Needs-rest _ _ λ peer. Needs-rest _ _ λ _. Needs-rest _ _ λ _. Needs-rest _ _ λ _.
        Needs-first _ _
          (Needs-for_each net.peers _ some_peer (λ other. receive_validation-Needs other _))

  submit_transaction-Needs :
      (message : Bytes) (late : ℕ) (user : User c)
      → 0 < p.endorsements
      → Needs (0 < p.concurrent_endorsements) (submit_transaction p net message late user)
  unfolding submit_transaction
  submit_transaction-Needs message late user some_endorsement = Needs-rest _ _ λ _.
      Needs-rest _ _ λ prg. Needs-rest _ _ λ _. Needs-rest _ _ λ endorser. Needs-rest _ _ λ _.
        Needs-rest _ _ λ t. Needs-rest _ _ λ _. Needs-first _ _ (
          Needs-collect _ _
            (omega
              (arith, some_endorsement, length-select_endorsers endorser p.peers p.endorsements))
            (send_proposal-Needs t.0))

  submit_transaction-Needs_validation :
      (message : Bytes) (late : ℕ) (user : User c)
      → 0 < length net.peers
      → Needs (0 < p.concurrent_validations) (submit_transaction p net message late user)
  unfolding submit_transaction
  submit_transaction-Needs_validation message late user some_peer = Needs-rest _ _ λ _.
      Needs-rest _ _ λ prg. Needs-rest _ _ λ _. Needs-rest _ _ λ endorser. Needs-rest _ _ λ _.
        Needs-rest _ _ λ t. Needs-rest _ _ λ _. Needs-rest _ _ λ _. Needs-rest _ _ λ _.
          Needs-rest _ _ λ _.
            Needs-rest _ _ λ r.
              Needs-rest _ _ λ _. Needs-first _ _ (send_transaction-Needs message r.1 some_peer)

-- If the policy asks for an endorsement and the network has a peer, a transaction returns only if the
-- limits of concurrent endorsements and of concurrent validations are both positive: with a limit of 0
-- no transaction of any user returns, from any state.
pub submit_transaction-permits :
    {c : Platform} (p : SystemParameters c) (net : Network c) (message : Bytes) (late : ℕ)
    (user user' : User c) (w w' : World c)
    → 0 < p.endorsements
    → 0 < length net.peers
    → submit_transaction p net message late user w ≡ (ok user', w')
    → (0 < p.concurrent_endorsements) × (0 < p.concurrent_validations)
submit_transaction-permits p net message late user user' w w' some_endorsement some_peer e = (
  (submit_transaction-Needs p net message late user some_endorsement).at w w' user' e,
  (submit_transaction-Needs_validation p net message late user some_peer).at w w' user' e,
)
