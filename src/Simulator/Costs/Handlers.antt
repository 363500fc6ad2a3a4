-- ===== src/Simulator/Costs/Handlers.antt =====
-- The crypto events that each handler of a peer records.
use fabric_simulator.Prelude.{ℕ, ◌+◌, ◌*◌, ◌≡◌, ◌≢◌, refl, Bool, List, length, arith, if◌then◌else◌}
use fabric_simulator.Platform.{Platform, Bytes}
use fabric_simulator.Helpers.{sha3}
use fabric_simulator.Params.{SystemParameters}
use fabric_simulator.Simulator.Counter.{
  CryptoEvent, cred_verify, sha3hash, verify_nym, verify_schnorr, sign_schnorr, audit_verify,
  non_revoke_verify, cred_prove, sign_nym,
}
use fabric_simulator.Simulator.Counter.Counts.{hit}
use fabric_simulator.Simulator.Types.{
  Operation, Peer, User, TransactionProposal, Endorsement, Transaction, Network,
}
use fabric_simulator.Simulator.Costs.{
  Costs, Costs-eq, Costs-modify, Costs-pure, Costs-gets, Costs-require, Costs-if, Costs-check,
  Costs-when, Costs-event, Costs-sleep, Costs-fresh_rand, Costs-record_bandwidth, Costs-bind,
  Costs-for_each,
}
use fabric_simulator.Simulator.Proposal.{make_transaction_proposal}
use fabric_simulator.Simulator.Peer.{
  cache_key, is_cached, validate_identity, execute_chaincode, endorse, check_endorsement, validate,
  receive_endorsement, receive_validation, order, receive_ordering,
}

pub same_zero : (b : Bool) → ◌≡◌ {A = ℕ} (if b then 0 else 0) 0
same_zero b = ground arith

pub hit_ne : (x e : CryptoEvent) → e ≢ x → hit x e ≡ 0
hit_ne x e h = ground arith

-- What a peer records when it endorses, validates and orders.
endorse_cost : CryptoEvent → ℕ
endorse_cost e = hit verify_nym e + 2 * hit sha3hash e + hit sign_schnorr e

validate_cost : Bool → Bool → CryptoEvent → ℕ
validate_cost audit revoke e =
    hit verify_nym e
    + hit verify_schnorr e
    + hit sha3hash e
    + (if audit then hit audit_verify e else 0)
    + (if revoke then hit non_revoke_verify e else 0)

unfoldable pub order_cost : ℕ → Bool → Bool → CryptoEvent → ℕ
unfolding validate_cost
order_cost peers audit revoke e = hit sha3hash e + peers * validate_cost audit revoke e

unfoldable pub proposal_cost : CryptoEvent → ℕ
proposal_cost e = hit cred_prove e + hit sign_nym e

unfoldable pub one_endorsement_cost : CryptoEvent → ℕ
unfolding endorse_cost
one_endorsement_cost e = endorse_cost e

module _ {c : Platform} (p : SystemParameters c) (e : CryptoEvent) where
  pub make_transaction_proposal-Costs :
      (hash : Bytes) (user : User c)
      → Costs e (proposal_cost e) (make_transaction_proposal p hash user)
  unfolding make_transaction_proposal proposal_cost
  make_transaction_proposal-Costs hash user = Costs-eq e (omega arith) (
      Costs-bind e (Costs-fresh_rand e) λ _. Costs-bind e (Costs-event e _) λ _.
        Costs-bind e (Costs-require e _ _) λ _. Costs-bind e (Costs-event e _) λ _. Costs-pure e _)

  pub check_endorsement-Costs :
      (peers : List (Peer c)) (schnorr : c.Schnorr) (message : Bytes) (x : Endorsement c)
      → Costs e 0 (check_endorsement p peers schnorr message x)
  unfolding check_endorsement
  check_endorsement-Costs peers schnorr message x =
      Costs-eq e (omega arith) (Costs-bind e (Costs-require e _ _) λ _. Costs-check e _ _)

module _ {c : Platform} (p : SystemParameters c) (e : CryptoEvent) (fixed : e ≢ cred_verify) where
  -- The number of verified proofs depends on the cache; all else does not.
  validate_identity-Costs :
      (id : ℕ) (proof : Bytes) (pk_nym : c.Pk) (indices : List (ℕ × ℕ × c.Attribute))
      (op : Operation)
      → Costs e (hit sha3hash e) (validate_identity p id proof pk_nym indices op)
  unfolding validate_identity
  validate_identity-Costs id proof pk_nym indices op =
      Costs-eq e (ground (arith, hit_ne cred_verify e fixed)) (
        Costs-bind e (Costs-event e _) λ _. Costs-bind e (Costs-gets e _) λ caches.
          Costs-eq e (same_zero _) (
            Costs-if e (is_cached (cache_key (sha3 c proof)) (caches id op)) (Costs-pure e tt) (
              Costs-eq e (omega (arith, hit_ne cred_verify e fixed)) (
                Costs-bind e (Costs-check e _ _)
                  λ _. Costs-bind e (Costs-event e _) λ _. Costs-modify e _ (λ w. refl)))))

  endorse-Costs :
      (peer : Peer c) (tp : TransactionProposal c) → Costs e (endorse_cost e) (endorse p peer tp)
  unfolding endorse execute_chaincode endorse_cost
  endorse-Costs peer tp = Costs-eq e (omega arith) (
      Costs-bind e (Costs-check e _ _) λ _. Costs-bind e (Costs-event e _) λ _.
        Costs-bind e (validate_identity-Costs _ _ _ _ _) λ _.
          Costs-bind e (validate_identity-Costs _ _ _ _ _) λ _. Costs-bind e (Costs-sleep e _) λ _.
            Costs-bind e (Costs-fresh_rand e) λ _.
              Costs-bind e (Costs-event e _)
                λ _. Costs-bind e (Costs-record_bandwidth e _ _ _ _ _) λ _. Costs-pure e _)

  pub receive_endorsement-Costs :
      (peer : Peer c) (tp : TransactionProposal c)
      → Costs e (one_endorsement_cost e) (receive_endorsement p peer tp)
  unfolding receive_endorsement one_endorsement_cost
  receive_endorsement-Costs peer tp = Costs-eq e (omega arith) (
      Costs-bind e (Costs-record_bandwidth e _ _ _ _ _)
        λ _. Costs-bind e (Costs-check e _ _) λ _. endorse-Costs peer tp)

  validate-Costs :
      (net : Network c) (peer : Peer c) (tx : Transaction c)
      → Costs e (validate_cost p.audit p.revoke e) (validate p net peer tx)
  unfolding validate execute_chaincode validate_cost
  validate-Costs net peer tx = Costs-eq e (ground arith) (
      Costs-bind e (Costs-check e _ _) λ _. Costs-bind e (Costs-event e _) λ _.
        Costs-bind e (Costs-check e _ _) λ _. Costs-bind e (Costs-fresh_rand e) λ _.
          Costs-bind e (Costs-for_each e tx.endorsements _ 0 (check_endorsement-Costs p e _ _ _))
            λ _. Costs-bind e (Costs-event e _) λ _.
              Costs-bind e (validate_identity-Costs _ _ _ _ _) λ _.
                Costs-bind e
                  (Costs-when e p.audit (
                    Costs-bind e (Costs-require e _ _) λ _.
                      Costs-bind e (Costs-require e _ _)
                        λ _. Costs-bind e (Costs-check e _ _) λ _. Costs-event e audit_verify))
                  λ _.
                    Costs-bind e
                      (Costs-when e p.revoke (
                        Costs-bind e (Costs-require e _ _) λ _.
                          Costs-bind e (Costs-check e _ _) λ _. Costs-event e non_revoke_verify))
                      λ _. Costs-sleep e _)

  receive_validation-Costs :
      (net : Network c) (peer : Peer c) (tx : Transaction c)
      → Costs e (validate_cost p.audit p.revoke e) (receive_validation p net peer tx)
  unfolding receive_validation
  receive_validation-Costs net peer tx = Costs-eq e (ground arith) (
      Costs-bind e
        (Costs-when e _
          (Costs-bind e (Costs-require e _ _) λ _. Costs-record_bandwidth e _ _ _ _ _))
        λ _. Costs-bind e (Costs-check e _ _) λ _. validate-Costs net peer tx)

  pub receive_ordering-Costs :
      (net : Network c) (peer : Peer c) (tx : Transaction c)
      → Costs e (order_cost (length net.peers) p.audit p.revoke e) (receive_ordering p net peer tx)
  unfolding receive_ordering order order_cost
  receive_ordering-Costs net peer tx = Costs-eq e (omega arith) (
      Costs-bind e (Costs-require e _ _) λ _. Costs-bind e (Costs-record_bandwidth e _ _ _ _ _) λ _.
        Costs-bind e (validate_identity-Costs _ _ _ _ _) λ _.
          Costs-bind e
            (Costs-for_each e net.peers _ _ (λ other. receive_validation-Costs net other _))
            λ _. Costs-pure e _)
