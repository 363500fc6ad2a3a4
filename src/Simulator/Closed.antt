-- ===== src/Simulator/Closed.antt =====
-- What all the code of the simulator keeps: a statement about the shared state that each of the few
-- things which change it keeps. The handlers are composed of those.
use fabric_simulator.Prelude.{ℕ, ◌≡◌, true, List}
use fabric_simulator.Platform.{Platform, Bytes}
use fabric_simulator.Exec.Keeps.{
  Keeps, Keeps-check, Keeps-check-bind, Keeps-modify, Keeps-pure, Keeps-gets, Keeps-require,
  Keeps-if, Keeps-bind, Keeps-for_each, Keeps-collect, keeps_rules,
}
use fabric_simulator.Params.{SystemParameters}
use fabric_simulator.Simulator.Counter.{
  CryptoEvent, TransactionTimingInfo, record_transaction_timing_info,
}
use fabric_simulator.Simulator.Types.{
  Party, ObjectName, Operation, Peer, User, Network, TransactionProposal, Endorsement, Transaction,
  NonRevocationRequest, World,
}
use fabric_simulator.Simulator.Env.{now, sleep, fresh_rand, event}
use fabric_simulator.Simulator.Bandwidth.{record_bandwidth}
use fabric_simulator.Simulator.Proposal.{make_transaction_proposal}
use fabric_simulator.Simulator.Peer.{
  add_key, validate_identity, execute_chaincode, endorse, check_endorsement, validate,
  receive_endorsement, receive_validation, order, receive_ordering,
}
use fabric_simulator.Simulator.Peer.Identity.{key_of, verifies}
use fabric_simulator.Simulator.Revocation.{ticks, grant, receive_request, request_non_revocation}
use fabric_simulator.Simulator.User.{
  send_proposal, accept_endorsement, update_epoch, prove_non_revocation, prove_auditing,
  build_transaction, send_transaction, record_transaction, submit_transaction,
}

pub record Closed {c : Platform} (p : SystemParameters c) (P : World c → Type 0) : Type 0 where
  pub on_event : (e : CryptoEvent) → Keeps P (event c e)
  pub on_now : Keeps P (now c)
  pub on_sleep : (n : ℕ) → Keeps P (sleep c n)
  pub on_bandwidth :
      (from to : Party) (object : ObjectName) (size : ℕ)
      → Keeps P (record_bandwidth p from to object size)
  pub on_key :
      (w : World c) (id : ℕ) (op : Operation) (proof : Bytes) (pk_nym : c.Pk)
      (indices : List (ℕ × ℕ × c.Attribute))
      → verifies p proof pk_nym indices ≡ true
      → P w
      → P (record w { caches = add_key w.caches id op (key_of p proof) })
  pub on_ticks : (n : ℕ) (w : World c) → P w → P (ticks p n w)
  pub on_timing :
      (w : World c) (info : TransactionTimingInfo)
      → P w
      → P (record w {
        transaction_timings = record_transaction_timing_info info w.transaction_timings;
      })
  pub on_transaction :
      (net : Network c) (tx : Transaction c) → Keeps P (record_transaction p net tx)

module _ {c : Platform} {p : SystemParameters c} {P : World c → Type 0} (k : Closed p P) where
  open k use {on_event, on_now, on_sleep, on_bandwidth, on_key, on_ticks, on_timing, on_transaction}

  fresh_rand-Keeps : Keeps P (fresh_rand c)
  unfolding fresh_rand
  fresh_rand-Keeps = search (keeps_rules, on_now)

  validate_identity-Keeps :
      (id : ℕ) (proof : Bytes) (pk_nym : c.Pk) (indices : List (ℕ × ℕ × c.Attribute))
      (op : Operation)
      → Keeps P (validate_identity p id proof pk_nym indices op)
  unfolding validate_identity
  validate_identity-Keeps id proof pk_nym indices op = Keeps-bind _ _ (on_event _) λ _.
      Keeps-bind _ _ (Keeps-gets _) λ caches. Keeps-if _ _ _ (Keeps-pure tt) (
        Keeps-check-bind _ _ _ λ ok.
          Keeps-bind _ _ (on_event _)
            λ _. Keeps-modify _ λ w h. on_key w id op proof pk_nym indices ok h)

  endorse-Keeps : (peer : Peer c) (tp : TransactionProposal c) → Keeps P (endorse p peer tp)
  unfolding endorse execute_chaincode
  endorse-Keeps peer tp = Keeps-bind _ _ (Keeps-check _ _) λ _. Keeps-bind _ _ (on_event _) λ _.
      Keeps-bind _ _ (validate_identity-Keeps _ _ _ _ _) λ _.
        Keeps-bind _ _ (validate_identity-Keeps _ _ _ _ _) λ _.
          Keeps-bind _ _ (on_sleep _)
            λ _. search (keeps_rules, on_event, on_bandwidth, fresh_rand-Keeps) depth 10

  check_endorsement-Keeps :
      (peers : List (Peer c)) (schnorr : c.Schnorr) (message : Bytes) (e : Endorsement c)
      → Keeps P (check_endorsement p peers schnorr message e)
  unfolding check_endorsement
  check_endorsement-Keeps peers schnorr message e = search keeps_rules

  validate-Keeps :
      (net : Network c) (peer : Peer c) (tx : Transaction c) → Keeps P (validate p net peer tx)
  unfolding validate execute_chaincode
  validate-Keeps net peer tx = Keeps-bind _ _ (Keeps-check _ _) λ _.
      Keeps-bind _ _ (on_event _) λ _. Keeps-bind _ _ (Keeps-check _ _) λ _.
        Keeps-bind _ _ fresh_rand-Keeps λ prg.
          Keeps-bind _ _ (Keeps-for_each _ _ (check_endorsement-Keeps _ _ _)) λ _.
            Keeps-bind _ _ (on_event _) λ _.
              Keeps-bind _ _ (validate_identity-Keeps _ _ _ _ _)
                λ _. search (keeps_rules, on_event, on_sleep) depth 12

  receive_endorsement-Keeps :
      (peer : Peer c) (tp : TransactionProposal c) → Keeps P (receive_endorsement p peer tp)
  unfolding receive_endorsement
  receive_endorsement-Keeps peer tp = search (keeps_rules, on_bandwidth, endorse-Keeps)

  receive_validation-Keeps :
      (net : Network c) (peer : Peer c) (tx : Transaction c)
      → Keeps P (receive_validation p net peer tx)
  unfolding receive_validation
  receive_validation-Keeps net peer tx = search (keeps_rules, on_bandwidth, validate-Keeps) depth 8

  order-Keeps :
      (net : Network c) (peer : Peer c) (tx : Transaction c) → Keeps P (order p net peer tx)
  unfolding order
  order-Keeps net peer tx = search (keeps_rules, validate_identity-Keeps, receive_validation-Keeps)

  receive_ordering-Keeps :
      (net : Network c) (peer : Peer c) (tx : Transaction c)
      → Keeps P (receive_ordering p net peer tx)
  unfolding receive_ordering
  receive_ordering-Keeps net peer tx = search (keeps_rules, on_bandwidth, order-Keeps) depth 8

  make_transaction_proposal-Keeps :
      (hash : Bytes) (user : User c) → Keeps P (make_transaction_proposal p hash user)
  unfolding make_transaction_proposal
  make_transaction_proposal-Keeps hash user =
      search (keeps_rules, on_event, fresh_rand-Keeps) depth 12

  grant-Keeps : (net : Network c) (nrr : NonRevocationRequest c) → Keeps P (grant p net nrr)
  unfolding grant
  grant-Keeps net nrr = search (keeps_rules, on_event, on_bandwidth, fresh_rand-Keeps) depth 12

  request_non_revocation-Keeps :
      (net : Network c) (late : ℕ) (user : User c)
      → Keeps P (request_non_revocation p net late user)
  unfolding request_non_revocation receive_request
  request_non_revocation-Keeps net late user =
      search (keeps_rules, Keeps-modify, on_ticks, on_bandwidth, grant-Keeps) depth 12

  module _ (net : Network c) where
    send_proposal-Keeps :
        (proposal : TransactionProposal c) (endorser : ℕ)
        → Keeps P (send_proposal p net proposal endorser)
    unfolding send_proposal
    send_proposal-Keeps proposal endorser = search (keeps_rules, receive_endorsement-Keeps)

    accept_endorsement-Keeps :
        (schnorr : c.Schnorr) (message : Bytes) (e : Endorsement c)
        → Keeps P (accept_endorsement p net schnorr message e)
    unfolding accept_endorsement
    accept_endorsement-Keeps schnorr message e =
        search (keeps_rules, on_event, check_endorsement-Keeps)

    update_epoch-Keeps : (late : ℕ) (user : User c) → Keeps P (update_epoch p net late user)
    unfolding update_epoch
    update_epoch-Keeps late user = search (keeps_rules, request_non_revocation-Keeps) depth 8

    prove_non_revocation-Keeps :
        (prg : c.Rand) (user : User c) (sk_nym : c.Sk)
        → Keeps P (prove_non_revocation p net prg user sk_nym)
    unfolding prove_non_revocation
    prove_non_revocation-Keeps prg user sk_nym = search (keeps_rules, on_event) depth 8

    prove_auditing-Keeps :
        (prg : c.Rand) (user : User c) (pk_nym : c.Pk) (sk_nym : c.Sk)
        → Keeps P (prove_auditing p net prg user pk_nym sk_nym)
    unfolding prove_auditing
    prove_auditing-Keeps prg user pk_nym sk_nym =
        search (keeps_rules, on_event, fresh_rand-Keeps) depth 12

    build_transaction-Keeps :
        (prg : c.Rand) (late : ℕ) (user : User c) (proposal : TransactionProposal c) (pk_nym : c.Pk)
        (sk_nym : c.Sk) (endorsements : List (Endorsement c))
        → Keeps P (build_transaction p net prg late user proposal pk_nym sk_nym endorsements)
    unfolding build_transaction
    build_transaction-Keeps prg late user proposal pk_nym sk_nym endorsements =
        search
          (
            keeps_rules, on_event, update_epoch-Keeps, prove_non_revocation-Keeps,
            prove_auditing-Keeps,
          )
          depth 12

    send_transaction-Keeps :
        (message : Bytes) (tx : Transaction c) → Keeps P (send_transaction p net message tx)
    unfolding send_transaction
    send_transaction-Keeps message tx =
        search (keeps_rules, on_event, receive_ordering-Keeps) depth 12

    -- What is closed under the steps is kept by a whole transaction, completed or not.
    pub submit_transaction-Keeps :
        (message : Bytes) (late : ℕ) (user : User c)
        → Keeps P (submit_transaction p net message late user)
    unfolding submit_transaction
    submit_transaction-Keeps message late user = Keeps-bind _ _ on_now λ _.
        Keeps-bind _ _ fresh_rand-Keeps λ prg. Keeps-bind _ _ (on_event _) λ _.
          Keeps-bind _ _ (Keeps-require _ _) λ _. Keeps-bind _ _ (on_event _) λ _.
            Keeps-bind _ _ (make_transaction_proposal-Keeps _ _) λ t. Keeps-bind _ _ on_now λ _.
              Keeps-bind _ _ (Keeps-collect _ _ (send_proposal-Keeps _)) λ _.
                Keeps-bind _ _ (Keeps-for_each _ _ (accept_endorsement-Keeps _ _)) λ _.
                  Keeps-bind _ _ on_now λ _.
                    Keeps-bind _ _ (build_transaction-Keeps _ _ _ _ _ _ _) λ u.
                      Keeps-bind _ _ on_now λ _. Keeps-bind _ _ (send_transaction-Keeps _ _) λ _.
                        Keeps-bind _ _ on_now λ _. Keeps-bind _ _ on_now λ _.
                          Keeps-bind _ _ (Keeps-modify _ λ w h. on_timing w _ h)
                            λ _. Keeps-bind _ _ (on_transaction _ _) λ _. Keeps-pure _
