-- ===== src/Distributed/Peer.antt =====
-- distributed/peer.go: the methods of RPCPeer. `self` is the address of the peer that runs the
-- method.
pub mod Validation
pub mod Forged
use mathlib.Core.Bool.{not}
use fabric_simulator.Prelude.{
  ℕ, Bool, true, false, Option, none, some, List, [], ◌∷◌, ◌++◌, length, ltb, if◌then◌else◌,
}
use fabric_simulator.Platform.{Platform, Bytes}
use fabric_simulator.Exec.{
  Exec, bad_nym_signature, too_few_endorsements, bad_endorsement, bad_identity, bad_audit_proof,
  bad_non_revocation_proof, audit_failed, call_failed, validation_failed, pure, gets, modify, check,
  require, when, ◌>>=◌, ◌>>◌, for_each, collect,
}
use fabric_simulator.Helpers.{sha3}
use fabric_simulator.Params.{SystemParameters}
use fabric_simulator.Simulator.Peer.{cache_key, is_cached}
use fabric_simulator.Distributed.Wire.{Wire}
use fabric_simulator.Distributed.Types.{
  TransactionProposal, Endorsement, Transaction, RpcPeer, World,
}
use fabric_simulator.Distributed.Rpc.{
  sleep, fresh_rand, receiver, assign, peer_server, revocation_server, make_rpc_call,
  make_rpc_call_sync,
}
use fabric_simulator.Distributed.Proposal.{get_message}
use fabric_simulator.Distributed.Revocation.{get_pk}

unfoldable pub execute_chaincode : (c : Platform) → Exec (World c) Unit
execute_chaincode c = sleep c 50000000

module _ {c : Platform} (wire : Wire c) (p : SystemParameters c) where
  unfoldable pub make_rpc_peer : ℕ → c.Sk → Exec (World c) (RpcPeer c)
  make_rpc_peer id audit_sk = do
    prg ← fresh_rand c
    let (sk, pk, _) = c.generate_keys prg 0
    revocation_pk ← make_rpc_call_sync revocation_server [] (get_pk wire)
    pure (record {
      keys = record { pk = pk; sk = sk };
      id = id;
      cache = [];
      revocation_pk = wire.point_from_bytes revocation_pk;
      audit_sk = audit_sk;
      transactions = [];
    })

  -- the disclosed attribute that goes with a proposal
  unfoldable pub indices_of : TransactionProposal → List (ℕ × ℕ × c.Attribute)
  indices_of tp = (1, 1, wire.attribute_from_bytes tp.index_value) ∷ []

  -- one turn of the audit's loop
  unfoldable pub audit_transaction : RpcPeer c → Transaction → Exec (World c) Unit
  audit_transaction me tx =
      check
        (c.pk_equal (c.auditing_decrypt (wire.encryption_from_bytes tx.audit_enc) me.audit_sk)
          (wire.point_from_bytes tx.author_pk))
        audit_failed

  -- The reply is left at its zero value.
  unfoldable pub audit : Bytes → Exec (World c) Bool
  audit self = do
    me ← receiver self
    for_each me.transactions (audit_transaction me)
    assign self (λ peer. record peer { transactions = [] })
    pure false

  unfoldable pub validate_identity :
      Bytes → Bytes → c.Pk → List (ℕ × ℕ × c.Attribute) → Exec (World c) Unit
  validate_identity self proof pk_nym indices = do
    let key = cache_key (sha3 c proof)
    me ← receiver self
    if is_cached key me.cache then pure tt else do
      check (c.verify_proof (c.proof_from_bytes proof) p.root_pk p.ys p.h pk_nym indices)
          bad_identity
      assign self (λ peer. record peer { cache = peer.cache ++ key ∷ [] })

  -- The key is the one that the endorsement carries.
  unfoldable pub check_endorsement : c.Schnorr → Bytes → Endorsement → Exec (World c) Unit
  check_endorsement schnorr message e =
      check
        (c.schnorr_verify schnorr (wire.point_from_bytes e.pk) (wire.schnorr_from_bytes e.signature)
          message)
        bad_endorsement

  unfoldable pub validate : Bytes → Transaction → Exec (World c) Bool
  validate self tx = do
    let pk_nym = wire.point_from_bytes tx.proposal.pk_nym
    let message = get_message tx.proposal
    check (c.verify_nym (wire.nym_signature_from_bytes tx.signature) p.h pk_nym message)
        bad_nym_signature
    check (not (ltb (length tx.endorsements) p.endorsements)) too_few_endorsements
    prg ← fresh_rand c
    for_each tx.endorsements (check_endorsement (c.make_schnorr prg).0 message)
    validate_identity self tx.proposal.author pk_nym (indices_of tx.proposal)
    when p.audit (
        check
          (c.auditing_verify (wire.auditing_proof_from_bytes tx.audit_proof)
            (wire.encryption_from_bytes tx.audit_enc) pk_nym p.audit_pk p.h)
          bad_audit_proof)
    me ← receiver self
    when p.revoke (
        check
          (c.revocation_verify (wire.revocation_proof_from_bytes tx.non_revocation_proof) pk_nym
            (wire.big_of_int tx.epoch) p.h me.revocation_pk p.ys.1)
          bad_non_revocation_proof)
    execute_chaincode c
    assign self (λ peer. record peer { transactions = peer.transactions ++ tx ∷ [] })
    pure true

  -- An answer of another peer: no error, and `true`.
  unfoldable pub check_validated : Option Bool → Exec (World c) Unit
  check_validated answer = do
    validated ← require call_failed answer
    check validated validation_failed

  -- All calls are made before the first answer is looked at. The reply is left at its zero value.
  unfoldable pub order : Bytes → Transaction → Exec (World c) Bool
  order self tx = do
    validate_identity self tx.proposal.author (wire.point_from_bytes tx.proposal.pk_nym)
        (indices_of tx.proposal)
    answers ←
        collect p.peer_rpc_addresses
          (λ other. make_rpc_call (peer_server other) (validate other tx))
    for_each answers check_validated
    pure false

  unfoldable pub endorse : Bytes → TransactionProposal → Exec (World c) Endorsement
  endorse self tp = do
    let pk_nym = wire.point_from_bytes tp.pk_nym
    check (c.verify_nym (wire.nym_signature_from_bytes tp.signature) p.h pk_nym (get_message tp))
        bad_nym_signature
    validate_identity self tp.author pk_nym (indices_of tp)
    validate_identity self tp.author pk_nym (indices_of tp)
    execute_chaincode c
    prg ← fresh_rand c
    me ← receiver self
    let signature = c.schnorr_sign (c.make_schnorr prg).0 me.sk (get_message tp)
    pure (record {
      signature = wire.schnorr_to_bytes signature;
      pk = wire.point_to_bytes me.pk;
      id = me.id;
    })
