-- ===== src/Simulator/Peer.antt =====
-- simulator/peer.go: what a peer does with a proposal and with a transaction.
pub mod Identity
pub mod Validation
use fabric_simulator.Prelude.{
  ℕ, zero, suc, ◌+◌, ◌*◌, Bool, true, false, ◌&&◌, ◌||◌, Option, none, some, List, [], ◌∷◌, ◌++◌,
  length, get_elem?, replicate, ltb, ◌==◌, if◌then◌else◌,
}
use mathlib.Core.Logic.{ite}
use mathlib.Core.Bool.{not}
use fabric_simulator.Platform.{Platform, Bytes}
use fabric_simulator.Exec.{
  Exec, bad_nym_signature, too_few_endorsements, bad_endorsement, bad_identity, bad_audit_proof,
  bad_non_revocation_proof, index_out_of_range, nil_dereference, pure, gets, modify, check, require,
  when, acquire, ◌>>=◌, ◌>>◌, for_each,
}
use fabric_simulator.Helpers.{sha3}
use fabric_simulator.Params.{SystemParameters}
use fabric_simulator.Simulator.Counter.{
  sha3hash, cred_verify, verify_nym, verify_schnorr, sign_schnorr, audit_verify, non_revoke_verify,
}
use fabric_simulator.Simulator.Types.{
  Party, Operation, endorsing, ordering, verification, Operation-discrete, ObjectName, Peer,
  TransactionProposal, Endorsement, Transaction, Network, World,
}
use fabric_simulator.Simulator.Env.{fresh_rand, event, sleep}
use fabric_simulator.Simulator.Bandwidth.{certificate_size, record_bandwidth}
use fabric_simulator.Simulator.Proposal.{get_message, proposal_size}

abbrev pub take : ℕ → Bytes → Bytes
take zero bs = []
take (suc n) [] = []
take (suc n) (b ∷ bs) = b ∷ take n bs

-- `var key [32]byte; copy(key[:], hash[:4])`
unfoldable pub cache_key : Bytes → Bytes
cache_key hash = take 4 hash ++ replicate 28 0

unfoldable pub bytes_equal : Bytes → Bytes → Bool
bytes_equal [] [] = true
bytes_equal (a ∷ as') (b ∷ bs) = a == b && bytes_equal as' bs
bytes_equal _ _ = false

unfoldable pub is_cached : Bytes → List Bytes → Bool
unfolding bytes_equal
is_cached key [] = false
is_cached key (cached ∷ rest) = bytes_equal cached key || is_cached key rest

-- 50 ms
abbrev pub chaincode_time : ℕ
chaincode_time = 50000000

unfoldable pub endorsement_size : ℕ
endorsement_size = 5 * 32 + certificate_size

-- The caches after `key` is appended to one of them.
unfoldable pub add_key :
    (ℕ → Operation → List Bytes) → ℕ → Operation → Bytes → ℕ → Operation → List Bytes
add_key caches id op key i o =
    if id == i
    then ite (Operation-discrete op o) (caches i o ++ key ∷ []) (caches i o)
    else caches i o

module _ {c : Platform} (p : SystemParameters c) where
  -- `none` is the panic on the first of no endorsements.
  unfoldable pub transaction_size : Transaction c → Option ℕ
  unfolding proposal_size
  transaction_size tx = elim tx.endorsements [
    | [] ↦ none
    | e ∷ es ↦ some (
        length (c.nym_signature_to_bytes tx.signature)
        + proposal_size tx.proposal
        + (if p.audit then 4 * 32 + 2 * 4 * 32 else 0)
        + length (e ∷ es) * endorsement_size
        + (if p.revoke then 3 * 32 + 3 * (1 + 2 * 32) + 4 * 32 + 4 else 0))
  ]

  -- The identity behind a marshalled proof, looked up by four bytes of the proof's hash.
  unfoldable pub validate_identity :
      ℕ → Bytes → c.Pk → List (ℕ × ℕ × c.Attribute) → Operation → Exec (World c) Unit
  validate_identity id proof pk_nym indices op = do
    let key = cache_key (sha3 c proof)
    event c sha3hash
    caches ← gets (λ w. w.caches)
    if is_cached key (caches id op) then pure tt else do
      check (c.verify_proof (c.proof_from_bytes proof) p.root_pk p.ys p.h pk_nym indices)
          bad_identity
      event c cred_verify
      modify (λ w. record w { caches = add_key w.caches id op key })

  unfoldable pub execute_chaincode : Exec (World c) Unit
  execute_chaincode = sleep c chaincode_time

  unfoldable pub endorse : Peer c → TransactionProposal c → Exec (World c) (Endorsement c)
  endorse peer tp = do
    check (c.verify_nym tp.signature p.h tp.pk_nym (get_message tp)) bad_nym_signature
    event c verify_nym
    validate_identity peer.id tp.author tp.pk_nym tp.indices endorsing
    validate_identity peer.id tp.author tp.pk_nym tp.indices endorsing
    execute_chaincode
    prg ← fresh_rand c
    let signature = c.schnorr_sign (c.make_schnorr prg).0 peer.sk (get_message tp)
    event c sign_schnorr
    record_bandwidth p (Party.peer peer.id) (Party.user tp.author_id) ObjectName.endorsement
        endorsement_size
    pure (record { signature = signature; endorser = peer.id })

  -- one turn of the loop over tx.endorsements
  unfoldable pub check_endorsement :
      List (Peer c) → c.Schnorr → Bytes → Endorsement c → Exec (World c) Unit
  check_endorsement peers schnorr message e = do
    endorser ← require index_out_of_range (get_elem? peers e.endorser)
    check (c.schnorr_verify schnorr endorser.pk e.signature message) bad_endorsement

  unfoldable pub validate : Network c → Peer c → Transaction c → Exec (World c) Unit
  validate net peer tx = do
    let message = get_message tx.proposal
    check (c.verify_nym tx.signature p.h tx.proposal.pk_nym message) bad_nym_signature
    event c verify_nym
    check (not (ltb (length tx.endorsements) p.endorsements)) too_few_endorsements
    prg ← fresh_rand c
    for_each tx.endorsements (check_endorsement net.peers (c.make_schnorr prg).0 message)
    event c verify_schnorr
    validate_identity peer.id tx.proposal.author tx.proposal.pk_nym tx.proposal.indices verification
    when p.audit (do
      proof ← require nil_dereference tx.audit_proof
      enc ← require nil_dereference tx.audit_enc
      check (c.auditing_verify proof enc tx.proposal.pk_nym net.auditor.pk p.h) bad_audit_proof
      event c audit_verify)
    when p.revoke (do
      proof ← require nil_dereference tx.non_revocation_proof
      check
          (c.revocation_verify proof tx.proposal.pk_nym tx.epoch p.h net.revocation_authority.pk
            p.ys.1)
          bad_non_revocation_proof
      event c non_revoke_verify)
    execute_chaincode

  -- `run`, on a message of each channel: the transfer is recorded, a permit of the semaphore taken,
  -- and the handler started.
  unfoldable pub receive_endorsement :
      Peer c → TransactionProposal c → Exec (World c) (Endorsement c)
  receive_endorsement peer tp = do
    record_bandwidth p (Party.user tp.author_id) (Party.peer peer.id)
        ObjectName.transaction_proposal (proposal_size tp)
    acquire p.concurrent_endorsements
    endorse peer tp

  unfoldable pub receive_validation : Network c → Peer c → Transaction c → Exec (World c) Unit
  receive_validation net peer tx = do
    when (not (tx.orderer == peer.id)) (do
      size ← require index_out_of_range (transaction_size tx)
      record_bandwidth p (Party.peer tx.orderer) (Party.peer peer.id) ObjectName.transaction size)
    acquire p.concurrent_validations
    validate net peer tx

  -- Every peer, the orderer too, is sent the transaction with the orderer's id in it. The id is written
  -- through the pointer that the user holds as well: the transaction with it is the result.
  unfoldable pub order : Network c → Peer c → Transaction c → Exec (World c) (Transaction c)
  order net peer tx = do
    validate_identity peer.id tx.proposal.author tx.proposal.pk_nym tx.proposal.indices ordering
    let ordered = record tx { orderer = peer.id }
    for_each net.peers (λ other. receive_validation net other ordered)
    pure ordered

  unfoldable pub receive_ordering :
      Network c → Peer c → Transaction c → Exec (World c) (Transaction c)
  receive_ordering net peer tx = do
    size ← require index_out_of_range (transaction_size tx)
    record_bandwidth p (Party.user tx.proposal.author_id) (Party.peer peer.id)
        ObjectName.transaction size
    order net peer tx
