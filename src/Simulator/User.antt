-- ===== src/Simulator/User.antt =====
-- simulator/user.go: a transaction from the user's side.
pub mod Endorsers
pub mod Epoch
pub mod Permits
use fabric_simulator.Prelude.{
  ℕ, zero, suc, ◌+◌, ◌%◌, ◌&&◌, Bool, true, false, Option, none, some, List, [], ◌∷◌, ◌++◌,
  get_elem?, ◌==◌, if◌then◌else◌,
}
use mathlib.Core.Bool.{not}
use fabric_simulator.Platform.{Platform, Bytes}
use fabric_simulator.Exec.{
  Exec, bad_endorsement, index_out_of_range, nil_dereference, division_by_zero, pure, gets, modify,
  check, require, ◌>>=◌, ◌>>◌, for_each, collect,
}
use fabric_simulator.Helpers.{codes, sha3, peer_by_hash}
use fabric_simulator.Params.{SystemParameters}
use fabric_simulator.Simulator.Counter.{
  sha3hash, verify_schnorr, sign_nym, non_revoke_prove, audit_encrypt, audit_prove,
  record_transaction_timing_info,
}
use fabric_simulator.Simulator.Types.{
  User, Peer, TransactionProposal, Endorsement, Transaction, Network, World,
}
use fabric_simulator.Simulator.Env.{now, fresh_rand, event}
use fabric_simulator.Simulator.Proposal.{get_message, make_transaction_proposal}
use fabric_simulator.Simulator.Peer.{receive_endorsement, receive_ordering, check_endorsement}
use fabric_simulator.Simulator.Revocation.{request_non_revocation}

-- `endorsers[peer] = (endorser + peer) % sysParams.Peers`, from the given `peer` on.
unfoldable pub endorsers_from : ℕ → ℕ → ℕ → ℕ → List ℕ
endorsers_from endorser peers peer zero = []
endorsers_from endorser peers peer (suc left) =
    ((endorser + peer) % peers) ∷ endorsers_from endorser peers (suc peer) left

unfoldable pub select_endorsers : ℕ → ℕ → ℕ → List ℕ
unfolding endorsers_from
select_endorsers endorser peers endorsements = endorsers_from endorser peers 0 endorsements

module _ {c : Platform} (p : SystemParameters c) (net : Network c) where
  -- The proposal goes to one endorser, which answers.
  unfoldable pub send_proposal : TransactionProposal c → ℕ → Exec (World c) (Endorsement c)
  send_proposal proposal endorser = do
    peer ← require index_out_of_range (get_elem? net.peers endorser)
    receive_endorsement p peer proposal

  -- An endorsement that came back is verified and counted.
  unfoldable pub accept_endorsement : c.Schnorr → Bytes → Endorsement c → Exec (World c) Unit
  accept_endorsement schnorr message e = do
    check_endorsement p net.peers schnorr message e
    event c verify_schnorr

  -- A new handle, if the network is in another epoch than the user.
  unfoldable pub update_epoch : ℕ → User c → Exec (World c) (User c)
  update_epoch late user = do
    epoch ← gets (λ w. w.epoch)
    if p.revoke && not (user.epoch == epoch)
        then request_non_revocation p net late (record user { epoch = epoch })
        else pure user

  -- The proofs that the flags ask for take the transaction's generator and pass it on.
  unfoldable pub prove_non_revocation :
      c.Rand → User c → c.Sk → Exec (World c) (Option c.RevocationProof × c.Rand)
  prove_non_revocation prg user sk_nym =
      if p.revoke
      then (do
        handle ← require nil_dereference user.non_revocation_handler
        let (proof, prg₁) = c.revocation_prove prg handle user.sk sk_nym user.epoch p.h p.ys.0
        event c non_revoke_prove
        pure (some proof, prg₁))
      else pure (none, prg)

  unfoldable pub prove_auditing :
      c.Rand
      → User c
      → c.Pk
      → c.Sk
      → Exec (World c) (Option c.AuditingEncryption × Option c.AuditingProof)
  prove_auditing prg user pk_nym sk_nym =
      if p.audit
      then (do
        prg' ← fresh_rand c
        let (enc, r, _) = c.auditing_encrypt prg' net.auditor.pk user.pk
        event c audit_encrypt
        let proof = (c.auditing_prove prg enc user.pk user.sk pk_nym sk_nym net.auditor.pk r p.h).0
        event c audit_prove
        pure (some enc, some proof))
      else pure (none, none)

  unfoldable pub record_transaction : Transaction c → Exec (World c) Unit
  record_transaction tx = modify (λ w. record w { transactions = w.transactions ++ tx ∷ [] })

  -- From the endorsements on: the epoch, the signed transaction and its proofs.
  unfoldable pub build_transaction :
      c.Rand
      → ℕ
      → User c
      → TransactionProposal c
      → c.Pk
      → c.Sk
      → List (Endorsement c)
      → Exec (World c) (User c × Transaction c)
  build_transaction prg late user proposal pk_nym sk_nym endorsements = do
    user' ← update_epoch late user
    let (signature, prg₁) = c.sign_nym prg pk_nym sk_nym user.sk p.h (get_message proposal)
    event c sign_nym
    (non_revocation_proof, prg₂) ← prove_non_revocation prg₁ user' sk_nym
    (audit_enc, audit_proof) ← prove_auditing prg₂ user' pk_nym sk_nym
    pure (
      user',
      record {
        signature = signature;
        proposal = proposal;
        audit_proof = audit_proof;
        audit_enc = audit_enc;
        endorsements = endorsements;
        non_revocation_proof = non_revocation_proof;
        epoch = user'.epoch;
        orderer = 0;
      },
    )

  -- The orderer is chosen by the hash of the message with a suffix, and writes its id into the
  -- transaction.
  unfoldable pub send_transaction : Bytes → Transaction c → Exec (World c) (Transaction c)
  send_transaction message tx = do
    orderer ← require division_by_zero (peer_by_hash (sha3 c (message ++ codes "-order")) p.peers)
    event c sha3hash
    peer ← require index_out_of_range (get_elem? net.peers orderer)
    receive_ordering p net peer tx

  -- `late` ticks of the epoch timer come between the user's reading of the epoch and the grant.
  -- The user with its new epoch and handle is returned.
  unfoldable pub submit_transaction : Bytes → ℕ → User c → Exec (World c) (User c)
  submit_transaction message late user = do
    start ← now c
    prg ← fresh_rand c
    let hash = sha3 c message
    event c sha3hash
    endorser ← require division_by_zero (peer_by_hash (sha3 c message) p.peers)
    event c sha3hash
    let endorsers = select_endorsers endorser p.peers p.endorsements
    (proposal, pk_nym, sk_nym) ← make_transaction_proposal p hash user
    endorsements_start ← now c
    endorsements ← collect endorsers (send_proposal proposal)
    let (schnorr, prg₁) = c.make_schnorr prg
    for_each endorsements (accept_endorsement schnorr (get_message proposal))
    endorsements_end ← now c
    (user', tx) ← build_transaction prg₁ late user proposal pk_nym sk_nym endorsements
    validation_start ← now c
    ordered ← send_transaction message tx
    validation_end ← now c
    end ← now c
    modify (λ w. record w {
      transaction_timings =
          record_transaction_timing_info
            (record {
              start = start;
              end = end;
              endorsements_start = endorsements_start;
              endorsements_end = endorsements_end;
              validation_start = validation_start;
              validation_end = validation_end;
            })
            w.transaction_timings;
    })
    record_transaction ordered
    pure user'
