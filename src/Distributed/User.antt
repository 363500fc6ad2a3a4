-- ===== src/Distributed/User.antt =====
-- distributed/user.go: the user's process.
pub mod Lost
pub mod Stale
use fabric_simulator.Prelude.{
  ℕ, ℤ, pos, negsuc, is_nat, zero, suc, Bool, true, false, Option, none, some, List, [], ◌∷◌, ◌++◌,
  get_elem?, ltb, if◌then◌else◌,
}
use fabric_simulator.Platform.{Platform, Bytes}
use fabric_simulator.Exec.{
  Exec, bad_credentials, bad_endorsement, bad_handle, call_failed, index_out_of_range,
  nil_dereference, division_by_zero, pure, gets, modify, check, require, when, ◌>>=◌, ◌>>◌,
  for_each, collect,
}
use fabric_simulator.Helpers.{codes, sha3, peer_by_hash, random_string}
use fabric_simulator.Params.{SystemParameters}
use fabric_simulator.Simulator.User.{select_endorsers}
use fabric_simulator.Distributed.Wire.{Wire}
use fabric_simulator.Distributed.Types.{TransactionProposal, Endorsement, Transaction, User, World}
use fabric_simulator.Distributed.Rpc.{
  now, sleep, fresh_rand, peer_server, organization_server, revocation_server, make_rpc_call,
  make_rpc_call_sync,
}
use fabric_simulator.Distributed.Proposal.{get_message, make_transaction_proposal}
use fabric_simulator.Distributed.Peer.{check_endorsement, endorse, order}
use fabric_simulator.Distributed.Issuer.{user_level, get_nonce, organization_process_cred_request}
use fabric_simulator.Distributed.Revocation.{ticks, get_epoch, get_pk, process_nrr}

module _ {c : Platform} (wire : Wire c) (p : SystemParameters c) where
  -- `late` ticks of the authority's timer come between the two calls.
  unfoldable pub update_nrh : ℕ → User c → Exec (World c) (User c)
  update_nrh late user = do
    epoch ← make_rpc_call_sync revocation_server 0 get_epoch
    if is_nat user.epoch epoch then pure user else do
      modify (ticks late)
      nrh ←
          make_rpc_call_sync revocation_server (record { handle = [] })
            (process_nrr wire p (record { pk = wire.point_to_bytes user.revocation_pk }))
      let handle = wire.groth_from_bytes nrh.handle
      prg ← fresh_rand c
      check
          (wire.groth_verify prg p.ys.1 user.revocation_authority_pk handle user.revocation_pk
            (wire.big_of_int (pos epoch)))
          bad_handle
      pure (record user { epoch = pos epoch; nrh = some handle })

  -- An answer of an endorser is an endorsement, and its signature verifies.
  unfoldable pub accept_endorsement :
      c.Schnorr → Bytes → Option Endorsement → Exec (World c) Endorsement
  accept_endorsement schnorr message answer = do
    endorsement ← require call_failed answer
    check_endorsement wire p schnorr message endorsement
    pure endorsement

  -- `if sysParams.Revoke`: the user with its handle, and the proof.
  unfoldable pub prove_non_revocation :
      c.Rand → ℕ → User c → c.Sk → Exec (World c) (User c × Bytes × c.Rand)
  prove_non_revocation prg late user sk_nym =
      if p.revoke
      then (do
        user' ← update_nrh late user
        handle ← require nil_dereference user'.nrh
        let (proof, prg₁) =
            c.revocation_prove prg handle user'.creds.sk sk_nym (wire.big_of_int user'.epoch) p.h
              p.ys.0
        pure (user', wire.revocation_proof_to_bytes proof, prg₁))
      else pure (user, [], prg)

  -- `if sysParams.Audit`: the encryption and the proof.
  unfoldable pub prove_auditing : c.Rand → User c → c.Pk → c.Sk → Exec (World c) (Bytes × Bytes)
  prove_auditing prg user pk_nym sk_nym =
      if p.audit
      then (do
        prg' ← fresh_rand c
        let (enc, r, _) = c.auditing_encrypt prg' p.audit_pk user.creds.pk
        let proof =
            (c.auditing_prove prg enc user.creds.pk user.creds.sk pk_nym sk_nym p.audit_pk r p.h).0
        pure (wire.encryption_to_bytes enc, wire.auditing_proof_to_bytes proof))
      else pure ([], [])

  -- The epoch in the transaction is the user's before its handle is brought up to date.
  unfoldable pub build_transaction :
      c.Rand
      → ℕ
      → User c
      → TransactionProposal
      → c.Pk
      → c.Sk
      → List Endorsement
      → Exec (World c) (User c × Transaction)
  build_transaction prg late user proposal pk_nym sk_nym endorsements = do
    let (signature, prg₁) = c.sign_nym prg pk_nym sk_nym user.creds.sk p.h (get_message proposal)
    (user', non_revocation_proof, prg₂) ← prove_non_revocation prg₁ late user sk_nym
    (audit_enc, audit_proof) ← prove_auditing prg₂ user' pk_nym sk_nym
    pure (
      user',
      record {
        signature = c.nym_signature_to_bytes signature;
        proposal = proposal;
        audit_proof = audit_proof;
        audit_enc = audit_enc;
        endorsements = endorsements;
        non_revocation_proof = non_revocation_proof;
        epoch = user.epoch;
        author_pk = wire.point_to_bytes user.creds.pk;
      },
    )

  -- Neither the call's error nor its reply is looked at.
  unfoldable pub send_transaction : Bytes → Transaction → Exec (World c) Unit
  send_transaction message tx = do
    orderer ← require division_by_zero (peer_by_hash (sha3 c (message ++ codes "-order")) p.peers)
    address ← require index_out_of_range (get_elem? p.peer_rpc_addresses orderer)
    make_rpc_call_sync (peer_server address) false (order wire p address tx) >> pure tt

  -- The proposal goes to one endorser.
  unfoldable pub send_proposal : TransactionProposal → ℕ → Exec (World c) (Option Endorsement)
  send_proposal proposal endorser = do
    address ← require index_out_of_range (get_elem? p.peer_rpc_addresses endorser)
    make_rpc_call (peer_server address) (endorse wire p address proposal)

  unfoldable pub submit_transaction : Bytes → ℕ → User c → Exec (World c) (User c)
  submit_transaction message late user = do
    now c
    prg ← fresh_rand c
    let hash = sha3 c message
    first_endorser ← require division_by_zero (peer_by_hash (sha3 c message) p.peers)
    let endorsers = select_endorsers first_endorser p.peers p.endorsements
    (proposal, pk_nym, sk_nym) ← make_transaction_proposal wire p hash user
    let (schnorr, prg₁) = c.make_schnorr prg
    answers ← collect endorsers (send_proposal proposal)
    endorsements ← collect answers (accept_endorsement schnorr (get_message proposal))
    (user', tx) ← build_transaction prg₁ late user proposal pk_nym sk_nym endorsements
    send_transaction message tx
    now c
    pure user'

  -- A turn of runTransactions: the nanoseconds of the random sleep, and the ticks of `update_nrh`.
  -- The user is a pointer here: the next turn has what this one left.
  unfoldable pub run_transactions : List (ℕ × ℕ) → User c → Exec (World c) (User c)
  run_transactions [] user = pure user
  run_transactions ((pause, late) ∷ turns) user = do
    when (ltb 0 p.frequency) (sleep c pause)
    prg ← fresh_rand c
    user' ← submit_transaction (random_string c 16 prg).0 late user
    run_transactions turns user'

  -- MakeUser, up to the transactions that it runs.
  unfoldable pub enroll_user : (ℕ → Bytes) → c.Rand → ℕ → Exec (World c) (User c)
  enroll_user show prg id = do
    let (sk, pk, prg₁) = c.generate_keys prg user_level
    nonce ← make_rpc_call_sync organization_server [] (get_nonce c)
    let request = (c.make_cred_request prg₁ sk nonce user_level).0
    creds ←
        make_rpc_call_sync organization_server (record { creds = [] })
          (organization_process_cred_request wire p show
            (record { request = c.cred_request_to_bytes request; id = id }))
    let credentials = c.credentials_from_bytes creds.creds
    check (c.credentials_verify credentials sk p.root_pk p.ys) bad_credentials
    revocation_pk ← make_rpc_call_sync revocation_server [] (get_pk wire)
    pure (record {
      creds = record { keys = record { pk = pk; sk = sk }; credentials = credentials; id = id };
      epoch = negsuc 0;
      nrh = none;
      revocation_authority_pk = wire.point_from_bytes revocation_pk;
      revocation_pk = c.ecp_mul sk;
    })

  unfoldable pub make_user : (ℕ → Bytes) → c.Rand → ℕ → List (ℕ × ℕ) → Exec (World c) (User c)
  make_user show prg id turns = do user ← enroll_user show prg id; run_transactions turns user
