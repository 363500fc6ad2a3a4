-- ===== src/Distributed/Ledger/Transactions.antt =====
-- What a transaction, whole or in parts, does to the ledgers of the peers.
use fabric_simulator.Prelude.{ℕ, false, Option, List}
use fabric_simulator.Platform.{Platform, Bytes}
use fabric_simulator.Exec.Keeps.{
  Keeps, Keeps-check, Keeps-modify, Keeps-pure, Keeps-gets, Keeps-require, Keeps-if, Keeps-bind,
  Keeps-collect, keeps_rules,
}
use fabric_simulator.Params.{SystemParameters}
use fabric_simulator.Distributed.Wire.{Wire}
use fabric_simulator.Distributed.Types.{
  TransactionProposal, Endorsement, Transaction, User, World, NonRevocationRequest,
}
use fabric_simulator.Distributed.Rpc.{peer_server, revocation_server}
use fabric_simulator.Distributed.Proposal.{make_transaction_proposal}
use fabric_simulator.Distributed.Revocation as Authority
use fabric_simulator.Distributed.User.{
  update_nrh, accept_endorsement, prove_non_revocation, prove_auditing, build_transaction,
  send_transaction, send_proposal, submit_transaction,
}
use fabric_simulator.Distributed.Ledger.{
  LedgersSound, check_endorsement-Keeps, endorse-Keeps, fresh_rand-Keeps, make_rpc_call-Keeps,
  make_rpc_call_sync-Keeps, now-Keeps, order-Keeps, peer-ended, ticks-Keeps,
}

module _ {c : Platform} (wire : Wire c) (p : SystemParameters c) (authority_pk : c.Pk) where
  authority-receiver-Keeps : Keeps (LedgersSound wire p authority_pk) Authority.receiver
  unfolding Authority.receiver
  authority-receiver-Keeps = search keeps_rules

  process_nrr-Keeps :
      (nrr : NonRevocationRequest)
      → Keeps (LedgersSound wire p authority_pk) (Authority.process_nrr wire p nrr)
  unfolding Authority.process_nrr
  process_nrr-Keeps nrr = search (keeps_rules, fresh_rand-Keeps, authority-receiver-Keeps)

  get_epoch-Keeps : Keeps (LedgersSound wire p authority_pk) Authority.get_epoch
  unfolding Authority.get_epoch
  get_epoch-Keeps = Keeps-gets _

  update_nrh-Keeps :
      (late : ℕ) (user : User c)
      → Keeps (LedgersSound wire p authority_pk) (update_nrh wire p late user)
  unfolding update_nrh
  update_nrh-Keeps late user =
      Keeps-bind _ _
        ((make_rpc_call_sync-Keeps wire p authority_pk) revocation_server 0 _ (λ w h. h)
          get_epoch-Keeps)
        λ epoch. Keeps-if _ _ _ (Keeps-pure _) (
          Keeps-bind _ _ (Keeps-modify _ ((ticks-Keeps wire p authority_pk) late)) λ _.
            Keeps-bind _ _
              ((make_rpc_call_sync-Keeps wire p authority_pk) revocation_server _ _ (λ w h. h)
                (process_nrr-Keeps _))
              λ nrh.
                Keeps-bind _ _ (fresh_rand-Keeps wire p authority_pk)
                  λ prg. Keeps-bind _ _ (Keeps-check _ _) λ _. Keeps-pure _)

  make_transaction_proposal-Keeps :
      (hash : Bytes) (user : User c)
      → Keeps (LedgersSound wire p authority_pk) (make_transaction_proposal wire p hash user)
  unfolding make_transaction_proposal
  make_transaction_proposal-Keeps hash user = search (keeps_rules, fresh_rand-Keeps)

  prove_non_revocation-Keeps :
      (prg : c.Rand) (late : ℕ) (user : User c) (sk_nym : c.Sk)
      → Keeps (LedgersSound wire p authority_pk) (prove_non_revocation wire p prg late user sk_nym)
  unfolding prove_non_revocation
  prove_non_revocation-Keeps prg late user sk_nym = search (keeps_rules, update_nrh-Keeps)

  prove_auditing-Keeps :
      (prg : c.Rand) (user : User c) (pk_nym : c.Pk) (sk_nym : c.Sk)
      → Keeps (LedgersSound wire p authority_pk) (prove_auditing wire p prg user pk_nym sk_nym)
  unfolding prove_auditing
  prove_auditing-Keeps prg user pk_nym sk_nym = search (keeps_rules, fresh_rand-Keeps)

  build_transaction-Keeps :
      (prg : c.Rand) (late : ℕ) (user : User c) (proposal : TransactionProposal) (pk_nym : c.Pk)
      (sk_nym : c.Sk) (endorsements : List Endorsement)
      → Keeps
          (LedgersSound wire p authority_pk)
          (build_transaction wire p prg late user proposal pk_nym sk_nym endorsements)
  unfolding build_transaction
  build_transaction-Keeps prg late user proposal pk_nym sk_nym endorsements =
      search (keeps_rules, prove_non_revocation-Keeps, prove_auditing-Keeps)

  send_proposal-Keeps :
      (proposal : TransactionProposal) (endorser : ℕ)
      → Keeps (LedgersSound wire p authority_pk) (send_proposal wire p proposal endorser)
  unfolding send_proposal
  send_proposal-Keeps proposal endorser = Keeps-bind _ _ (Keeps-require _ _) λ address.
      (make_rpc_call-Keeps wire p authority_pk) (peer_server address) _
        ((peer-ended wire p authority_pk) address)
        ((endorse-Keeps wire p authority_pk) address proposal)

  accept_endorsement-Keeps :
      (schnorr : c.Schnorr) (message : Bytes) (answered : Option Endorsement)
      → Keeps
          (LedgersSound wire p authority_pk)
          (accept_endorsement wire p schnorr message answered)
  unfolding accept_endorsement
  accept_endorsement-Keeps schnorr message answered = search (keeps_rules, check_endorsement-Keeps)

  send_transaction-Keeps :
      (message : Bytes) (tx : Transaction)
      → Keeps (LedgersSound wire p authority_pk) (send_transaction wire p message tx)
  unfolding send_transaction
  send_transaction-Keeps message tx = Keeps-bind _ _ (Keeps-require _ _) λ orderer.
      Keeps-bind _ _ (Keeps-require _ _) λ address.
        Keeps-bind _ _
          ((make_rpc_call_sync-Keeps wire p authority_pk) (peer_server address) false _
            ((peer-ended wire p authority_pk) address)
            ((order-Keeps wire p authority_pk) address tx))
          λ _. Keeps-pure _

  submit_transaction-Keeps :
      (message : Bytes) (late : ℕ) (user : User c)
      → Keeps (LedgersSound wire p authority_pk) (submit_transaction wire p message late user)
  unfolding submit_transaction
  submit_transaction-Keeps message late user = Keeps-bind _ _ (now-Keeps wire p authority_pk) λ _.
      Keeps-bind _ _ (fresh_rand-Keeps wire p authority_pk) λ prg.
        Keeps-bind _ _ (Keeps-require _ _) λ first_endorser.
          Keeps-bind _ _ (make_transaction_proposal-Keeps _ user) λ t.
            Keeps-bind _ _ (Keeps-collect _ _ (send_proposal-Keeps t.0)) λ answers.
              Keeps-bind _ _ (Keeps-collect answers _ (accept_endorsement-Keeps _ _))
                λ endorsements.
                  Keeps-bind _ _ (build_transaction-Keeps _ late user _ _ _ endorsements) λ r.
                    Keeps-bind _ _ (send_transaction-Keeps message r.1)
                      λ _. Keeps-bind _ _ (now-Keeps wire p authority_pk) λ _. Keeps-pure _

  -- If every transaction in every peer's ledger has a valid signature, enough endorsements and the
  -- proofs that are asked for, under the key of the authority that all peers have, this is so after a
  -- whole user transaction, whether it completes or not.
  pub submit_transaction-LedgersSound :
      (message : Bytes) (late : ℕ) (user : User c) (w : World c)
      → LedgersSound wire p authority_pk w
      → LedgersSound wire p authority_pk (submit_transaction wire p message late user w).1
  submit_transaction-LedgersSound message late user w h =
      (submit_transaction-Keeps message late user).at w h
