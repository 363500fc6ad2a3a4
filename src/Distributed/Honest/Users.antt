-- ===== src/Distributed/Honest/Users.antt =====
-- What an honest user makes: its proposal, and its transaction from the endorsements.
use fabric_simulator.Prelude.{
  ℕ, zero, suc, ℤ, pos, is_nat, ◌≡◌, ◌≢◌, ◌≤◌, ◌<◌, ◌∙◌, refl, ap, Bool, true, false, Option, some,
  List, [], ◌∷◌, length, get_elem?, get_elem?_within, arith,
}
use fabric_simulator.Platform.{Platform, Bytes}
use fabric_simulator.Exec.Returns.{
  Returns, Any, Returns-check, Returns-pure, Returns-gets, Returns-if, Returns-require,
  Returns-bind,
}
use fabric_simulator.Helpers.Bounds.{All}
use fabric_simulator.Params.{SystemParameters}
use fabric_simulator.Simulator.Peer.Identity.{bytes_equal_refl}
use fabric_simulator.Simulator.Honest.{Complete}
use fabric_simulator.Distributed.Wire.{Wire}
use fabric_simulator.Distributed.Wire.Laws.{Faithful}
use fabric_simulator.Distributed.Types.{TransactionProposal, Endorsement, Transaction, User, World}
use fabric_simulator.Distributed.Rpc.{peer_server, revocation_server}
use fabric_simulator.Distributed.Revocation.{get_epoch}
use fabric_simulator.Distributed.Proposal.{get_message, make_transaction_proposal}
use fabric_simulator.Distributed.Peer.{indices_of, check_endorsement}
use fabric_simulator.Distributed.User.{
  update_nrh, accept_endorsement, prove_non_revocation, prove_auditing, build_transaction,
  send_proposal,
}
use fabric_simulator.Distributed.Honest.{listed, Up, fresh_rand-Returns}
use fabric_simulator.Distributed.Honest.Peers.{
  ValidProposal, GoodEndorsement, ValidTransaction, endorse-Returns,
}
use fabric_simulator.Distributed.Honest.Orders.{
  peer-IsUp, make_rpc_call-Returns, make_rpc_call_sync-Returns,
}

-- What stands at an index of a list is in it.
pub listed-at :
    (addresses : List Bytes) (i : ℕ) (a : Bytes)
    → get_elem? addresses i ≡ some a
    → listed a addresses ≡ true
unfolding listed
listed-at [] i a h = cc
listed-at (b ∷ addresses) zero a h = ground (arith, h, bytes_equal_refl a)
listed-at (b ∷ addresses) (suc i) a h = ground (arith, listed-at addresses i a h)

-- The authority's keys are made with `made_with`, those of the auditor with `auditor_prg`.
module _ {c : Platform} (wire : Wire c) (p : SystemParameters c) (made_with : c.Rand) (k : ℕ) where
  abbrev pub authority_sk : c.Sk
  authority_sk = (c.groth_generate made_with p.ys.1).0

  abbrev pub authority_pk : c.Pk
  authority_pk = (c.groth_generate made_with p.ys.1).1

  -- A user with its own credentials, and with the authority's handle for the epoch if epochs are in use.
  pub record HonestUser (user : User c) : Type 0 where
    pub credentials_hold :
        c.credentials_verify user.creds.credentials user.creds.sk p.root_pk p.ys ≡ true
    pub current :
        p.revoke ≡ true
        → (user.epoch ≡ pos k)
          × (prg : c.Rand) × (user.nrh
              ≡ some (c.sign_non_revoke prg authority_sk (c.ecp_mul user.creds.sk) k p.ys.1))

  module _ (laws : Complete c) (faithful : Faithful wire) (ledgers : Bytes → List Transaction)
      (user : User c) (member : HonestUser user) where
    abbrev Alive : World c → Type 0
    Alive = Up p authority_pk ledgers k

    -- A proposal of this user under a pseudonym of its own.
    pub record Own (t : TransactionProposal × c.Pk × c.Sk) : Type 0 where
      pub prg : c.Rand
      pub sk_made : t.2 ≡ (c.generate_nym_keys prg user.creds.sk p.h).0
      pub pk_made : t.1 ≡ (c.generate_nym_keys prg user.creds.sk p.h).1
      pub same_pk : wire.point_from_bytes t.0.pk_nym ≡ t.1
      pub valid : ValidProposal wire p authority_pk t.0

    pub make_transaction_proposal-Returns :
        (hash : Bytes) → Returns Alive (make_transaction_proposal wire p hash user) Own
    unfolding make_transaction_proposal indices_of get_message
    make_transaction_proposal-Returns hash =
        Returns-bind Any (fresh_rand-Returns p authority_pk ledgers k) λ prg _.
          let (proof, proved, verified) =
            laws.shown prg (c.generate_nym_keys prg user.creds.sk p.h).2 user.creds.credentials
              user.creds.sk p.root_pk p.ys p.h member.credentials_hold in
          Returns-bind (λ x. x ≡ proof) (Returns-require _ _ proof proved)
            λ x e. Returns-pure Own _ (record {
              prg = prg;
              sk_made = refl;
              pk_made = refl;
              same_pk = faithful.point _;
              valid = record {
                signed =
                    rw (faithful.point, faithful.nym_signature)
                      (laws.nym prg _ user.creds.sk p.h _);
                identified = rw (faithful.point, faithful.attribute, e) verified;
              };
            })

    pub send_proposal-Returns :
        length p.peer_rpc_addresses ≡ p.peers
        → (proposal : TransactionProposal) (endorser : ℕ)
        → ValidProposal wire p authority_pk proposal
        → endorser < p.peers
        → Returns Alive (send_proposal wire p proposal endorser) (λ answer.
          (e : Endorsement) × (answer ≡ some e)
          × GoodEndorsement wire p authority_pk (get_message proposal) e)
    unfolding send_proposal
    send_proposal-Returns count proposal endorser valid lt =
        let (a, at) = get_elem?_within p.peer_rpc_addresses endorser (omega arith) in
        let here = listed-at p.peer_rpc_addresses endorser a at in
        Returns-bind (λ x. x ≡ a) (Returns-require _ _ a at)
          λ x e. rw (e) (
            make_rpc_call-Returns (peer_server a) _ _
              (peer-IsUp wire p authority_pk k ledgers a here)
              (endorse-Returns wire p authority_pk ledgers k a here laws faithful proposal valid))

    pub accept_endorsement-Returns :
        (prg : c.Rand) (message : Bytes) (answer : Option Endorsement)
        → (e : Endorsement) × (answer ≡ some e) × GoodEndorsement wire p authority_pk message e
        → Returns Alive
            (accept_endorsement wire p (c.make_schnorr prg).0 message answer)
            (GoodEndorsement wire p authority_pk message)
    unfolding accept_endorsement check_endorsement
    accept_endorsement-Returns prg message answer (e, got, good) =
        Returns-bind (λ x. x ≡ e) (Returns-require _ _ e got)
          λ x q.
            Returns-bind Any (Returns-check _ _ (rw (q) (good prg)))
              λ _ _. Returns-pure _ _ (rw (q) good)

    -- The handle is up to date, and stays.
    update_nrh-Returns :
        (late : ℕ)
        → user.epoch ≡ pos k
        → Returns Alive (update_nrh wire p late user) (λ u. u ≡ user)
    unfolding update_nrh get_epoch
    update_nrh-Returns late current =
        Returns-bind (λ x. x ≡ k)
          (make_rpc_call_sync-Returns revocation_server 0 _ (λ x. x ≡ k)
            (λ w h. rw (h.authority.1) refl) (Returns-gets (λ x. x ≡ k) _ (λ w h. h.epoch)))
          λ epoch e.
            Returns-if (λ u. u ≡ user) (is_nat user.epoch epoch) _ _ (λ _. Returns-pure _ user refl)
              (λ behind.
                absurd (never (is_nat user.epoch epoch) behind (rw (current, e) (is_nat_refl k))))
      where
        never : (b : Bool) → b ≡ false → b ≢ true
        never b h g = cc

        is_nat_refl : (n : ℕ) → is_nat (pos n) n ≡ true
        is_nat_refl n = ground arith

    module _ {t : TransactionProposal × c.Pk × c.Sk} (own : Own t) where
      unrevoked_at :
          (prg₂ prg₃ : c.Rand) (handle : c.GrothSignature) (z : ℤ)
          → handle ≡ c.sign_non_revoke prg₂ authority_sk (c.ecp_mul user.creds.sk) k p.ys.1
          → z ≡ pos k
          → c.revocation_verify
              (wire.revocation_proof_from_bytes (
                wire.revocation_proof_to_bytes
                  (c.revocation_prove prg₃ handle user.creds.sk t.2
                    (wire.big_of_int z)
                    p.h
                    p.ys.0).0))
              (wire.point_from_bytes t.0.pk_nym)
              (wire.big_of_int z)
              p.h
              authority_pk
              p.ys.1
            ≡ true
      unrevoked_at prg₂ prg₃ handle z e f =
          rw (faithful.revocation_proof, e, f, faithful.big, own.same_pk, own.sk_made, own.pk_made)
            (laws.unrevoked own.prg made_with prg₂ prg₃ user.creds.sk k p.h p.ys)

      prove_non_revocation-Returns :
          (prg : c.Rand) (late : ℕ)
          → Returns Alive (prove_non_revocation wire p prg late user t.2) (λ r.
            (r.0 ≡ user)
            × (p.revoke ≡ true
                → c.revocation_verify
                    (wire.revocation_proof_from_bytes r.1)
                    (wire.point_from_bytes t.0.pk_nym)
                    (wire.big_of_int user.epoch)
                    p.h
                    authority_pk
                    p.ys.1
                  ≡ true))
      unfolding prove_non_revocation
      prove_non_revocation-Returns prg late =
          Returns-if _ p.revoke _ _
            (λ on.
              let (current, prg₂, e) = member.current on in
              Returns-bind (λ u. u ≡ user) (update_nrh-Returns late current)
                λ u q.
                  Returns-bind (λ x. x ≡ _) (Returns-require _ _ _ (ap (λ v. v.nrh) q ∙ e))
                    λ handle g.
                      Returns-pure _ _
                        (q, λ _. rw (q) (unrevoked_at prg₂ prg handle user.epoch g current)))
            (λ off. Returns-pure _ _ (refl, λ on. cc))

      audited_at :
          (prg₂ prg₃ : c.Rand) (auditor_prg : c.Rand) (pk : c.Pk)
          → p.audit_pk ≡ (c.generate_keys auditor_prg 2).1
          → let (enc, r, _) = c.auditing_encrypt prg₂ p.audit_pk pk in
            c.auditing_verify
              (wire.auditing_proof_from_bytes (
                wire.auditing_proof_to_bytes
                  (c.auditing_prove prg₃ enc pk user.creds.sk t.1 t.2 p.audit_pk r p.h).0))
              (wire.encryption_from_bytes (wire.encryption_to_bytes enc))
              (wire.point_from_bytes t.0.pk_nym)
              p.audit_pk
              p.h
            ≡ true
      audited_at prg₂ prg₃ auditor_prg pk e =
          rw
            (faithful.auditing_proof, faithful.encryption, e, own.same_pk, own.sk_made, own.pk_made)
            (laws.audited own.prg auditor_prg prg₂ prg₃ user.creds.sk pk p.h)

      prove_auditing-Returns :
          (auditor_prg : c.Rand)
          → p.audit_pk ≡ (c.generate_keys auditor_prg 2).1
          → (prg : c.Rand) (u : User c) → u ≡ user
          → Returns Alive (prove_auditing wire p prg u t.1 t.2) (λ r.
            p.audit ≡ true
            → c.auditing_verify
                (wire.auditing_proof_from_bytes r.1)
                (wire.encryption_from_bytes r.0)
                (wire.point_from_bytes t.0.pk_nym)
                p.audit_pk
                p.h
              ≡ true)
      unfolding prove_auditing
      prove_auditing-Returns auditor_prg made prg u q =
          Returns-if _ p.audit _ _
            (λ on. Returns-bind Any (fresh_rand-Returns p authority_pk ledgers k) λ prg₂ _.
              Returns-pure _ _ (λ _. rw (q) (audited_at prg₂ prg auditor_prg user.creds.pk made)))
            (λ off. Returns-pure _ _ (λ on. cc))

      signed_at :
          (prg : c.Rand) (message : Bytes)
          → c.verify_nym
              (wire.nym_signature_from_bytes
                (c.nym_signature_to_bytes (c.sign_nym prg t.1 t.2 user.creds.sk p.h message).0))
              p.h
              (wire.point_from_bytes t.0.pk_nym)
              message
            ≡ true
      signed_at prg message =
          rw (faithful.nym_signature, own.same_pk, own.sk_made, own.pk_made)
            (laws.nym own.prg prg user.creds.sk p.h message)

      -- The transaction is one that every peer accepts, and the user is as before.
      pub build_transaction-Returns :
          (auditor_prg : c.Rand)
          → p.audit_pk ≡ (c.generate_keys auditor_prg 2).1
          → (prg : c.Rand) (late : ℕ) (endorsements : List Endorsement)
          → p.endorsements ≤ length endorsements
          → All (GoodEndorsement wire p authority_pk (get_message t.0)) endorsements
          → Returns Alive
              (build_transaction wire p prg late user t.0 t.1 t.2 endorsements)
              (λ r. (r.0 ≡ user) × ValidTransaction wire p authority_pk r.1)
      unfolding build_transaction
      build_transaction-Returns auditor_prg made prg late endorsements enough good =
          Returns-bind _ (prove_non_revocation-Returns _ late) λ r unrevoked.
            Returns-bind _ (prove_auditing-Returns auditor_prg made _ r.0 unrevoked.0) λ a audited.
              Returns-pure _ _ (
                unrevoked.0,
                record {
                  proposal_valid = own.valid;
                  signed = signed_at prg (get_message t.0);
                  enough = enough;
                  endorsed = good;
                  audited = audited;
                  unrevoked = unrevoked.1;
                },
              )
