-- ===== src/Simulator/Honest/Building.antt =====
-- An honest user makes a valid transaction from its proposal and the endorsements.
use fabric_simulator.Prelude.{
  ℕ, ◌≡◌, ◌≤◌, refl, ap, true, false, some, List, length, arith, ◌==◌, ◌&&◌, lt→ltb, ◌<◌,
}
use mathlib.Core.Bool.{not}
use fabric_simulator.Platform.{Platform, Bytes}
use fabric_simulator.Exec.Returns.{
  Returns, Any, Returns-modify, Returns-pure, Returns-gets, Returns-if, Returns-require,
  Returns-bind, Returns-check,
}
use fabric_simulator.Helpers.Bounds.{All}
use fabric_simulator.Params.{SystemParameters}
use fabric_simulator.Simulator.Types.{User, TransactionProposal, Endorsement, Transaction, Network}
use fabric_simulator.Simulator.Proposal.{get_message}
use fabric_simulator.Simulator.Revocation.{ticks, grant, receive_request, request_non_revocation}
use fabric_simulator.Simulator.User.{
  update_epoch, prove_non_revocation, prove_auditing, build_transaction,
}
use fabric_simulator.Simulator.Honest.{Complete, HonestNetwork, HonestUser}
use fabric_simulator.Simulator.Honest.Peers.{
  InEpoch, event-Returns, fresh_rand-Returns, record_bandwidth-Returns, GoodEndorsement,
  ValidTransaction,
}
use fabric_simulator.Simulator.Honest.Proposing.{Own}

module _ {c : Platform} (laws : Complete c) (p : SystemParameters c) (net : Network c)
    (honest : HonestNetwork p net) (k : ℕ) (l : List (Transaction c)) (user : User c)
    (member : HonestUser p net k user) where
  -- The handle that the authority signs for this user in this epoch.
  abbrev handle_by : c.Rand → c.GrothSignature
  handle_by prg = c.sign_non_revoke prg net.revocation_authority.sk (c.ecp_mul user.sk) k p.ys.1

  -- The user after the check of the epoch.
  record Ready (u : User c) : Type 0 where
    same_holder : u.holder ≡ user.holder
    current :
        p.revoke ≡ true
        → (u.epoch ≡ k) × (prg : c.Rand) × (u.non_revocation_handler ≡ some (handle_by prg))

  fresh-Ready :
      (prg : c.Rand)
      → Ready (record user { epoch = k; non_revocation_handler = some (handle_by prg) })
  fresh-Ready prg = record { same_holder = refl; current = λ _. (refl, prg, refl) }

  kept-Ready : (p.revoke && not (user.epoch == k)) ≡ false → Ready user
  kept-Ready off = record {
    same_holder = refl;
    current = λ on.
        let same : user.epoch ≡ k = ground arith in
        let (prg, e) = member.handle_current same in (same, prg, e);
  }

  request-Returns :
      0 < p.concurrent_revocations
      → Returns (InEpoch k l) (request_non_revocation p net 0 (record user { epoch = k })) Ready
  unfolding request_non_revocation receive_request grant ticks
  request-Returns some_permit = Returns-bind Any (Returns-modify _ (λ s h. h)) λ _ _.
      Returns-bind (λ nrh. (prg : c.Rand) × (nrh.handle ≡ handle_by prg))
        (Returns-bind Any (record_bandwidth-Returns k l p _ _ _ _) λ _ _.
          Returns-bind Any (Returns-check _ _ (lt→ltb 0 p.concurrent_revocations some_permit))
            λ _ _. Returns-bind Any (fresh_rand-Returns k l) λ prg _.
              Returns-bind (λ x. x ≡ k) (Returns-gets (λ x. x ≡ k) _ (λ s h. h.0))
                λ epoch e. Returns-bind Any (event-Returns k l _) λ _ _.
                  Returns-bind Any (record_bandwidth-Returns k l p _ _ _ _)
                    λ _ _. Returns-pure _ _ (prg, rw (e, member.revocation_key)))
        λ nrh (prg, e). Returns-pure Ready _ (rw e (fresh-Ready prg))

  update_epoch-Returns :
      (p.revoke ≡ true → 0 < p.concurrent_revocations)
      → Returns (InEpoch k l) (update_epoch p net 0 user) Ready
  unfolding update_epoch
  update_epoch-Returns granting =
      Returns-bind (λ x. x ≡ k) (Returns-gets (λ x. x ≡ k) _ (λ s h. h.0))
        λ epoch e. rw e (
          Returns-if Ready _ _ _ (λ on. request-Returns (granting (ground arith)))
            (λ off. Returns-pure Ready user (kept-Ready off)))

  module _ {t : TransactionProposal c × c.Pk × c.Sk}
      (own : Own laws p net honest k l user member t) where
    unrevoked_at :
        (prg₂ prg₃ : c.Rand) (sk : c.Sk) (handle : c.GrothSignature) (epoch : ℕ)
        → sk ≡ user.sk
        → handle ≡ handle_by prg₂
        → epoch ≡ k
        → c.revocation_verify
            (c.revocation_prove prg₃ handle sk t.2 epoch p.h p.ys.0).0
            t.0.pk_nym
            epoch
            p.h
            net.revocation_authority.pk
            p.ys.1
          ≡ true
    unrevoked_at prg₂ prg₃ sk handle epoch e f g =
        rw
          (
            e, f, g, own.same_pk, own.sk_made, own.pk_made, honest.authority_sk_made,
            honest.authority_pk_made,
          )
          (laws.unrevoked own.prg honest.authority_prg prg₂ prg₃ user.sk k p.h p.ys)

    prove_non_revocation-Returns :
        (prg : c.Rand) (u : User c)
        → Ready u
        → Returns (InEpoch k l) (prove_non_revocation p net prg u t.2) (λ r.
          p.revoke ≡ true
          → (proof : c.RevocationProof) × (r.0 ≡ some proof)
            × (c.revocation_verify proof t.0.pk_nym u.epoch p.h net.revocation_authority.pk p.ys.1
                ≡ true))
    unfolding prove_non_revocation
    prove_non_revocation-Returns prg u ready =
        Returns-if _ p.revoke _ _
          (λ on.
            let (same, prg₂, e) = ready.current on in
            Returns-bind (λ h. h ≡ handle_by prg₂) (Returns-require _ _ (handle_by prg₂) e)
              λ h q. Returns-bind Any (event-Returns k l _) λ _ _. Returns-pure _ _ (λ _. (
                _,
                refl,
                unrevoked_at prg₂ prg u.sk h u.epoch (ap (λ x. x.sk) ready.same_holder) q same,
              )))
          (λ off. Returns-pure _ _ (λ on. cc))

    audited_at :
        (prg₂ prg₃ : c.Rand) (sk : c.Sk) (pk : c.Pk)
        → sk ≡ user.sk
        → let (enc, r, _) = c.auditing_encrypt prg₂ net.auditor.pk pk in
          c.auditing_verify
            (c.auditing_prove prg₃ enc pk sk t.1 t.2 net.auditor.pk r p.h).0
            enc
            t.0.pk_nym
            net.auditor.pk
            p.h
          ≡ true
    audited_at prg₂ prg₃ sk pk e =
        rw (e, own.same_pk, own.sk_made, own.pk_made, honest.auditor_pk_made)
          (laws.audited own.prg honest.auditor_prg prg₂ prg₃ user.sk pk p.h)

    opened_at :
        (prg₂ : c.Rand) (pk : c.Pk)
        → pk ≡ user.pk
        → c.pk_equal
            (c.auditing_decrypt (c.auditing_encrypt prg₂ net.auditor.pk pk).0 net.auditor.sk)
            user.pk
          ≡ true
    opened_at prg₂ pk e =
        rw (e, honest.auditor_sk_made, honest.auditor_pk_made)
          (laws.opened honest.auditor_prg prg₂ user.pk)

    prove_auditing-Returns :
        (prg : c.Rand) (u : User c)
        → Ready u
        → Returns (InEpoch k l) (prove_auditing p net prg u t.1 t.2) (λ r.
          p.audit ≡ true
          → (proof : c.AuditingProof) × (enc : c.AuditingEncryption) × (r.1 ≡ some proof)
            × (r.0 ≡ some enc)
            × (c.auditing_verify proof enc t.0.pk_nym net.auditor.pk p.h ≡ true)
            × (c.pk_equal (c.auditing_decrypt enc net.auditor.sk) user.pk ≡ true))
    unfolding prove_auditing
    prove_auditing-Returns prg u ready =
        Returns-if _ p.audit _ _
          (λ on. Returns-bind Any (fresh_rand-Returns k l) λ prg₂ _.
            Returns-bind Any (event-Returns k l _) λ _ _.
              Returns-bind Any (event-Returns k l _) λ _ _. Returns-pure _ _ (λ _. (
                _,
                _,
                refl,
                refl,
                audited_at prg₂ prg u.sk u.pk (ap (λ x. x.sk) ready.same_holder),
                opened_at prg₂ u.pk (ap (λ x. x.pk) ready.same_holder),
              )))
          (λ off. Returns-pure _ _ (λ on. cc))

    signed_at :
        (prg : c.Rand) (message : Bytes)
        → c.verify_nym (c.sign_nym prg t.1 t.2 user.sk p.h message).0 p.h t.0.pk_nym message ≡ true
    signed_at prg message =
        rw (own.same_pk, own.sk_made, own.pk_made) (laws.nym own.prg prg user.sk p.h message)

    -- A transaction over the proposal, with these endorsements.
    pub record Built (endorsements : List (Endorsement c)) (r : User c × Transaction c)
        : Type 0 where
      pub valid : ValidTransaction p net r.1
      pub same_endorsements : r.1.endorsements ≡ endorsements
      pub author : r.1.proposal.author_id ≡ user.id
      pub opens :
          p.audit ≡ true
          → (enc : c.AuditingEncryption) × (r.1.audit_enc ≡ some enc)
            × (c.pk_equal (c.auditing_decrypt enc net.auditor.sk) user.pk ≡ true)

    pub build_transaction-Returns :
        (prg : c.Rand) (endorsements : List (Endorsement c))
        → (p.revoke ≡ true → 0 < p.concurrent_revocations)
        → p.endorsements ≤ length endorsements
        → All (GoodEndorsement p net (get_message t.0)) endorsements
        → Returns
            (InEpoch k l)
            (build_transaction p net prg 0 user t.0 t.1 t.2 endorsements)
            (Built endorsements)
    unfolding build_transaction
    build_transaction-Returns prg endorsements granting enough good =
        Returns-bind Ready (update_epoch-Returns granting) λ u ready.
          Returns-bind Any (event-Returns k l _) λ _ _.
            Returns-bind _ (prove_non_revocation-Returns _ u ready) λ r unrevoked.
              Returns-bind _ (prove_auditing-Returns _ u ready) λ a audited.
                Returns-pure (Built endorsements) _ (record {
                  valid = record {
                    proposal_valid = own.valid;
                    signed = signed_at prg (get_message t.0);
                    enough = enough;
                    endorsed = good;
                    audited =
                        λ on. let (proof, enc, e, f, v, _) = audited on in (proof, enc, e, f, v);
                    unrevoked = unrevoked;
                  };
                  same_endorsements = refl;
                  author = own.by_user;
                  opens = λ on. let (_, enc, _, f, _, o) = audited on in (enc, f, o);
                })
