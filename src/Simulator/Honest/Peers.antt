-- ===== src/Simulator/Honest/Peers.antt =====
-- Honest peers do not refuse what is valid.
use fabric_simulator.Prelude.{
  ℕ, ◌≡◌, ◌≢◌, ◌≤◌, ◌<◌, refl, true, Option, none, some, List, [], ◌∷◌, length, get_elem?, arith,
  ltb, lt→ltb, Bool-cases, inl, inr,
}
use mathlib.Core.Bool.{not}
use fabric_simulator.Platform.{Platform, Bytes}
use fabric_simulator.Exec.{◌>>=◌}
use fabric_simulator.Exec.Returns.{
  Returns, Any, Returns-check, Returns-modify, Returns-when, Returns-pure, Returns-require,
  Returns-bind, Returns-for_each,
}
use fabric_simulator.Helpers.Bounds.{All}
use fabric_simulator.Params.{SystemParameters}
use fabric_simulator.Simulator.Counter.{CryptoEvent}
use fabric_simulator.Simulator.Types.{
  Party, ObjectName, Operation, Peer, TransactionProposal, Endorsement, Transaction, Network, World,
}
use fabric_simulator.Simulator.Env.{now, sleep, fresh_rand, event}
use fabric_simulator.Simulator.Bandwidth.{record_bandwidth}
use fabric_simulator.Simulator.Proposal.{get_message}
use fabric_simulator.Simulator.Peer.{
  is_cached, validate_identity, execute_chaincode, endorse, check_endorsement, validate,
  receive_endorsement, receive_validation, order, receive_ordering, transaction_size,
}
use fabric_simulator.Simulator.Peer.Identity.{
  key_of, verifies, validate_identity_hit, validate_identity_verified,
}
use fabric_simulator.Simulator.Honest.{Complete, HonestPeer}

not_fewer : (n m : ℕ) → n ≤ m → not (ltb m n) ≡ true
not_fewer n m h = ground arith

All-Any : {A : Type 0} (xs : List A) → All Any xs
All-Any [] = tt
All-Any (x ∷ xs) = (tt, All-Any xs)

some_of : {A : Type 0} (o : Option A) → o ≢ none → (a : A) × (o ≡ some a)
some_of none h = absurd (h refl)
some_of (some a) h = (a, refl)

module _ {c : Platform} (k : ℕ) (l : List (Transaction c)) where
  -- The network is in epoch `k`, and has recorded the transactions `l`.
  abbrev pub InEpoch : World c → Type 0
  InEpoch w = (w.epoch ≡ k) × (w.transactions ≡ l)

  pub event-Returns : (e : CryptoEvent) → Returns InEpoch (event c e) Any
  unfolding event
  event-Returns e = Returns-modify _ (λ s h. h)

  pub sleep-Returns : (n : ℕ) → Returns InEpoch (sleep c n) Any
  unfolding sleep
  sleep-Returns n = Returns-modify _ (λ s h. h)

  pub now-Returns : Returns InEpoch (now c) Any
  unfolding now
  now-Returns = record { at = λ s h. (_, _, refl, tt, h) }

  pub fresh_rand-Returns : Returns InEpoch (fresh_rand c) Any
  unfolding fresh_rand
  fresh_rand-Returns = Returns-bind Any now-Returns λ t _. Returns-pure Any _ tt

  pub record_bandwidth-Returns :
      (p : SystemParameters c) (from to : Party) (object : ObjectName) (size : ℕ)
      → Returns InEpoch (record_bandwidth p from to object size) Any
  unfolding record_bandwidth now sleep ◌>>=◌
  record_bandwidth-Returns p from to object size = record { at = λ s h. (_, _, refl, tt, h) }

module _ {c : Platform} (p : SystemParameters c) (net : Network c) where
  pub record ValidProposal (tp : TransactionProposal c) : Type 0 where
    pub signed : c.verify_nym tp.signature p.h tp.pk_nym (get_message tp) ≡ true
    pub identified : verifies p tp.author tp.pk_nym tp.indices ≡ true

  -- The endorser is a peer, and its signature verifies.
  pub record GoodEndorsement (message : Bytes) (x : Endorsement c) : Type 0 where
    pub endorser : Peer c
    pub found : get_elem? net.peers x.endorser ≡ some endorser
    pub verified :
        (prg : c.Rand)
        → c.schnorr_verify (c.make_schnorr prg).0 endorser.pk x.signature message ≡ true

  pub record ValidTransaction (tx : Transaction c) : Type 0 where
    pub proposal_valid : ValidProposal tx.proposal
    pub signed : c.verify_nym tx.signature p.h tx.proposal.pk_nym (get_message tx.proposal) ≡ true
    pub enough : p.endorsements ≤ length tx.endorsements
    pub endorsed : All (GoodEndorsement (get_message tx.proposal)) tx.endorsements
    pub audited :
        p.audit ≡ true
        → (proof : c.AuditingProof) × (enc : c.AuditingEncryption) × (tx.audit_proof ≡ some proof)
          × (tx.audit_enc ≡ some enc)
          × (c.auditing_verify proof enc tx.proposal.pk_nym net.auditor.pk p.h ≡ true)
    pub unrevoked :
        p.revoke ≡ true
        → (proof : c.RevocationProof) × (tx.non_revocation_proof ≡ some proof)
          × (c.revocation_verify proof tx.proposal.pk_nym tx.epoch p.h net.revocation_authority.pk
                p.ys.1
              ≡ true)

  -- The orderer's id is no part of what is validated.
  pub ordered_valid :
      (tx : Transaction c) (id : ℕ)
      → ValidTransaction tx
      → ValidTransaction (record tx { orderer = id })
  ordered_valid tx id valid = record {
    proposal_valid = valid.proposal_valid;
    signed = valid.signed;
    enough = valid.enough;
    endorsed = valid.endorsed;
    audited = valid.audited;
    unrevoked = valid.unrevoked;
  }

  module _ (k : ℕ) (l : List (Transaction c)) where
    validate_identity-Returns :
        (id : ℕ) (proof : Bytes) (pk_nym : c.Pk) (indices : List (ℕ × ℕ × c.Attribute))
        (op : Operation)
        → verifies p proof pk_nym indices ≡ true
        → Returns (InEpoch k l) (validate_identity p id proof pk_nym indices op) Any
    validate_identity-Returns id proof pk_nym indices op v = record {
      at = λ w h. elim (Bool-cases (is_cached (key_of p proof) (w.caches id op))) [
        | inl hit ↦ (tt, _, validate_identity_hit p id proof pk_nym indices op w hit, tt, h)
        | inr miss ↦
            (tt, _, validate_identity_verified p id proof pk_nym indices op w miss v, tt, h)
      ];
    }

    pub check_endorsement-Returns :
        (prg : c.Rand) (message : Bytes) (x : Endorsement c)
        → GoodEndorsement message x
        → Returns (InEpoch k l) (check_endorsement p net.peers (c.make_schnorr prg).0 message x) Any
    unfolding check_endorsement
    check_endorsement-Returns prg message x g =
        Returns-bind (λ q. q ≡ g.endorser) (Returns-require _ _ g.endorser g.found)
          λ q e. Returns-check _ _ (rw e (g.verified prg))

    pub receive_endorsement-Returns :
        (laws : Complete c) (peer : Peer c) (tp : TransactionProposal c)
        → 0 < p.concurrent_endorsements
        → get_elem? net.peers peer.id ≡ some peer
        → HonestPeer p peer
        → ValidProposal tp
        → Returns (InEpoch k l) (receive_endorsement p peer tp) (GoodEndorsement (get_message tp))
    unfolding receive_endorsement endorse execute_chaincode
    receive_endorsement-Returns laws peer tp some_permit at honest valid =
        Returns-bind Any (record_bandwidth-Returns k l p _ _ _ _) λ _ _.
          Returns-bind Any (Returns-check _ _ (lt→ltb 0 p.concurrent_endorsements some_permit))
            λ _ _. Returns-bind Any (Returns-check _ _ valid.signed) λ _ _.
              Returns-bind Any (event-Returns k l _) λ _ _.
                Returns-bind Any (validate_identity-Returns _ _ _ _ _ valid.identified) λ _ _.
                  Returns-bind Any (validate_identity-Returns _ _ _ _ _ valid.identified) λ _ _.
                    Returns-bind Any (sleep-Returns k l _) λ _ _.
                      Returns-bind Any (fresh_rand-Returns k l) λ prg _.
                        Returns-bind Any (event-Returns k l _) λ _ _.
                          Returns-bind Any (record_bandwidth-Returns k l p _ _ _ _) λ _ _.
                            Returns-pure (GoodEndorsement (get_message tp)) _ (record {
                              endorser = peer;
                              found = at;
                              verified = λ prg'.
                                  rw (honest.sk_made, honest.pk_made)
                                    (laws.schnorr honest.prg prg' prg (get_message tp));
                            })

    validate-Returns :
        (peer : Peer c) (tx : Transaction c)
        → ValidTransaction tx
        → Returns (InEpoch k l) (validate p net peer tx) Any
    unfolding validate execute_chaincode
    validate-Returns peer tx valid = Returns-bind Any (Returns-check _ _ valid.signed) λ _ _.
        Returns-bind Any (event-Returns k l _) λ _ _.
          Returns-bind Any
            (Returns-check _ _ (not_fewer p.endorsements (length tx.endorsements) valid.enough))
            λ _ _. Returns-bind Any (fresh_rand-Returns k l) λ prg _.
              Returns-bind Any
                (Returns-for_each (GoodEndorsement (get_message tx.proposal)) tx.endorsements _
                  (check_endorsement-Returns prg _) valid.endorsed)
                λ _ _. Returns-bind Any (event-Returns k l _) λ _ _.
                  Returns-bind Any
                    (validate_identity-Returns _ _ _ _ _ valid.proposal_valid.identified)
                    λ _ _.
                      Returns-bind Any
                        (Returns-when p.audit _ λ on.
                          let (proof, enc, e, f, v) = valid.audited on in
                          Returns-bind (λ x. x ≡ proof) (Returns-require _ _ proof e)
                            λ x q.
                              Returns-bind (λ y. y ≡ enc) (Returns-require _ _ enc f)
                                λ y r.
                                  Returns-bind Any (Returns-check _ _ (rw (q, r) v))
                                    λ _ _. event-Returns k l _)
                        λ _ _.
                          Returns-bind Any
                            (Returns-when p.revoke _ λ on.
                              let (proof, e, v) = valid.unrevoked on in
                              Returns-bind (λ x. x ≡ proof) (Returns-require _ _ proof e)
                                λ x q.
                                  Returns-bind Any (Returns-check _ _ (rw q v))
                                    λ _ _. event-Returns k l _)
                            λ _ _. sleep-Returns k l _

    -- The size of a transaction with an endorsement.
    size-ne-none : (tx : Transaction c) → 0 < length tx.endorsements → transaction_size p tx ≢ none
    unfolding transaction_size
    size-ne-none tx h = grind arith

    size_of :
        (tx : Transaction c)
        → 0 < length tx.endorsements
        → (n : ℕ) × (transaction_size p tx ≡ some n)
    size_of tx h = some_of (transaction_size p tx) (size-ne-none tx h)

    receive_validation-Returns :
        (peer : Peer c) (tx : Transaction c)
        → 0 < p.concurrent_validations
        → 0 < length tx.endorsements
        → ValidTransaction tx
        → Returns (InEpoch k l) (receive_validation p net peer tx) Any
    unfolding receive_validation
    receive_validation-Returns peer tx some_permit some_endorsement valid =
        let (n, e) = size_of tx some_endorsement in
        Returns-bind Any
          (Returns-when _ _ λ _.
            Returns-bind (λ x. x ≡ n) (Returns-require _ _ n e)
              λ x _. record_bandwidth-Returns k l p _ _ _ _)
          λ _ _.
            Returns-bind Any (Returns-check _ _ (lt→ltb 0 p.concurrent_validations some_permit))
              λ _ _. validate-Returns peer tx valid

    -- The transaction with an orderer written into it.
    pub record OrderedAs (tx ordered : Transaction c) : Type 0 where
      pub by : ℕ
      pub same : ordered ≡ record tx { orderer = by }

    -- A transaction that is valid is ordered, and validated by every peer, with no refusal.
    pub receive_ordering-Returns :
        (peer : Peer c) (tx : Transaction c)
        → 0 < p.concurrent_validations
        → 0 < length tx.endorsements
        → ValidTransaction tx
        → Returns (InEpoch k l) (receive_ordering p net peer tx) (OrderedAs tx)
    unfolding receive_ordering order
    receive_ordering-Returns peer tx some_permit some_endorsement valid =
        let (n, e) = size_of tx some_endorsement in
        Returns-bind (λ x. x ≡ n) (Returns-require _ _ n e)
          λ x _. Returns-bind Any (record_bandwidth-Returns k l p _ _ _ _) λ _ _.
            Returns-bind Any (validate_identity-Returns _ _ _ _ _ valid.proposal_valid.identified)
              λ _ _.
                Returns-bind Any
                  (Returns-for_each Any net.peers _
                    (λ other _.
                      receive_validation-Returns other (record tx { orderer = peer.id }) some_permit
                        some_endorsement (ordered_valid tx peer.id valid))
                    (All-Any net.peers))
                  λ _ _. Returns-pure (OrderedAs tx) _ (record { by = peer.id; same = refl })
