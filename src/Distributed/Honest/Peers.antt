-- ===== src/Distributed/Honest/Peers.antt =====
-- What an honest peer answers to a valid proposal and to a valid transaction.
use fabric_simulator.Prelude.{
  ℕ, ◌≡◌, ◌≤◌, refl, true, List, [], ◌∷◌, ◌++◌, length, arith, if◌then◌else◌,
}
use fabric_simulator.Platform.{Platform, Bytes}
use fabric_simulator.Exec.{ok, pure, ◌>>=◌, ◌>>◌}
use fabric_simulator.Exec.Returns.{
  Returns, Any, Returns-check, Returns-when, Returns-pure, Returns-if, Returns-bind,
  Returns-for_each, Reaches, Reaches-bind,
}
use fabric_simulator.Helpers.{sha3}
use fabric_simulator.Helpers.Bounds.{All}
use fabric_simulator.Params.{SystemParameters}
use fabric_simulator.Simulator.Peer.{bytes_equal, cache_key, is_cached}
use fabric_simulator.Simulator.Peer.Identity.{bytes_equal_refl}
use fabric_simulator.Simulator.Honest.{Complete}
use fabric_simulator.Distributed.Wire.{Wire}
use fabric_simulator.Distributed.Wire.Laws.{Faithful}
use fabric_simulator.Distributed.Types.{
  TransactionProposal, Endorsement, Transaction, RpcPeer, World,
}
use fabric_simulator.Distributed.Rpc.{assign}
use fabric_simulator.Distributed.Proposal.{get_message}
use fabric_simulator.Distributed.Peer.{
  indices_of, check_endorsement, validate_identity, execute_chaincode, validate, endorse,
}
use fabric_simulator.Distributed.Honest.{
  listed, Up, sleep-Returns, fresh_rand-Returns, receiver-Returns, assign_lem,
}

-- The ledgers after the peer at `self` has put a transaction into its own.
unfoldable pub with_transaction :
    Bytes → Transaction → (Bytes → List Transaction) → Bytes → List Transaction
with_transaction self tx ledgers b =
    if bytes_equal b self then ledgers self ++ tx ∷ [] else ledgers b

module _ {c : Platform} (wire : Wire c) (p : SystemParameters c) (authority_pk : c.Pk) where
  -- A proposal that every peer accepts, whatever is in its cache.
  pub record ValidProposal (tp : TransactionProposal) : Type 0 where
    pub signed :
        c.verify_nym
          (wire.nym_signature_from_bytes tp.signature)
          p.h
          (wire.point_from_bytes tp.pk_nym)
          (get_message tp)
        ≡ true
    pub identified :
        c.verify_proof
          (c.proof_from_bytes tp.author)
          p.root_pk
          p.ys
          p.h
          (wire.point_from_bytes tp.pk_nym)
          (indices_of wire p tp)
        ≡ true

  -- An endorsement that verifies, with whatever generator it is looked at.
  abbrev pub GoodEndorsement : Bytes → Endorsement → Type 0
  GoodEndorsement message e =
      (prg : c.Rand)
      → c.schnorr_verify (c.make_schnorr prg).0 (wire.point_from_bytes e.pk)
          (wire.schnorr_from_bytes e.signature) message
        ≡ true

  pub record ValidTransaction (tx : Transaction) : Type 0 where
    pub proposal_valid : ValidProposal tx.proposal
    pub signed :
        c.verify_nym
          (wire.nym_signature_from_bytes tx.signature)
          p.h
          (wire.point_from_bytes tx.proposal.pk_nym)
          (get_message tx.proposal)
        ≡ true
    pub enough : p.endorsements ≤ length tx.endorsements
    pub endorsed : All (GoodEndorsement (get_message tx.proposal)) tx.endorsements
    pub audited :
        p.audit ≡ true
        → c.auditing_verify
            (wire.auditing_proof_from_bytes tx.audit_proof)
            (wire.encryption_from_bytes tx.audit_enc)
            (wire.point_from_bytes tx.proposal.pk_nym)
            p.audit_pk
            p.h
          ≡ true
    pub unrevoked :
        p.revoke ≡ true
        → c.revocation_verify
            (wire.revocation_proof_from_bytes tx.non_revocation_proof)
            (wire.point_from_bytes tx.proposal.pk_nym)
            (wire.big_of_int tx.epoch)
            p.h
            authority_pk
            p.ys.1
          ≡ true

  module _ (ledgers : Bytes → List Transaction) (k : ℕ) (self : Bytes)
      (here : listed self p.peer_rpc_addresses ≡ true) where
    -- An assignment that leaves the keys and the ledger as they are.
    cache-Returns :
        (key : Bytes)
        → Returns
            (Up p authority_pk ledgers k)
            (assign self (λ (peer : RpcPeer c). record peer { cache = peer.cache ++ key ∷ [] }))
            Any
    cache-Returns key = record {
      at = λ w h.
          let (w', e, up) =
            assign_lem p authority_pk ledgers ledgers k self _ here
              (λ me g. record {
                prg = g.prg;
                sk_made = g.sk_made;
                pk_made = g.pk_made;
                knows = g.knows;
              })
              (λ me e. e) (λ b other. refl) w h in
          (tt, w', e, tt, up);
    }

    pub validate_identity-Returns :
        (tp : TransactionProposal)
        → ValidProposal tp
        → Returns
            (Up p authority_pk ledgers k)
            (validate_identity wire p self tp.author
              (wire.point_from_bytes tp.pk_nym)
              (indices_of wire p tp))
            Any
    unfolding validate_identity
    validate_identity-Returns tp valid =
        Returns-bind _ (receiver-Returns p authority_pk ledgers k self here) λ me honest.
          Returns-if Any (is_cached (cache_key (sha3 c tp.author)) me.cache) _ _
            (λ _. Returns-pure Any tt tt)
            (λ _. Returns-bind Any (Returns-check _ _ valid.identified) λ _ _. cache-Returns _)

    -- An honest peer endorses a valid proposal, with a signature of its own.
    pub endorse-Returns :
        Complete c
        → Faithful wire
        → (tp : TransactionProposal) → ValidProposal tp
        → Returns
            (Up p authority_pk ledgers k)
            (endorse wire p self tp)
            (GoodEndorsement (get_message tp))
    unfolding endorse execute_chaincode
    endorse-Returns laws faithful tp valid =
        Returns-bind Any (Returns-check _ _ valid.signed) λ _ _.
          Returns-bind Any (validate_identity-Returns tp valid) λ _ _.
            Returns-bind Any (validate_identity-Returns tp valid) λ _ _.
              Returns-bind Any (sleep-Returns p authority_pk ledgers k _) λ _ _.
                Returns-bind Any (fresh_rand-Returns p authority_pk ledgers k) λ prg _.
                  Returns-bind _ (receiver-Returns p authority_pk ledgers k self here) λ me honest.
                    Returns-pure _ _ (λ prg'.
                      rw
                        (
                          faithful.point me.pk,
                          faithful.schnorr
                              (c.schnorr_sign (c.make_schnorr prg).0 me.sk (get_message tp)),
                          honest.sk_made,
                          honest.pk_made,
                        )
                        (laws.schnorr honest.prg prg' prg (get_message tp)))

    check_endorsement-Returns :
        (prg : c.Rand) (message : Bytes) (e : Endorsement)
        → GoodEndorsement message e
        → Returns
            (Up p authority_pk ledgers k)
            (check_endorsement wire p (c.make_schnorr prg).0 message e)
            Any
    unfolding check_endorsement
    check_endorsement-Returns prg message e good = Returns-check _ _ (good prg)

    -- The ledgers once the peer at `self` has the transaction in its own.
    record_lem :
        (tx : Transaction) (w : World c)
        → Up p authority_pk ledgers k w
        → (w' : World c) × (assign self
              (λ (peer : RpcPeer c). record peer { transactions = peer.transactions ++ tx ∷ [] })
              w
            ≡ (ok tt, w'))
          × Up p authority_pk (with_transaction self tx ledgers) k w'
    unfolding with_transaction
    record_lem tx =
        assign_lem p authority_pk ledgers (with_transaction self tx ledgers) k self _ here
          (λ me g. record {
            prg = g.prg;
            sk_made = g.sk_made;
            pk_made = g.pk_made;
            knows = g.knows;
          })
          (λ me e. ground (arith, bytes_equal_refl self, e)) (λ b other. ground (arith, other))

    record-Reaches :
        (tx : Transaction)
        → Reaches
            (Up p authority_pk ledgers k)
            (assign self
                (λ (peer : RpcPeer c). record peer { transactions = peer.transactions ++ tx ∷ [] })
              >> pure true)
            (λ reply w. (reply ≡ true) × Up p authority_pk (with_transaction self tx ledgers) k w)
    unfolding ◌>>=◌
    record-Reaches tx = record {
      at = λ w h. let (w', e, up) = record_lem tx w h in (true, w', rw (e) refl, (refl, up));
    }

    -- An honest peer accepts a valid transaction, and puts it at the end of its ledger.
    pub validate-Reaches :
        (tx : Transaction)
        → ValidTransaction tx
        → Reaches
            (Up p authority_pk ledgers k)
            (validate wire p self tx)
            (λ reply w. (reply ≡ true) × Up p authority_pk (with_transaction self tx ledgers) k w)
    unfolding validate execute_chaincode
    validate-Reaches tx valid = Reaches-bind Any (Returns-check _ _ valid.signed) λ _ _.
        Reaches-bind Any (Returns-check _ _ (ground (arith, valid.enough))) λ _ _.
          Reaches-bind Any (fresh_rand-Returns p authority_pk ledgers k) λ prg _.
            Reaches-bind Any
              (Returns-for_each (GoodEndorsement (get_message tx.proposal)) tx.endorsements _
                (check_endorsement-Returns prg (get_message tx.proposal)) valid.endorsed)
              λ _ _.
                Reaches-bind Any (validate_identity-Returns tx.proposal valid.proposal_valid) λ _ _.
                  Reaches-bind Any
                    (Returns-when p.audit _ λ on. Returns-check _ _ (valid.audited on))
                    λ _ _.
                      Reaches-bind _ (receiver-Returns p authority_pk ledgers k self here)
                        λ me honest.
                          Reaches-bind Any
                            (Returns-when p.revoke _
                              λ on. Returns-check _ _ (rw (honest.knows) (valid.unrevoked on)))
                            λ _ _.
                              Reaches-bind Any (sleep-Returns p authority_pk ledgers k _)
                                λ _ _. record-Reaches tx
