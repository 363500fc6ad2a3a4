-- ===== src/Simulator/Honest/Completes.antt =====
-- In an honest network the transaction of an honest user completes.
use fabric_simulator.Prelude.{
  true, some, ℕ, ◌≡◌, ◌<◌, ◌∙◌, refl, ap, List, [], ◌∷◌, ◌++◌, length, arith,
}
use fabric_simulator.Platform.{Platform, Bytes}
use fabric_simulator.Exec.{ok, pure, ◌>>=◌, ◌>>◌}
use fabric_simulator.Exec.Returns.{
  Returns, Any, Returns-modify, Returns-require, Returns-bind, Returns-for_each, Returns-collect,
  Reaches, Reaches-bind,
}
use fabric_simulator.Helpers.{codes, sha3}
use fabric_simulator.Helpers.Bounds.{peer_by_hash-lt}
use fabric_simulator.Params.{SystemParameters}
use fabric_simulator.Simulator.Types.{User, Transaction, Network, World}
use fabric_simulator.Simulator.Proposal.{get_message}
use fabric_simulator.Simulator.User.{send_transaction, record_transaction, submit_transaction}
use fabric_simulator.Simulator.User.Endorsers.{select_endorsers_lem}
use fabric_simulator.Simulator.Honest.{Complete, SomePermits, HonestNetwork, HonestUser}
use fabric_simulator.Simulator.Honest.Peers.{
  InEpoch, event-Returns, now-Returns, fresh_rand-Returns, GoodEndorsement, ValidTransaction,
  ordered_valid, OrderedAs, receive_ordering-Returns,
}
use fabric_simulator.Simulator.Honest.Proposing.{
  Own, make_transaction_proposal-Returns, send_proposal-Returns, accept_endorsement-Returns,
}
use fabric_simulator.Simulator.Honest.Building.{Built, build_transaction-Returns}

module _ {c : Platform} (p : SystemParameters c) (net : Network c) (k : ℕ)
    (l : List (Transaction c)) (user : User c) where
  -- The transaction names the user as its author, and the auditor finds the user's key in it.
  pub record Authored (tx : Transaction c) : Type 0 where
    pub author : tx.proposal.author_id ≡ user.id
    pub opens :
        p.audit ≡ true
        → (enc : c.AuditingEncryption) × (tx.audit_enc ≡ some enc)
          × (c.pk_equal (c.auditing_decrypt enc net.auditor.sk) user.pk ≡ true)

  -- In the same epoch, one valid transaction more is recorded, and it is the user's.
  pub record Recorded (w : World c) : Type 0 where
    pub same_epoch : w.epoch ≡ k
    pub tx : Transaction c
    pub tx_valid : ValidTransaction p net tx
    pub authored : Authored tx
    pub one_more : w.transactions ≡ l ++ tx ∷ []

module _ {c : Platform} (laws : Complete c) (p : SystemParameters c) (net : Network c)
    (honest : HonestNetwork p net) (k : ℕ) (l : List (Transaction c)) (user : User c)
    (member : HonestUser p net k user) where
  send_transaction-Returns :
      (message : Bytes) (tx : Transaction c)
      → 0 < p.concurrent_validations
      → 0 < length tx.endorsements
      → ValidTransaction p net tx
      → Returns (InEpoch k l) (send_transaction p net message tx) (OrderedAs p net k l tx)
  unfolding send_transaction
  send_transaction-Returns message tx some_permit some_endorsement valid =
      let (orderer, chosen, lt) =
        peer_by_hash-lt (sha3 c (message ++ codes "-order")) p.peers honest.some_peers in
      let (peer, at, _, _) = honest.peer_at orderer lt in
      Returns-bind (λ x. x ≡ orderer) (Returns-require _ _ orderer chosen)
        λ x e. Returns-bind Any (event-Returns k l _) λ _ _.
          Returns-bind (λ x. x ≡ peer) (Returns-require _ _ peer (rw e at))
            λ y f. receive_ordering-Returns p net k l y tx some_permit some_endorsement valid

  record_transaction-Reaches :
      (tx : Transaction c) (u : User c)
      → ValidTransaction p net tx
      → Authored p net k l user tx
      → Reaches (InEpoch k l) (record_transaction p net tx >> pure u) (λ _. Recorded p net k l user)
  unfolding record_transaction ◌>>=◌
  record_transaction-Reaches tx u v a = record {
    at = λ w h. (
      u,
      _,
      refl,
      record {
        same_epoch = h.0;
        tx = tx;
        tx_valid = v;
        authored = a;
        one_more = ap (λ x. x ++ tx ∷ []) h.1;
      },
    );
  }

  record_ordered-Reaches :
      (tx ordered : Transaction c) (u : User c)
      → OrderedAs p net k l tx ordered
      → ValidTransaction p net tx
      → Authored p net k l user tx
      → Reaches
          (InEpoch k l)
          (record_transaction p net ordered >> pure u)
          (λ _. Recorded p net k l user)
  record_ordered-Reaches tx ordered u s v a = rw s.same (
      record_transaction-Reaches (record tx { orderer = s.by }) u (ordered_valid p net tx s.by v)
        (record { author = a.author; opens = a.opens }))

  pub submit_transaction-Reaches :
      SomePermits p
      → (message : Bytes)
      → Reaches
          (InEpoch k l)
          (submit_transaction p net message 0 user)
          (λ _. Recorded p net k l user)
  unfolding submit_transaction
  submit_transaction-Reaches permits message =
      let (endorser, chosen, _) = peer_by_hash-lt (sha3 c message) p.peers honest.some_peers in
      Reaches-bind Any (now-Returns k l) λ _ _. Reaches-bind Any (fresh_rand-Returns k l) λ prg _.
        Reaches-bind Any (event-Returns k l _) λ _ _.
          Reaches-bind (λ x. x ≡ endorser) (Returns-require _ _ endorser chosen)
            λ x _.
              let (count, all, _) =
                select_endorsers_lem x p.peers p.endorsements honest.some_peers in
              Reaches-bind Any (event-Returns k l _) λ _ _.
                Reaches-bind (Own laws p net honest k l user member)
                  (make_transaction_proposal-Returns laws p net honest k l user member _)
                  λ t own. Reaches-bind Any (now-Returns k l) λ _ _.
                    Reaches-bind _
                      (Returns-collect (λ i. i < p.peers) (GoodEndorsement p net (get_message t.0))
                        _ _
                        (λ i lt.
                          send_proposal-Returns laws p net honest k l user member t.0 i
                            permits.endorsing own.valid lt)
                        all)
                      λ endorsements good.
                        let size : length endorsements ≡ p.endorsements = good.0 ∙ count in
                        Reaches-bind Any
                          (Returns-for_each (GoodEndorsement p net (get_message t.0)) endorsements _
                            (accept_endorsement-Returns laws p net honest k l user member prg _)
                            good.1)
                          λ _ _. Reaches-bind Any (now-Returns k l) λ _ _.
                            Reaches-bind (Built laws p net honest k l user member own endorsements)
                              (build_transaction-Returns laws p net honest k l user member own _
                                endorsements permits.granting (omega arith) good.1)
                              λ r built. Reaches-bind Any (now-Returns k l) λ _ _.
                                Reaches-bind (OrderedAs p net k l r.1)
                                  (send_transaction-Returns message r.1 permits.validating
                                    (omega (
                                      arith,
                                      honest.some_endorsements,
                                      ap length built.same_endorsements,
                                    ))
                                    built.valid)
                                  λ sent s. Reaches-bind Any (now-Returns k l) λ _ _.
                                    Reaches-bind Any (now-Returns k l) λ _ _.
                                      Reaches-bind Any (Returns-modify _ (λ s h. h)) λ _ _.
                                        record_ordered-Reaches r.1 sent r.0 s built.valid
                                          (record { author = built.author; opens = built.opens })

pub submit_transaction_completes :
    {c : Platform}
    → Complete c
    → (p : SystemParameters c) → SomePermits p
    → (net : Network c) → HonestNetwork p net
    → (user : User c) (w : World c) → HonestUser p net w.epoch user
    → (message : Bytes)
    → (user' : User c) × (w' : World c) × (submit_transaction p net message 0 user w
        ≡ (ok user', w'))
      × (w'.epoch ≡ w.epoch)
      × ((tx : Transaction c) × ValidTransaction p net tx
          × (w'.transactions ≡ w.transactions ++ tx ∷ []))
submit_transaction_completes laws p permits net honest user w member message =
    let (user', w', e, r) =
      (submit_transaction-Reaches laws p net honest w.epoch w.transactions user member permits
          message).at
        w (refl, refl) in
    (user', w', e, r.same_epoch, (r.tx, r.tx_valid, r.one_more))
