-- ===== src/Distributed/Honest/Completes.antt =====
-- A transaction of an honest user completes, and every peer has it.
use fabric_simulator.Prelude.{
  ℕ, ◌≡◌, ◌<◌, ◌∙◌, refl, false, List, ◌++◌, length, get_elem?, get_elem?_within, arith,
}
use fabric_simulator.Platform.{Platform, Bytes}
use fabric_simulator.Exec.{pure, ◌>>=◌, ◌>>◌}
use fabric_simulator.Exec.Returns.{
  Any, Returns-require, Returns-collect, Reaches, Reaches-bind, Reaches-then,
}
use fabric_simulator.Helpers.{codes, sha3}
use fabric_simulator.Helpers.Bounds.{peer_by_hash-lt}
use fabric_simulator.Params.{SystemParameters}
use fabric_simulator.Simulator.User.Endorsers.{select_endorsers_lem}
use fabric_simulator.Simulator.Honest.{Complete}
use fabric_simulator.Distributed.Wire.{Wire}
use fabric_simulator.Distributed.Wire.Laws.{Faithful}
use fabric_simulator.Distributed.Types.{Transaction, User, World}
use fabric_simulator.Distributed.Rpc.{now, peer_server, make_rpc_call_sync}
use fabric_simulator.Distributed.Proposal.{get_message}
use fabric_simulator.Distributed.Peer.{order}
use fabric_simulator.Distributed.User.{send_transaction, submit_transaction}
use fabric_simulator.Distributed.Honest.{Up, now-Returns, fresh_rand-Returns}
use fabric_simulator.Distributed.Honest.Peers.{GoodEndorsement, ValidTransaction}
use fabric_simulator.Distributed.Honest.Orders.{
  with_transactions, peer-IsUp, make_rpc_call_sync-Reaches, order-Reaches,
}
use fabric_simulator.Distributed.Honest.Users.{
  authority_pk, HonestUser, Own, listed-at, make_transaction_proposal-Returns,
  send_proposal-Returns, accept_endorsement-Returns, build_transaction-Returns,
}

-- A network with at least one peer, as many addresses as peers, and an auditor's key that was made.
pub record Configured {c : Platform} (p : SystemParameters c) : Type 0 where
  pub some_peer : 0 < p.peers
  pub count : length p.peer_rpc_addresses ≡ p.peers
  pub auditor_prg : c.Rand
  pub auditor_made : p.audit_pk ≡ (c.generate_keys auditor_prg 2).1

module _ {c : Platform} (wire : Wire c) (p : SystemParameters c) (made_with : c.Rand) (k : ℕ)
    (configured : Configured p) where
  abbrev authority : c.Pk
  authority = authority_pk wire p made_with k

  abbrev Alive : (Bytes → List Transaction) → World c → Type 0
  Alive ledgers = Up p authority ledgers k

  send_transaction-Reaches :
      (ledgers : Bytes → List Transaction) (message : Bytes) (tx : Transaction)
      → ValidTransaction wire p authority tx
      → Reaches
          (Alive ledgers)
          (send_transaction wire p message tx)
          (λ _. Alive (with_transactions p.peer_rpc_addresses tx ledgers))
  unfolding send_transaction ◌>>=◌
  send_transaction-Reaches ledgers message tx valid =
      let (orderer, chosen, lt) =
        peer_by_hash-lt (sha3 c (message ++ codes "-order")) p.peers configured.some_peer in
      let (a, at) =
        get_elem?_within p.peer_rpc_addresses orderer (omega (arith, configured.count, lt)) in
      let here = listed-at p.peer_rpc_addresses orderer a at in
      Reaches-bind (λ x. x ≡ orderer) (Returns-require _ _ orderer chosen)
        λ x e.
          Reaches-bind (λ y. y ≡ a)
            (Returns-require _ (get_elem? p.peer_rpc_addresses x) a (rw (e) at))
            λ y f.
              Reaches-then {m = make_rpc_call_sync (peer_server y) false (order wire p y tx)}
                (λ _. Alive (with_transactions p.peer_rpc_addresses tx ledgers))
                (rw (f) (
                  make_rpc_call_sync-Reaches (peer_server a) false (order wire p a tx)
                    (λ _. Alive (with_transactions p.peer_rpc_addresses tx ledgers))
                    (peer-IsUp wire p authority k ledgers a here)
                    (order-Reaches wire p authority k tx valid ledgers a here)))
                λ _. record { at = λ w h. (tt, w, refl, h) }

  -- The last reading of the clock.
  ends-Reaches :
      (ledgers : Bytes → List Transaction) (u : User c)
      → Reaches (Alive ledgers) (now c >> pure u) (λ v w. (v ≡ u) × Alive ledgers w)
  unfolding ◌>>=◌
  ends-Reaches ledgers u = Reaches-bind Any (now-Returns p authority ledgers k) λ _ _. pure_lem
    where
      pure_lem : Reaches (Alive ledgers) (pure u) (λ v w. (v ≡ u) × Alive ledgers w)
      pure_lem = record { at = λ w h. (u, w, refl, (refl, h)) }

  pub submit_transaction-Reaches :
      Complete c
      → Faithful wire
      → (ledgers : Bytes → List Transaction) (user : User c) → HonestUser wire p made_with k user
      → (message : Bytes) (late : ℕ)
      → Reaches (Alive ledgers) (submit_transaction wire p message late user) (λ u w.
        (u ≡ user)
        × (tx : Transaction) × ValidTransaction wire p authority tx
        × Alive (with_transactions p.peer_rpc_addresses tx ledgers) w)
  unfolding submit_transaction ◌>>=◌
  submit_transaction-Reaches laws faithful ledgers user member message late =
      let (first, chosen, _) = peer_by_hash-lt (sha3 c message) p.peers configured.some_peer in
      Reaches-bind Any (now-Returns p authority ledgers k) λ _ _.
        Reaches-bind Any (fresh_rand-Returns p authority ledgers k) λ prg _.
          Reaches-bind (λ x. x ≡ first) (Returns-require _ _ first chosen)
            λ x _.
              let (count, all, _) =
                select_endorsers_lem x p.peers p.endorsements configured.some_peer in
              Reaches-bind (Own wire p made_with k laws faithful ledgers user member)
                (make_transaction_proposal-Returns wire p made_with k laws faithful ledgers user
                  member _)
                λ t own.
                  Reaches-bind _
                    (Returns-collect (λ i. i < p.peers) _ _ _
                      (λ i lt.
                        send_proposal-Returns wire p made_with k laws faithful ledgers user member
                          configured.count t.0 i own.valid lt)
                      all)
                    λ answers answered.
                      Reaches-bind _
                        (Returns-collect _ (GoodEndorsement wire p authority (get_message t.0))
                          answers _
                          (accept_endorsement-Returns wire p made_with k laws faithful ledgers user
                            member prg (get_message t.0))
                          answered.1)
                        λ endorsements good.
                          Reaches-bind _
                            (build_transaction-Returns wire p made_with k laws faithful ledgers user
                              member own configured.auditor_prg configured.auditor_made _ late
                              endorsements (omega (arith, good.0, answered.0, count)) good.1)
                            λ r built. sent r built
    where
      sent :
          (r : User c × Transaction)
          → (r.0 ≡ user) × ValidTransaction wire p authority r.1
          → Reaches
              (Alive ledgers)
              (send_transaction wire p message r.1 >> (now c >> pure r.0))
              (λ u w.
                (u ≡ user)
                × (tx : Transaction) × ValidTransaction wire p authority tx
                × Alive (with_transactions p.peer_rpc_addresses tx ledgers) w)
      sent r (same, valid) =
          Reaches-then (λ _. Alive (with_transactions p.peer_rpc_addresses r.1 ledgers))
            (send_transaction-Reaches ledgers message r.1 valid)
            λ _. record {
              at = λ w h.
                  let (u, w', e, (q, h')) =
                    (ends-Reaches (with_transactions p.peer_rpc_addresses r.1 ledgers) r.0).at w
                      h in
                  (u, w', e, (q ∙ same, r.1, valid, h'));
            }
