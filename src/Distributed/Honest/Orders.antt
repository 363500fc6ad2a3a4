-- ===== src/Distributed/Honest/Orders.antt =====
-- Calls of honest processes, and the order of a valid transaction: every peer gets it.
use fabric_simulator.Prelude.{
  ℕ, ◌≡◌, refl, ap, ◌∙◌, Bool, true, false, Bool-cases, inl, inr, Option, some, List, [], ◌∷◌, ◌++◌,
  arith,
}
use fabric_simulator.Platform.{Platform, Bytes}
use fabric_simulator.Exec.{Exec, ok, pure, ◌>>=◌, ◌>>◌, for_each, collect}
use fabric_simulator.Exec.Returns.{Returns, Any, Reaches, Reaches-bind, Reaches-then}
use fabric_simulator.Helpers.Bounds.{All}
use fabric_simulator.Params.{SystemParameters}
use fabric_simulator.Simulator.Peer.{bytes_equal}
use fabric_simulator.Simulator.Peer.Identity.{bytes_equal_refl, bytes_equal-eq}
use fabric_simulator.Distributed.Wire.{Wire}
use fabric_simulator.Distributed.Types.{Transaction, World}
use fabric_simulator.Distributed.Rpc.{Server, peer_server, serve, make_rpc_call, make_rpc_call_sync}
use fabric_simulator.Distributed.Peer.{validate, check_validated, order}
use fabric_simulator.Distributed.Honest.{listed, Up}
use fabric_simulator.Distributed.Honest.Peers.{
  with_transaction, ValidTransaction, validate_identity-Returns, validate-Reaches,
}

module _ {c : Platform} {A : Type 0} {P : World c → Type 0} (server : Server c) where
  -- A call of a process that runs has the handler's reply.
  pub make_rpc_call-Reaches :
      (handler : Exec (World c) A) (R : A → World c → Type 0)
      → ((w : World c) → P w → server.is_up w ≡ true)
      → Reaches P handler R
      → Reaches P
          (make_rpc_call server handler)
          (λ answer w. (reply : A) × (answer ≡ some reply) × R reply w)
  unfolding make_rpc_call serve ◌>>=◌
  make_rpc_call-Reaches handler R up h = record {
    at = λ w g.
        let (reply, w', e, r) = h.at w g in (some reply, w', rw (up w g, e) refl, (reply, refl, r));
  }

  pub make_rpc_call-Returns :
      (handler : Exec (World c) A) (Q : A → Type 0)
      → ((w : World c) → P w → server.is_up w ≡ true)
      → Returns P handler Q
      → Returns P
          (make_rpc_call server handler)
          (λ answer. (reply : A) × (answer ≡ some reply) × Q reply)
  unfolding make_rpc_call serve ◌>>=◌
  make_rpc_call-Returns handler Q up h = record {
    at = λ w g.
        let (reply, w', e, q, g') = h.at w g in
        (some reply, w', rw (up w g, e) refl, (reply, refl, q), g');
  }

  pub make_rpc_call_sync-Returns :
      (zero_value : A) (handler : Exec (World c) A) (Q : A → Type 0)
      → ((w : World c) → P w → server.is_up w ≡ true)
      → Returns P handler Q
      → Returns P (make_rpc_call_sync server zero_value handler) Q
  unfolding make_rpc_call_sync make_rpc_call serve ◌>>=◌
  make_rpc_call_sync-Returns zero_value handler Q up h = record {
    at = λ w g. let (reply, w', e, q, g') = h.at w g in (reply, w', rw (up w g, e) refl, q, g');
  }

  pub make_rpc_call_sync-Reaches :
      (zero_value : A) (handler : Exec (World c) A) (R : A → World c → Type 0)
      → ((w : World c) → P w → server.is_up w ≡ true)
      → Reaches P handler R
      → Reaches P (make_rpc_call_sync server zero_value handler) R
  unfolding make_rpc_call_sync make_rpc_call serve ◌>>=◌
  make_rpc_call_sync-Reaches zero_value handler R up h = record {
    at = λ w g. let (reply, w', e, r) = h.at w g in (reply, w', rw (up w g, e) refl, r);
  }

-- The ledgers after each peer of the list has put a transaction into its own.
unfoldable pub with_transactions :
    List Bytes → Transaction → (Bytes → List Transaction) → Bytes → List Transaction
with_transactions [] tx ledgers = ledgers
with_transactions (a ∷ addresses) tx ledgers =
    with_transactions addresses tx (with_transaction a tx ledgers)

-- No address stands twice in the list.
abbrev pub IsDistinct : List Bytes → Type 0
IsDistinct [] = Unit
IsDistinct (a ∷ addresses) = (listed a addresses ≡ false) × IsDistinct addresses

with_transactions-absent :
    (addresses : List Bytes) (tx : Transaction) (ledgers : Bytes → List Transaction) (a : Bytes)
    → listed a addresses ≡ false
    → with_transactions addresses tx ledgers a ≡ ledgers a
unfolding with_transactions with_transaction listed
with_transactions-absent [] tx ledgers a h = refl
with_transactions-absent (b ∷ addresses) tx ledgers a h =
    ground (arith, h, with_transactions-absent addresses tx (with_transaction b tx ledgers) a)

-- Where no address stands twice, each peer gets the transaction once.
pub with_transactions-once :
    (addresses : List Bytes) (tx : Transaction) (ledgers : Bytes → List Transaction) (a : Bytes)
    → IsDistinct addresses
    → listed a addresses ≡ true
    → with_transactions addresses tx ledgers a ≡ ledgers a ++ tx ∷ []
unfolding with_transactions with_transaction listed
with_transactions-once [] tx ledgers a d h = cc
with_transactions-once (b ∷ addresses) tx ledgers a d h = elim (Bool-cases (bytes_equal a b)) [
  | inl same ↦
      let e = bytes_equal-eq a b same in
      ground (
        arith,
        e,
        d.0,
        bytes_equal_refl b,
        with_transactions-absent addresses tx (with_transaction b tx ledgers) b,
      )
  | inr other ↦
      ground
        (arith, other, h, with_transactions-once addresses tx (with_transaction b tx ledgers) a d.1)
]

module _ {c : Platform} (wire : Wire c) (p : SystemParameters c) (authority_pk : c.Pk) (k : ℕ) where
  pub peer-IsUp :
      (ledgers : Bytes → List Transaction) (a : Bytes)
      → listed a p.peer_rpc_addresses ≡ true
      → (w : World c) → Up p authority_pk ledgers k w
      → (peer_server {c = c} a).is_up w ≡ true
  peer-IsUp ledgers a l w h = rw ((h.peers a l).running) refl

  module _ (tx : Transaction) (valid : ValidTransaction wire p authority_pk tx) where
    calls-Reaches :
        (addresses : List Bytes) (ledgers : Bytes → List Transaction)
        → All (λ a. listed a p.peer_rpc_addresses ≡ true) addresses
        → Reaches
            (Up p authority_pk ledgers k)
            (collect addresses
              (λ other. make_rpc_call (peer_server other) (validate wire p other tx)))
            (λ answers w.
              All (λ answer. answer ≡ some true) answers
              × Up p authority_pk (with_transactions addresses tx ledgers) k w)
    unfolding collect with_transactions ◌>>=◌
    calls-Reaches [] ledgers all = record { at = λ w h. ([], w, refl, (tt, h)) }
    calls-Reaches (a ∷ addresses) ledgers all =
        Reaches-then _
          (make_rpc_call-Reaches (peer_server a) (validate wire p a tx) _
            (peer-IsUp ledgers a all.0)
            (validate-Reaches wire p authority_pk ledgers k a all.0 tx valid))
          λ answer. record {
            at = λ w (reply, got, (accepted, up)).
                let (answers, w', e, (others, up')) =
                  (calls-Reaches addresses (with_transaction a tx ledgers) all.1).at w up in
                (answer ∷ answers, w', rw (e) refl, ((got ∙ ap some accepted, others), up'));
          }

    answers_lem :
        (answers : List (Option Bool)) (w : World c)
        → All (λ answer. answer ≡ some true) answers
        → for_each answers (check_validated wire p) w ≡ (ok tt, w)
    unfolding for_each check_validated ◌>>=◌
    answers_lem [] w all = refl
    answers_lem (answer ∷ answers) w all = rw (all.0, answers_lem answers w all.1) refl

    every_listed :
        (addresses more : List Bytes)
        → ((a : Bytes) → listed a addresses ≡ true → listed a more ≡ true)
        → All (λ a. listed a more ≡ true) addresses
    unfolding listed
    every_listed [] more h = tt
    every_listed (a ∷ addresses) more h = (
      h a (ground (arith, bytes_equal_refl a)),
      every_listed addresses more (λ b l. h b (ground (arith, l))),
    )

    -- An honest orderer gives a valid transaction to every peer, and each accepts it.
    pub order-Reaches :
        (ledgers : Bytes → List Transaction) (self : Bytes)
        → listed self p.peer_rpc_addresses ≡ true
        → Reaches
            (Up p authority_pk ledgers k)
            (order wire p self tx)
            (λ _. Up p authority_pk (with_transactions p.peer_rpc_addresses tx ledgers) k)
    unfolding order ◌>>=◌
    order-Reaches ledgers self here =
        Reaches-bind Any
          (validate_identity-Returns wire p authority_pk ledgers k self here tx.proposal
            valid.proposal_valid)
          λ _ _.
            Reaches-then _
              (calls-Reaches p.peer_rpc_addresses ledgers
                (every_listed p.peer_rpc_addresses p.peer_rpc_addresses (λ a l. l)))
              λ answers. answered answers
      where
        answered :
            (answers : List (Option Bool))
            → Reaches
                (λ w.
                  All (λ answer. answer ≡ some true) answers
                  × Up p authority_pk (with_transactions p.peer_rpc_addresses tx ledgers) k w)
                (for_each answers (check_validated wire p) >> pure false)
                (λ _. Up p authority_pk (with_transactions p.peer_rpc_addresses tx ledgers) k)
        answered answers = record {
          at = λ w (all, up). (false, w, rw (answers_lem answers w all) refl, up);
        }
