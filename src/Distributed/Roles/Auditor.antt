-- ===== src/Distributed/Roles/Auditor.antt =====
-- When the auditor of distributed/distributed.go completes.
use fabric_simulator.Prelude.{
  ◌≡◌, refl, ◌∙◌, ◌⊎◌, inl, inr, Bool, true, false, Bool-cases, ◌&&◌, Option, some, List, [], ◌∷◌,
  arith,
}
use fabric_simulator.Platform.{Platform, Bytes}
use fabric_simulator.Exec.{ok, ◌>>=◌, for_each, collect}
use fabric_simulator.Helpers.Bounds.{All}
use fabric_simulator.Params.{SystemParameters}
use fabric_simulator.Simulator.Peer.{bytes_equal}
use fabric_simulator.Simulator.Peer.Identity.{bytes_equal_refl}
use fabric_simulator.Distributed.Wire.{Wire}
use fabric_simulator.Distributed.Types.{Transaction, RpcPeer, World}
use fabric_simulator.Distributed.Rpc.{set_peer, receiver, assign, peer_server, serve, make_rpc_call}
use fabric_simulator.Distributed.Peer.{audit_transaction, audit}
use fabric_simulator.Distributed.Roles.{require_answer, run_auditor}

module _ {c : Platform} (wire : Wire c) (p : SystemParameters c) where
  -- The auditor's key opens every encryption to the key that stands in its transaction.
  unfoldable pub all_open : RpcPeer c → List Transaction → Bool
  all_open me [] = true
  all_open me (tx ∷ txs) =
      c.pk_equal (c.auditing_decrypt (wire.encryption_from_bytes tx.audit_enc) me.audit_sk)
        (wire.point_from_bytes tx.author_pk)
      && all_open me txs

  -- A peer runs at the address, and all of its ledger opens.
  pub record Auditable (w : World c) (address : Bytes) : Type 0 where
    pub peer : RpcPeer c
    pub running : w.peers address ≡ some peer
    pub opens : all_open peer peer.transactions ≡ true

  -- A peer runs at the address, and its ledger is empty.
  pub record Cleared (w : World c) (address : Bytes) : Type 0 where
    pub peer : RpcPeer c
    pub running : w.peers address ≡ some peer
    pub empty : peer.transactions ≡ []

  abbrev cleared : Bytes → RpcPeer c → World c → World c
  cleared a me w = record w { peers = set_peer a (some (record me { transactions = [] })) w.peers }

  audits_lem :
      (me : RpcPeer c) (txs : List Transaction) (w : World c)
      → all_open me txs ≡ true
      → for_each txs (audit_transaction wire p me) w ≡ (ok tt, w)
  unfolding for_each audit_transaction all_open ◌>>=◌
  audits_lem me [] w h = refl
  audits_lem me (tx ∷ txs) w h = ground (arith, audits_lem me txs w, h)

  audit_lem :
      (a : Bytes) (me : RpcPeer c) (w : World c)
      → w.peers a ≡ some me
      → all_open me me.transactions ≡ true
      → audit wire p a w ≡ (ok false, cleared a me w)
  unfolding audit receiver assign ◌>>=◌
  audit_lem a me w up opens = ground (arith, up, audits_lem me me.transactions w opens)

  call_lem :
      (a : Bytes) (me : RpcPeer c) (w : World c)
      → w.peers a ≡ some me
      → all_open me me.transactions ≡ true
      → make_rpc_call (peer_server a) (audit wire p a) w ≡ (ok (some false), cleared a me w)
  unfolding make_rpc_call serve ◌>>=◌
  call_lem a me w up opens = rw (up, audit_lem a me w up opens) refl

  set_peer-cases :
      (a b : Bytes) (new : Option (RpcPeer c)) (peers : Bytes → Option (RpcPeer c))
      → (set_peer a new peers b ≡ new) ⊎ (set_peer a new peers b ≡ peers b)
  unfolding set_peer
  set_peer-cases a b new peers = elim (Bool-cases (bytes_equal b a)) [
    | inl e ↦ inl (rw e)
    | inr e ↦ inr (rw e)
  ]

  Cleared-self : (a : Bytes) (me : RpcPeer c) (w : World c) → Cleared (cleared a me w) a
  unfolding set_peer
  Cleared-self a me w = record {
    peer = record me { transactions = [] };
    running = rw (bytes_equal_refl a);
    empty = refl;
  }

  Cleared-other :
      (a b : Bytes) (me : RpcPeer c) (w : World c) → Cleared w b → Cleared (cleared a me w) b
  Cleared-other a b me w h =
      elim (set_peer-cases a b (some (record me { transactions = [] })) w.peers) [
        | inl e ↦ record { peer = _; running = e; empty = refl }
        | inr e ↦ record { peer = h.peer; running = e ∙ h.running; empty = h.empty }
      ]

  Auditable-other :
      (a b : Bytes) (me : RpcPeer c) (w : World c) → Auditable w b → Auditable (cleared a me w) b
  unfolding all_open
  Auditable-other a b me w h =
      elim (set_peer-cases a b (some (record me { transactions = [] })) w.peers) [
        | inl e ↦ record { peer = _; running = e; opens = refl }
        | inr e ↦ record { peer = h.peer; running = e ∙ h.running; opens = h.opens }
      ]

  All-map :
      {A : Type 0} {P Q : A → Type 0} (xs : List A) → ((x : A) → P x → Q x) → All P xs → All Q xs
  All-map [] f h = tt
  All-map (x ∷ xs) f h = (f x h.0, All-map xs f h.1)

  collect_audits_lem :
      (addresses : List Bytes) (w : World c)
      → All (Auditable w) addresses
      → (answers : List (Option Bool)) × (w' : World c) × (collect addresses
            (λ a. make_rpc_call (peer_server a) (audit wire p a))
            w
          ≡ (ok answers, w'))
        × All (λ answer. answer ≡ some false) answers
        × All (Cleared w') addresses
        × ((b : Bytes) → Cleared w b → Cleared w' b)
  unfolding collect ◌>>=◌
  collect_audits_lem [] w h = ([], w, refl, tt, tt, λ b k. k)
  collect_audits_lem (a ∷ addresses) w h =
      let me = h.0.peer in
      let (answers, w', e, all_false, all_cleared, keeps) =
        collect_audits_lem addresses (cleared a me w)
          (All-map addresses (λ b. Auditable-other a b me w) h.1) in
      (
        some false ∷ answers,
        w',
        rw (call_lem a me w h.0.running h.0.opens, e) refl,
        (refl, all_false),
        (keeps a (Cleared-self a me w), all_cleared),
        λ b k. keeps b (Cleared-other a b me w k),
      )

  answers_lem :
      (answers : List (Option Bool)) (w : World c)
      → All (λ answer. answer ≡ some false) answers
      → for_each answers (require_answer {c = c}) w ≡ (ok tt, w)
  unfolding for_each require_answer ◌>>=◌
  answers_lem [] w h = refl
  answers_lem (answer ∷ answers) w h = rw (h.0, answers_lem answers w h.1) refl

  -- If at every address of the peers a peer runs and the auditor's key opens its ledger, then the
  -- auditor completes, and after it a peer runs at each of these addresses with an empty ledger.
  pub run_auditor_completes :
      (w : World c)
      → All (Auditable w) p.peer_rpc_addresses
      → (w' : World c) × (run_auditor wire p w ≡ (ok tt, w'))
        × All (Cleared w') p.peer_rpc_addresses
  unfolding run_auditor ◌>>=◌
  run_auditor_completes w h =
      let (answers, w', e, all_false, all_cleared, keeps) =
        collect_audits_lem p.peer_rpc_addresses w h in
      (w', rw (e, answers_lem answers w' all_false) refl, all_cleared)
