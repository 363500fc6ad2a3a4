-- ===== src/Distributed/Ledger.antt =====
-- What stands in the ledgers of the peers, whatever is called in whatever order.
pub mod Transactions
use mathlib.Core.Bool.{not}
use mathlib.Core.Path.{subst}
use fabric_simulator.Prelude.{
  ℕ, zero, suc, ◌+◌, ◌≡◌, ◌≢◌, refl, sym, ap, ◌∙◌, ◌⊎◌, inl, inr, Bool, true, false, Bool-cases,
  ◌&&◌, ◌||◌, Option, none, some, List, [], ◌∷◌, ◌++◌, length, ltb, leb, arith, if◌then◌else◌,
}
use fabric_simulator.Platform.{Platform, Bytes}
use fabric_simulator.Exec.{
  Fault, Outcome, ok, halt, Exec, pure, gets, modify, check, require, when, ◌>>=◌, ◌>>◌, for_each,
  collect,
}
use fabric_simulator.Exec.Keeps.{
  Keeps, Keeps-check, Keeps-check-bind, Keeps-modify, Keeps-when, Keeps-pure, Keeps-gets,
  Keeps-require, Keeps-if, Keeps-bind, Keeps-for_each, Keeps-collect, keeps_rules,
}
use fabric_simulator.Helpers.Bounds.{All, All-append}
use fabric_simulator.Params.{SystemParameters}
use fabric_simulator.Simulator.Peer.{bytes_equal}
use fabric_simulator.Distributed.Wire.{Wire}
use fabric_simulator.Distributed.Types.{
  TransactionProposal, Endorsement, Transaction, RpcPeer, User, World, NonRevocationRequest,
}
use fabric_simulator.Distributed.Rpc.{
  Server, now, sleep, fresh_rand, set_peer, receiver, assign, peer_server, revocation_server,
  answer, serve, make_rpc_call, make_rpc_call_sync,
}
use fabric_simulator.Distributed.Proposal.{get_message, make_transaction_proposal}
use fabric_simulator.Distributed.Peer.{
  audit_transaction, audit, validate_identity, check_endorsement, execute_chaincode, validate,
  check_validated, order, endorse,
}
use fabric_simulator.Distributed.Peer.Validation.{well_formed}
use fabric_simulator.Distributed.Revocation as Authority
use fabric_simulator.Distributed.User.{
  update_nrh, accept_endorsement, prove_non_revocation, prove_auditing, build_transaction,
  send_transaction, send_proposal, submit_transaction, run_transactions,
}

module _ {S B : Type 0} {P : S → Type 0} where
  Keeps-when-check-bind :
      (flag b : Bool) (e : Fault) (m : Exec S B)
      → ((not flag || b) ≡ true → Keeps P m)
      → Keeps P (when flag (check b e) >> m)
  unfolding ◌>>=◌
  Keeps-when-check-bind false b e m k = record { at = λ s h. (k refl).at s h }
  Keeps-when-check-bind true true e m k = record { at = λ s h. (k refl).at s h }
  Keeps-when-check-bind true false e m k = record { at = λ s h. h }

module _ {c : Platform} (wire : Wire c) (p : SystemParameters c) (authority_pk : c.Pk) where
  -- Every transaction in the peer's ledger has a valid signature, enough endorsements and the proofs
  -- that are asked for.
  pub record SoundLedger (peer : RpcPeer c) : Type 0 where
    pub same_authority : peer.revocation_pk ≡ authority_pk
    pub all_well_formed : All (λ tx. well_formed wire p authority_pk tx ≡ true) peer.transactions

  abbrev pub LedgersSound : World c → Type 0
  LedgersSound w =
      (address : Bytes) (peer : RpcPeer c) → w.peers address ≡ some peer → SoundLedger peer

  set_peer-SoundLedger :
      (address : Bytes) (changed : Option (RpcPeer c)) (peers : Bytes → Option (RpcPeer c))
      → ((peer : RpcPeer c) → changed ≡ some peer → SoundLedger peer)
      → ((a : Bytes) (peer : RpcPeer c) → peers a ≡ some peer → SoundLedger peer)
      → (a : Bytes) (peer : RpcPeer c) → set_peer address changed peers a ≡ some peer
      → SoundLedger peer
  unfolding set_peer
  set_peer-SoundLedger address changed peers new old a peer e =
      elim (Bool-cases (bytes_equal a address)) [
        | inl same ↦ new peer (ground (arith, e, same))
        | inr other ↦ old a peer (ground (arith, e, other))
      ]

  pub now-Keeps : Keeps LedgersSound (now c)
  unfolding now
  now-Keeps = record { at = λ s h. h }

  sleep-Keeps : (n : ℕ) → Keeps LedgersSound (sleep c n)
  unfolding sleep
  sleep-Keeps n = Keeps-modify _ (λ s h. h)

  pub fresh_rand-Keeps : Keeps LedgersSound (fresh_rand c)
  unfolding fresh_rand
  fresh_rand-Keeps = search (keeps_rules, now-Keeps)

  pub ticks-Keeps : (n : ℕ) (w : World c) → LedgersSound w → LedgersSound (Authority.ticks n w)
  unfolding Authority.ticks
  ticks-Keeps zero w h = h
  ticks-Keeps (suc n) w h = ticks-Keeps n _ h

  -- The rest of a method may use what holds of its receiver.
  Keeps-receiver-bind :
      {B : Type 0} (self : Bytes) (f : RpcPeer c → Exec (World c) B)
      → ((me : RpcPeer c) → SoundLedger me → Keeps LedgersSound (f me))
      → Keeps LedgersSound (receiver self >>= f)
  unfolding receiver ◌>>=◌
  Keeps-receiver-bind self f k = record { at = λ s h. at_peer s h (s.peers self) refl }
    where
      at_peer :
          (s : World c)
          → LedgersSound s
          → (o : Option (RpcPeer c)) → s.peers self ≡ o
          → LedgersSound ((receiver self >>= f) s).1
      at_peer s h none e = rw e h
      at_peer s h (some me) e = rw e ((k me (h self me e)).at s h)

  assign-Keeps :
      (self : Bytes) (f : RpcPeer c → RpcPeer c)
      → ((me : RpcPeer c) → SoundLedger me → SoundLedger (f me))
      → Keeps LedgersSound (assign self f)
  unfolding assign
  assign-Keeps self f k = Keeps-receiver-bind self _ λ me sound. Keeps-modify _ λ s h.
      set_peer-SoundLedger self (some (f me)) s.peers
        (λ peer e. subst SoundLedger (some-eq e) (k me sound)) h
    where
      some-eq : {a b : RpcPeer c} → some a ≡ some b → a ≡ b
      some-eq e = cc

  module _ {A : Type 0} where
    serve-Keeps :
        (server : Server c) (m : Exec (World c) A)
        → ((w : World c) → LedgersSound w → LedgersSound (server.ended w))
        → Keeps LedgersSound m
        → Keeps LedgersSound (serve server m)
    unfolding serve
    serve-Keeps server m ends k = record { at = λ s h. after (m s).0 (m s).1 (k.at s h) }
      where
        after :
            (o : Outcome A) (w : World c) → LedgersSound w → LedgersSound (answer server (o, w)).1
        after (ok a) w h = h
        after (halt f) w h = ends w h

    pub make_rpc_call-Keeps :
        (server : Server c) (m : Exec (World c) A)
        → ((w : World c) → LedgersSound w → LedgersSound (server.ended w))
        → Keeps LedgersSound m
        → Keeps LedgersSound (make_rpc_call server m)
    unfolding make_rpc_call
    make_rpc_call-Keeps server m ends k =
        Keeps-bind _ _ (Keeps-gets _)
          λ up. Keeps-bind _ _ (Keeps-check up _) λ _. serve-Keeps server m ends k

    pub make_rpc_call_sync-Keeps :
        (server : Server c) (zero_value : A) (m : Exec (World c) A)
        → ((w : World c) → LedgersSound w → LedgersSound (server.ended w))
        → Keeps LedgersSound m
        → Keeps LedgersSound (make_rpc_call_sync server zero_value m)
    unfolding make_rpc_call_sync
    make_rpc_call_sync-Keeps server zero_value m ends k =
        search (keeps_rules, make_rpc_call-Keeps server m ends k)

  pub peer-ended :
      (address : Bytes) (w : World c)
      → LedgersSound w
      → LedgersSound ((peer_server address).ended w)
  peer-ended address w h = set_peer-SoundLedger address none w.peers (λ peer e. cc) h

  validate_identity-Keeps :
      (self proof : Bytes) (pk_nym : c.Pk) (indices : List (ℕ × ℕ × c.Attribute))
      → Keeps LedgersSound (validate_identity wire p self proof pk_nym indices)
  unfolding validate_identity
  validate_identity-Keeps self proof pk_nym indices = Keeps-receiver-bind self _ λ me sound.
      Keeps-if _ _ _ (Keeps-pure _) (
        Keeps-bind _ _ (Keeps-check _ _) λ _.
          assign-Keeps self _ λ me s. record {
            same_authority = s.same_authority;
            all_well_formed = s.all_well_formed;
          })

  execute_chaincode-Keeps : Keeps LedgersSound (execute_chaincode c)
  unfolding execute_chaincode
  execute_chaincode-Keeps = sleep-Keeps _

  pub check_endorsement-Keeps :
      (schnorr : c.Schnorr) (message : Bytes) (e : Endorsement)
      → Keeps LedgersSound (check_endorsement wire p schnorr message e)
  unfolding check_endorsement
  check_endorsement-Keeps schnorr message e = Keeps-check _ _

  validate-Keeps : (self : Bytes) (tx : Transaction) → Keeps LedgersSound (validate wire p self tx)
  unfolding validate well_formed get_message
  validate-Keeps self tx = Keeps-check-bind _ _ _ λ signed. Keeps-check-bind _ _ _ λ enough.
      Keeps-bind _ _ fresh_rand-Keeps λ prg.
        Keeps-bind _ _ (Keeps-for_each tx.endorsements _ (check_endorsement-Keeps _ _)) λ _.
          Keeps-bind _ _ (validate_identity-Keeps self _ _ _) λ _.
            Keeps-when-check-bind p.audit _ _ _ λ audited. Keeps-receiver-bind self _ λ me sound.
              Keeps-when-check-bind p.revoke _ _ _ λ unrevoked.
                Keeps-bind _ _ execute_chaincode-Keeps λ _.
                  Keeps-bind _ _
                    (assign-Keeps self _ λ peer s. record {
                      same_authority = s.same_authority;
                      all_well_formed = All-append _ peer.transactions (tx ∷ []) s.all_well_formed (
                        ground (arith, signed, enough, audited, unrevoked, sound.same_authority),
                        tt,
                      );
                    })
                    λ _. Keeps-pure _

  check_validated-Keeps : (a : Option Bool) → Keeps LedgersSound (check_validated wire p a)
  unfolding check_validated
  check_validated-Keeps a = search keeps_rules

  pub order-Keeps : (self : Bytes) (tx : Transaction) → Keeps LedgersSound (order wire p self tx)
  unfolding order
  order-Keeps self tx = Keeps-bind _ _ (validate_identity-Keeps self _ _ _) λ _.
      Keeps-bind _ _
        (Keeps-collect p.peer_rpc_addresses _ λ other.
          make_rpc_call-Keeps (peer_server other) _ (peer-ended other) (validate-Keeps other tx))
        λ answers. Keeps-bind _ _ (Keeps-for_each answers _ check_validated-Keeps) λ _. Keeps-pure _

  pub endorse-Keeps :
      (self : Bytes) (tp : TransactionProposal) → Keeps LedgersSound (endorse wire p self tp)
  unfolding endorse
  endorse-Keeps self tp = Keeps-bind _ _ (Keeps-check _ _) λ _.
      Keeps-bind _ _ (validate_identity-Keeps self _ _ _) λ _.
        Keeps-bind _ _ (validate_identity-Keeps self _ _ _) λ _.
          Keeps-bind _ _ execute_chaincode-Keeps λ _.
            Keeps-bind _ _ fresh_rand-Keeps
              λ prg. Keeps-receiver-bind self _ λ me sound. Keeps-pure _

  -- An audit clears the ledger of one peer, or ends the peer.
  audit-Keeps : (self : Bytes) → Keeps LedgersSound (audit wire p self)
  unfolding audit audit_transaction
  audit-Keeps self = Keeps-receiver-bind self _ λ me sound.
      Keeps-bind _ _ (Keeps-for_each me.transactions _ λ tx. Keeps-check _ _) λ _.
        Keeps-bind _ _
          (assign-Keeps self _
            λ peer s. record { same_authority = s.same_authority; all_well_formed = tt })
          λ _. Keeps-pure _
