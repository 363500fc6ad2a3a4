-- ===== src/Distributed/Peer/Validation.antt =====
-- When the peer behind an address accepts a transaction.
use mathlib.Core.Bool.{not}
use fabric_simulator.Prelude.{
  ◌+◌, ◌≡◌, ◌↔◌, refl, Bool, true, ◌&&◌, ◌||◌, Option, some, List, [], ◌∷◌, ◌++◌, length, arith,
  leb, if◌then◌else◌,
}
use fabric_simulator.Platform.{Platform, Bytes}
use fabric_simulator.Exec.{ok, halt, bad_identity, ◌>>=◌, for_each}
use fabric_simulator.Helpers.{new_rand, sha3}
use fabric_simulator.Params.{SystemParameters}
use fabric_simulator.Simulator.Peer.{cache_key, is_cached}
use fabric_simulator.Simulator.Peer.Identity.{bytes_equal_refl}
use fabric_simulator.Distributed.Wire.{Wire}
use fabric_simulator.Distributed.Types.{
  TransactionProposal, Endorsement, Transaction, RpcPeer, World,
}
use fabric_simulator.Distributed.Rpc.{
  clock_after, now, sleep, fresh_rand, set_peer, receiver, assign,
}
use fabric_simulator.Distributed.Proposal.{get_message}
use fabric_simulator.Distributed.Peer.{
  indices_of, check_endorsement, validate_identity, execute_chaincode, validate,
}

module _ {c : Platform} (wire : Wire c) (p : SystemParameters c) where
  -- The signature verifies under the key that the endorsement carries.
  unfoldable pub signed_endorsement : c.Schnorr → Bytes → Endorsement → Bool
  signed_endorsement schnorr message e =
      c.schnorr_verify schnorr (wire.point_from_bytes e.pk) (wire.schnorr_from_bytes e.signature)
        message

  unfoldable pub all_signed : c.Schnorr → Bytes → List Endorsement → Bool
  unfolding signed_endorsement
  all_signed schnorr message [] = true
  all_signed schnorr message (e ∷ es) =
      signed_endorsement schnorr message e && all_signed schnorr message es

  -- What is asked of a transaction but for its endorsements' signatures and its identity.
  unfoldable pub well_formed : c.Pk → Transaction → Bool
  unfolding get_message
  well_formed authority_pk tx =
      let pk_nym = wire.point_from_bytes tx.proposal.pk_nym in
      c.verify_nym (wire.nym_signature_from_bytes tx.signature) p.h pk_nym (get_message tx.proposal)
      && (leb p.endorsements (length tx.endorsements)
          && ((not p.audit
                || c.auditing_verify (wire.auditing_proof_from_bytes tx.audit_proof)
                    (wire.encryption_from_bytes tx.audit_enc) pk_nym p.audit_pk p.h)
              && (not p.revoke
                  || c.revocation_verify (wire.revocation_proof_from_bytes tx.non_revocation_proof)
                      pk_nym (wire.big_of_int tx.epoch) p.h authority_pk p.ys.1)))

  -- The author's proof is in the cache, or verifies.
  unfoldable pub identified : RpcPeer c → TransactionProposal → Bool
  unfolding indices_of
  identified me tp =
      is_cached (cache_key (sha3 c tp.author)) me.cache
      || c.verify_proof (c.proof_from_bytes tp.author) p.root_pk p.ys p.h
          (wire.point_from_bytes tp.pk_nym) (indices_of wire p tp)

  module _ (self : Bytes) (me : RpcPeer c) where
    set_peer-self :
        (peer : Option (RpcPeer c)) (peers : Bytes → Option (RpcPeer c))
        → set_peer self peer peers self ≡ peer
    unfolding set_peer
    set_peer-self peer peers = rw (bytes_equal_refl self)

    checks_lem :
        (schnorr : c.Schnorr) (message : Bytes) (es : List Endorsement) (w : World c)
        → ((for_each es (check_endorsement wire p schnorr message) w).1 ≡ w)
          × (((for_each es (check_endorsement wire p schnorr message) w).0 ≡ ok tt)
              ↔ (all_signed schnorr message es ≡ true))
    unfolding for_each check_endorsement all_signed ◌>>=◌
    checks_lem schnorr message [] w = (refl, (λ _. refl, λ _. refl))
    checks_lem schnorr message (e ∷ es) w = ground (arith, checks_lem schnorr message es w)

    -- The peer after it identified the author of a proposal.
    pub after_identity : Bytes → RpcPeer c
    after_identity author =
        if is_cached (cache_key (sha3 c author)) me.cache
        then me
        else record me { cache = me.cache ++ cache_key (sha3 c author) ∷ [] }

    pub validate_identity_lem :
        (tp : TransactionProposal) (w : World c)
        → w.peers self ≡ some me
        → validate_identity wire p self tp.author
            (wire.point_from_bytes tp.pk_nym)
            (indices_of wire p tp)
            w
          ≡ (if is_cached (cache_key (sha3 c tp.author)) me.cache
              then (ok tt, w)
              else if c.verify_proof
                  (c.proof_from_bytes tp.author)
                  p.root_pk
                  p.ys
                  p.h
                  (wire.point_from_bytes tp.pk_nym)
                  (indices_of wire p tp)
              then (
                ok tt,
                record w { peers = set_peer self (some (after_identity tp.author)) w.peers },
              )
              else (halt bad_identity, w))
    unfolding validate_identity after_identity receiver assign ◌>>=◌
    validate_identity_lem tp w here = ground (arith, here)

    module _ (tx : Transaction) (w : World c) (here : w.peers self ≡ some me) where
      abbrev pub accepts : Bool
      accepts =
          well_formed me.revocation_pk tx
          && (all_signed (c.make_schnorr (new_rand c (clock_after c w))).0 (get_message tx.proposal)
                tx.endorsements
              && identified me tx.proposal)

      abbrev checking : World c
      checking = record w { clock = clock_after c w; clock_reads = w.clock_reads + 1 }

      -- A peer that runs at an address replies `true` to a transaction exactly when the transaction is well
      -- formed under the key of the authority that the peer has, all endorsements are signed with the
      -- keys that they carry, and the author's proof is cached or verifies.
      pub validate_rpc_iff : ((validate wire p self tx w).0 ≡ ok true) ↔ (accepts ≡ true)
      unfolding validate well_formed identified get_message fresh_rand now sleep execute_chaincode
          receiver assign after_identity ◌>>=◌
      validate_rpc_iff = ground (
        arith,
        here,
        checks_lem (c.make_schnorr (new_rand c (clock_after c w))).0 (get_message tx.proposal)
            tx.endorsements checking,
        validate_identity_lem tx.proposal checking here,
        set_peer-self (some (after_identity tx.proposal.author)) w.peers,
      )

      -- The peer once the transaction is in its ledger.
      abbrev pub recorded : RpcPeer c
      recorded = record (after_identity tx.proposal.author) {
        transactions = (after_identity tx.proposal.author).transactions ++ tx ∷ [];
      }

      -- After a transaction that a peer accepts, the peer still runs, the transaction is the last of its
      -- ledger, and the key of the author's proof is in its cache.
      pub validate-recorded :
          accepts ≡ true → (validate wire p self tx w).1.peers self ≡ some recorded
      unfolding validate well_formed identified get_message fresh_rand now sleep execute_chaincode
          receiver assign after_identity ◌>>=◌
      validate-recorded good = ground (
        arith,
        here,
        checks_lem (c.make_schnorr (new_rand c (clock_after c w))).0 (get_message tx.proposal)
            tx.endorsements checking,
        validate_identity_lem tx.proposal checking here,
        set_peer-self (some (after_identity tx.proposal.author)) w.peers,
        set_peer-self (some recorded) w.peers,
        set_peer-self (some recorded)
            (set_peer self (some (after_identity tx.proposal.author)) w.peers),
      )
