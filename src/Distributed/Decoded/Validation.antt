-- ===== src/Distributed/Decoded/Validation.antt =====
-- A peer behind an address accepts what the simulated peer accepts, if every endorsement carries the
-- key of the peer that it names.
use fabric_simulator.Prelude.{
  ◌≡◌, ◌↔◌, refl, arith, true, some, List, [], ◌∷◌, length, map, get_elem?,
}
use fabric_simulator.Platform.{Platform, Bytes}
use fabric_simulator.Exec.{ok}
use fabric_simulator.Helpers.{new_rand}
use fabric_simulator.Helpers.Bounds.{All}
use fabric_simulator.Params.{SystemParameters}
use fabric_simulator.Simulator.Types as Simulated
use fabric_simulator.Simulator.Env as SimulatedEnv
use fabric_simulator.Simulator.Proposal as SimulatedProposal
use fabric_simulator.Simulator.Peer as SimulatedPeer
use fabric_simulator.Simulator.Peer.Validation as SimulatedValidation
use fabric_simulator.Distributed.Wire.{Wire}
use fabric_simulator.Distributed.Types.{Endorsement, Transaction, RpcPeer, World}
use fabric_simulator.Distributed.Rpc.{clock_after}
use fabric_simulator.Distributed.Proposal.{get_message}
use fabric_simulator.Distributed.Peer.{indices_of, validate}
use fabric_simulator.Distributed.Peer.Validation.{
  signed_endorsement, all_signed, well_formed, identified, accepts, validate_rpc_iff,
}
use fabric_simulator.Distributed.Decoded.{
  decoded_proposal, decoded_endorsement, decoded_transaction,
}

module _ {c : Platform} (wire : Wire c) (p : SystemParameters c) where
  -- The endorsement's id is that of a peer, and its key is that peer's.
  unfoldable pub NamesPeer : Simulated.Network c → Endorsement → Type 0
  NamesPeer net e =
      (peer : Simulated.Peer c) × (get_elem? net.peers e.id ≡ some peer)
      × (wire.point_from_bytes e.pk ≡ peer.pk)

  length-map_decoded :
      (es : List Endorsement) → length (map (decoded_endorsement wire p) es) ≡ length es
  length-map_decoded [] = refl
  length-map_decoded (e ∷ es) = omega (arith, length-map_decoded es)

  all_valid-decoded :
      (net : Simulated.Network c) (schnorr : c.Schnorr) (message : Bytes) (es : List Endorsement)
      → All (NamesPeer net) es
      → SimulatedValidation.all_valid net.peers schnorr message
          (map (decoded_endorsement wire p) es)
        ≡ all_signed wire p schnorr message es
  unfolding NamesPeer SimulatedValidation.all_valid SimulatedValidation.valid_endorsement all_signed
      signed_endorsement decoded_endorsement
  all_valid-decoded net schnorr message [] all = refl
  all_valid-decoded net schnorr message (e ∷ es) all =
      let (peer, at, same) = all.0 in
      ground (arith, at, same, all_valid-decoded net schnorr message es all.1)

  -- The simulated peer, network and world have the keys, cache and clock that this peer and world have.
  pub record Agree (net : Simulated.Network c) (peer : Simulated.Peer c) (v : Simulated.World c)
      (me : RpcPeer c) (w : World c) : Type 0 where
    pub auditor : net.auditor.pk ≡ p.audit_pk
    pub authority : net.revocation_authority.pk ≡ me.revocation_pk
    pub cache : v.caches peer.id Simulated.Operation.verification ≡ me.cache
    pub clock : v.clock ≡ w.clock
    pub clock_reads : v.clock_reads ≡ w.clock_reads

  module _ (net : Simulated.Network c) (peer : Simulated.Peer c) (v : Simulated.World c)
      (self : Bytes) (me : RpcPeer c) (w : World c) where
    accepts-decoded :
        (tx : Transaction) (here : w.peers self ≡ some me)
        → Agree net peer v me w
        → All (NamesPeer net) tx.endorsements
        → (SimulatedValidation.accepts p net peer (decoded_transaction wire p tx) v ≡ true)
          ↔ (accepts wire p self me tx w here ≡ true)
    unfolding SimulatedValidation.accepts SimulatedValidation.holds well_formed identified
        decoded_transaction decoded_proposal get_message SimulatedProposal.get_message
        SimulatedProposal.message_of clock_after SimulatedEnv.clock_after indices_of
    accepts-decoded tx here agree all =
        rw
          (
            agree.auditor,
            agree.authority,
            agree.cache,
            agree.clock,
            agree.clock_reads,
            length-map_decoded tx.endorsements,
            all_valid-decoded net (c.make_schnorr (new_rand c (clock_after c w))).0
                (get_message tx.proposal) tx.endorsements all,
          )
          (ground arith)

    -- If every endorsement carries the key of the peer that it names, and the two worlds agree on keys,
    -- cache and clock, then the peer behind the address accepts a transaction exactly when the simulated
    -- peer accepts the decoded one.
    pub validate-decoded :
        (tx : Transaction)
        → w.peers self ≡ some me
        → Agree net peer v me w
        → All (NamesPeer net) tx.endorsements
        → ((validate wire p self tx w).0 ≡ ok true)
          ↔ ((SimulatedPeer.validate p net peer (decoded_transaction wire p tx) v).0 ≡ ok tt)
    validate-decoded tx here agree all =
        let (a, b) = validate_rpc_iff wire p self me tx w here in
        let (a', b') =
          SimulatedValidation.validate_iff p net peer (decoded_transaction wire p tx) v in
        let (to, from) = accepts-decoded tx here agree all in
        (λ h. b' (from (a h)), λ h. b (to (a' h)))
