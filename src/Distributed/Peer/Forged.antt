-- ===== src/Distributed/Peer/Forged.antt =====
-- Endorsements that no peer made.
use fabric_simulator.Prelude.{ℕ, ◌≤◌, ◌≡◌, refl, true, some, List, [], ◌∷◌, length, map, arith}
use fabric_simulator.Platform.{Platform, Bytes}
use fabric_simulator.Exec.{ok}
use fabric_simulator.Helpers.{new_rand}
use fabric_simulator.Params.{SystemParameters}
use fabric_simulator.Simulator.Honest.{Complete}
use fabric_simulator.Distributed.Wire.{Wire}
use fabric_simulator.Distributed.Types.{Endorsement, Transaction, RpcPeer, World}
use fabric_simulator.Distributed.Rpc.{clock_after}
use fabric_simulator.Distributed.Proposal.{get_message}
use fabric_simulator.Distributed.Peer.{validate}
use fabric_simulator.Distributed.Peer.Validation.{
  signed_endorsement, all_signed, well_formed, identified, validate_rpc_iff,
}
use fabric_simulator.Distributed.Wire.Laws.{Faithful}

-- What an endorsement is made from by someone with a generator of its own: two states of it, and the id
-- that it claims.
abbrev pub Forger : Platform → Type 0
Forger c = c.Rand × c.Rand × ℕ

module _ {c : Platform} (wire : Wire c) (p : SystemParameters c) where
  -- A fresh pair of keys signs, and its public key is put into the endorsement.
  unfoldable pub forge : Bytes → Forger c → Endorsement
  forge message (prg, prg', id) =
      let (sk, pk, _) = c.generate_keys prg 0 in
      record {
        signature = wire.schnorr_to_bytes (c.schnorr_sign (c.make_schnorr prg').0 sk message);
        pk = wire.point_to_bytes pk;
        id = id;
      }

  all_signed-forge :
      Complete c
      → Faithful wire
      → (prg : c.Rand) (message : Bytes) (forgers : List (Forger c))
      → all_signed wire p (c.make_schnorr prg).0 message (map (forge message) forgers) ≡ true
  unfolding all_signed signed_endorsement forge
  all_signed-forge laws faithful prg message [] = refl
  all_signed-forge laws faithful prg message ((prg₁, prg₂, id) ∷ forgers) = ground (
    arith,
    faithful.point (c.generate_keys prg₁ 0).1,
    faithful.schnorr (c.schnorr_sign (c.make_schnorr prg₂).0 (c.generate_keys prg₁ 0).0 message),
    laws.schnorr prg₁ prg prg₂ message,
    all_signed-forge laws faithful prg message forgers,
  )

  length-map-forge :
      (message : Bytes) (forgers : List (Forger c))
      → length (map (forge message) forgers) ≡ length forgers
  length-map-forge message [] = refl
  length-map-forge message (f ∷ fs) = omega (arith, length-map-forge message fs)

  forged : Transaction → List (Forger c) → Transaction
  forged tx forgers = record tx { endorsements = map (forge (get_message tx.proposal)) forgers }

  -- With a complete signature scheme and faithful marshalling: a transaction that a peer accepts is
  -- accepted too when its endorsements are replaced by enough others that are signed with any freshly
  -- made keys, whatever ids they claim.
  pub validate-forged :
      Complete c
      → Faithful wire
      → (self : Bytes) (me : RpcPeer c) (tx : Transaction) (forgers : List (Forger c)) (w : World c)
      → w.peers self ≡ some me
      → p.endorsements ≤ length forgers
      → (validate wire p self tx w).0 ≡ ok true
      → (validate wire p self
          (record tx { endorsements = map (forge (get_message tx.proposal)) forgers })
          w).0
        ≡ ok true
  unfolding well_formed identified forged
  validate-forged laws faithful self me tx forgers w here enough accepted =
      let was = (validate_rpc_iff wire p self me tx w here).0 accepted in
      (validate_rpc_iff wire p self me (forged tx forgers) w here).1 (
        ground (
          arith,
          was,
          length-map-forge (get_message tx.proposal) forgers,
          all_signed-forge laws faithful (new_rand c (clock_after c w)) (get_message tx.proposal)
              forgers,
        ))
