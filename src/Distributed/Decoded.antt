-- ===== src/Distributed/Decoded.antt =====
-- What the wire carries is what the simulator hands over: the decoded proposal and transaction.
pub mod Proposals
pub mod Validation
use fabric_simulator.Prelude.{ℕ, ◌≡◌, pos, Option, none, some, List, [], ◌∷◌, map}
use fabric_simulator.Platform.{Platform, Bytes}
use fabric_simulator.Params.{SystemParameters}
use fabric_simulator.Simulator.Types as Simulated
use fabric_simulator.Distributed.Wire.{Wire}
use fabric_simulator.Distributed.Types.{TransactionProposal, Endorsement, Transaction}
use fabric_simulator.Distributed.Peer.{indices_of}

module _ {c : Platform} (wire : Wire c) (p : SystemParameters c) where
  pub decoded_proposal : TransactionProposal → Simulated.TransactionProposal c
  decoded_proposal tp = record {
    hash = tp.hash;
    author_id = tp.author_id;
    chaincode = tp.chaincode;
    signature = wire.nym_signature_from_bytes tp.signature;
    author = tp.author;
    pk_nym = wire.point_from_bytes tp.pk_nym;
    indices = indices_of wire p tp;
  }

  pub decoded_endorsement : Endorsement → Simulated.Endorsement c
  decoded_endorsement e = record {
    signature = wire.schnorr_from_bytes e.signature;
    endorser = e.id;
  }

  pub decoded_transaction : Transaction → Simulated.Transaction c
  unfolding decoded_proposal decoded_endorsement
  decoded_transaction tx = record {
    signature = wire.nym_signature_from_bytes tx.signature;
    proposal = decoded_proposal tx.proposal;
    audit_proof = some (wire.auditing_proof_from_bytes tx.audit_proof);
    audit_enc = some (wire.encryption_from_bytes tx.audit_enc);
    endorsements = map decoded_endorsement tx.endorsements;
    non_revocation_proof = some (wire.revocation_proof_from_bytes tx.non_revocation_proof);
    epoch = wire.big_of_int tx.epoch;
    orderer = 0;
  }
