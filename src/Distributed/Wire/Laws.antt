-- ===== src/Distributed/Wire/Laws.antt =====
-- The documented behaviour of the marshalling.
use fabric_simulator.Prelude.{ℕ, ◌≡◌, pos}
use fabric_simulator.Platform.{Platform}
use fabric_simulator.Distributed.Wire.{Wire}

-- What was marshalled is what is unmarshalled.
pub record Faithful {c : Platform} (wire : Wire c) : Type 0 where
  pub point : (x : c.Pk) → wire.point_from_bytes (wire.point_to_bytes x) ≡ x
  pub attribute : (x : c.Attribute) → wire.attribute_from_bytes (wire.attribute_to_bytes x) ≡ x
  pub nym_signature :
      (x : c.NymSignature) → wire.nym_signature_from_bytes (c.nym_signature_to_bytes x) ≡ x
  pub schnorr : (x : c.SchnorrSignature) → wire.schnorr_from_bytes (wire.schnorr_to_bytes x) ≡ x
  pub groth : (x : c.GrothSignature) → wire.groth_from_bytes (wire.groth_to_bytes x) ≡ x
  pub revocation_proof :
      (x : c.RevocationProof)
      → wire.revocation_proof_from_bytes (wire.revocation_proof_to_bytes x) ≡ x
  pub encryption :
      (x : c.AuditingEncryption) → wire.encryption_from_bytes (wire.encryption_to_bytes x) ≡ x
  pub auditing_proof :
      (x : c.AuditingProof) → wire.auditing_proof_from_bytes (wire.auditing_proof_to_bytes x) ≡ x
  pub big : (n : ℕ) → wire.big_of_int (pos n) ≡ n
