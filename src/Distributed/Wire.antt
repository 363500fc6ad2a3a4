-- ===== src/Distributed/Wire.antt =====
-- The marshalling of the dac library, and what else only the distributed program calls of it. An
-- error that the source drops, `x, _ := dac.PointFromBytes(b)`, leaves some value of the type.
pub mod Laws
use fabric_simulator.Prelude.{ℕ, ℤ, Bool}
use fabric_simulator.Platform.{Platform, Bytes}

pub record Wire (c : Platform) : Type 0 where
  -- dac.PointToBytes and dac.PointFromBytes, of keys and of attributes
  pub point_to_bytes : c.Pk → Bytes
  pub point_from_bytes : Bytes → c.Pk
  pub attribute_to_bytes : c.Attribute → Bytes
  pub attribute_from_bytes : Bytes → c.Attribute
  pub nym_signature_from_bytes : Bytes → c.NymSignature
  pub schnorr_to_bytes : c.SchnorrSignature → Bytes
  pub schnorr_from_bytes : Bytes → c.SchnorrSignature
  pub groth_to_bytes : c.GrothSignature → Bytes
  pub groth_from_bytes : Bytes → c.GrothSignature
  pub revocation_proof_to_bytes : c.RevocationProof → Bytes
  pub revocation_proof_from_bytes : Bytes → c.RevocationProof
  pub encryption_to_bytes : c.AuditingEncryption → Bytes
  pub encryption_from_bytes : Bytes → c.AuditingEncryption
  pub auditing_proof_to_bytes : c.AuditingProof → Bytes
  pub auditing_proof_from_bytes : Bytes → c.AuditingProof
  pub cred_request_from_bytes : Bytes → c.CredRequest
  -- the field Pk of a credential request
  pub cred_request_pk : c.CredRequest → c.Pk
  -- dac.MakeGroth(prg, true, Ys[1]).Verify(pk, signature, {user's key, epoch's point})
  pub groth_verify : c.Rand → c.YsRow → c.Pk → c.GrothSignature → c.Pk → ℕ → Bool
  -- FP256BN.NewBIGint of an `int`
  pub big_of_int : ℤ → ℕ
