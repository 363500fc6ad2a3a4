-- ===== src/Platform.antt =====
-- What the program calls and does not implement: the dac library and the amcl package (credentials,
-- signatures, proofs, hashing, the random generator), and Go's math/rand and clock. `Platform` holds
-- their types and operations, one field per function or method that the source calls; a check that
-- returns an `error` is a `Bool`, true for nil. A generator that a call advances is passed on.
use fabric_simulator.Prelude.{ℕ, Bool, Option, List}

-- The bytes of a message, a hash or a marshalled value.
abbrev pub Bytes : Type 0
Bytes = List ℕ

pub record Platform : Type 1 where
  pub Rand : Type 0
  pub Sk : Type 0
  -- dac.PK, and the `interface{}` of a pseudonym's key
  pub Pk : Type 0
  -- FP256BN.ECP2, the type of the system parameter H
  pub Base : Type 0
  -- one row of sysParams.Ys
  pub YsRow : Type 0
  pub Attribute : Type 0
  pub Credentials : Type 0
  pub CredRequest : Type 0
  pub Proof : Type 0
  pub NymSignature : Type 0
  pub Schnorr : Type 0
  pub SchnorrSignature : Type 0
  pub GrothSignature : Type 0
  pub RevocationProof : Type 0
  pub AuditingEncryption : Type 0
  pub AuditingProof : Type 0
  -- FP256BN.BIG, the randomness of an auditing encryption
  pub Big : Type 0
  pub Sha3State : Type 0
  -- amcl.RAND
  pub get_byte : Rand → ℕ × Rand
  pub seed_rand : Bytes → Rand
  -- amcl.SHA3
  pub sha3_new : Sha3State
  pub sha3_process : Sha3State → ℕ → Sha3State
  pub sha3_hash : Sha3State → Bytes
  -- the i-th Int() of a math/rand source with the given seed
  pub go_int : ℕ → ℕ → ℕ
  -- the nanoseconds that pass before the i-th reading of the clock
  pub lapse : ℕ → ℕ
  -- Go's float64 and the conversion to time.Duration, which drops the fraction
  pub Float : Type 0
  pub float_of : ℕ → Float
  pub float_mul : Float → Float → Float
  pub float_div : Float → Float → Float
  pub float_trunc : Float → ℕ
  -- ECP2_generator().Mul(Randomnum(CURVE_Order, prg)), and dac.GenerateYs
  pub random_base : Rand → Base × Rand
  pub generate_ys : Bool → ℕ → Rand → YsRow × Rand
  -- dac: keys
  pub generate_keys : Rand → ℕ → Sk × Pk × Rand
  pub generate_nym_keys : Rand → Sk → Base → Sk × Pk × Rand
  pub pk_equal : Pk → Pk → Bool
  -- FP256BN.ECP_generator().Mul
  pub ecp_mul : Sk → Pk
  -- dac: credentials
  pub make_credentials : Pk → Credentials
  pub credentials_to_bytes : Credentials → Bytes
  pub credentials_from_bytes : Bytes → Credentials
  -- credentials.Attributes[i][j]
  pub attribute_at : Credentials → ℕ → ℕ → Attribute
  pub produce_attribute : ℕ → Bytes → Attribute
  pub delegate :
      Credentials → Sk → Pk → List Attribute → Rand → YsRow × YsRow → Option Credentials × Rand
  pub credentials_verify : Credentials → Sk → Pk → YsRow × YsRow → Bool
  pub make_cred_request : Rand → Sk → Bytes → ℕ → CredRequest × Rand
  pub cred_request_validate : CredRequest → Bool
  pub cred_request_to_bytes : CredRequest → Bytes
  -- credentials.Prove: sk, root key, (attribute, i, j), Ys, H, nym key
  pub prove :
      Credentials
      → Rand
      → Sk
      → Pk
      → List (ℕ × ℕ × Attribute)
      → YsRow × YsRow
      → Base
      → Sk
      → Option Proof × Rand
  pub proof_to_bytes : Proof → Bytes
  pub proof_from_bytes : Bytes → Proof
  -- proof.VerifyProof: root key, Ys, H, nym public key, disclosed attributes
  pub verify_proof : Proof → Pk → YsRow × YsRow → Base → Pk → List (ℕ × ℕ × Attribute) → Bool
  -- dac: pseudonym signatures
  pub sign_nym : Rand → Pk → Sk → Sk → Base → Bytes → NymSignature × Rand
  pub verify_nym : NymSignature → Base → Pk → Bytes → Bool
  pub nym_signature_to_bytes : NymSignature → Bytes
  -- dac: Schnorr signatures
  pub make_schnorr : Rand → Schnorr × Rand
  pub schnorr_sign : Schnorr → Sk → Bytes → SchnorrSignature
  pub schnorr_verify : Schnorr → Pk → SchnorrSignature → Bytes → Bool
  -- dac: revocation. The epoch is the number under FP256BN.NewBIGint.
  pub groth_generate : Rand → YsRow → Sk × Pk
  pub sign_non_revoke : Rand → Sk → Pk → ℕ → YsRow → GrothSignature
  pub revocation_prove : Rand → GrothSignature → Sk → Sk → ℕ → Base → YsRow → RevocationProof × Rand
  pub revocation_verify : RevocationProof → Pk → ℕ → Base → Pk → YsRow → Bool
  -- dac: auditing
  pub auditing_encrypt : Rand → Pk → Pk → AuditingEncryption × Big × Rand
  pub auditing_decrypt : AuditingEncryption → Sk → Pk
  pub auditing_prove :
      Rand → AuditingEncryption → Pk → Sk → Pk → Sk → Pk → Big → Base → AuditingProof × Rand
  pub auditing_verify : AuditingProof → AuditingEncryption → Pk → Pk → Base → Bool
