-- ===== src/Tests/Toy.antt =====
-- A transparent platform, on which everything can be evaluated: keys are numbers, a signature is the
-- signer's number, a handle and a proof of non-revocation are the epoch.
use mathlib.Core.List.{foldl}
use fabric_simulator.Prelude.{
  ℕ, zero, suc, ◌+◌, ◌*◌, ◌/◌, ◌%◌, ◌≡◌, refl, Bool, true, false, none, some, [], ◌∷◌, arith, ◌==◌,
  ==_iff, replicate, get_elem?, ◌<◌,
}
use fabric_simulator.Platform.{Platform, Bytes}
use fabric_simulator.Params.{SystemParameters}
use fabric_simulator.Simulator.Types.{User, Peer, Network, World}
use fabric_simulator.Simulator.Honest.{SomePermits, Complete, HonestPeer, HonestNetwork, HonestUser}

abbrev first_is : Bytes → ℕ → Bool
first_is [] n = false
first_is (x ∷ xs) n = x == n

abbrev pub toy : Platform
toy = record {
  Rand = ℕ;
  Sk = ℕ;
  Pk = ℕ;
  Base = ℕ;
  YsRow = ℕ;
  Attribute = ℕ;
  Credentials = Bytes;
  CredRequest = ℕ;
  Proof = Bytes;
  NymSignature = ℕ;
  Schnorr = ℕ;
  SchnorrSignature = ℕ;
  GrothSignature = ℕ;
  RevocationProof = ℕ;
  AuditingEncryption = ℕ;
  AuditingProof = ℕ;
  Big = ℕ;
  Sha3State = ℕ;
  get_byte = λ r. (r % 256, r + 1);
  seed_rand = λ seed. foldl (λ n b. n + b) 0 seed;
  sha3_new = 0;
  sha3_process = λ s b. s + b;
  sha3_hash = λ s. (s % 256) ∷ replicate 31 0;
  go_int = λ seed i. seed + i;
  lapse = λ i. 1;
  Float = ℕ × ℕ;
  float_of = λ n. (n, 1);
  float_mul = λ a b. (a.0 * b.0, a.1 * b.1);
  float_div = λ a b. (a.0 * b.1, a.1 * b.0);
  float_trunc = λ a. a.0 / a.1;
  random_base = λ r. (r, r + 1);
  generate_ys = λ first n r. (r, r + 1);
  generate_keys = λ r level. (r + level, r + level, r + 1);
  generate_nym_keys = λ r sk h. (r, r, r + 1);
  pk_equal = λ a b. a == b;
  ecp_mul = λ sk. sk;
  make_credentials = λ pk. pk ∷ [];
  credentials_to_bytes = λ creds. creds;
  credentials_from_bytes = λ bs. bs;
  attribute_at = λ creds i j. i + j;
  produce_attribute = λ level text. level;
  delegate = λ creds sk pk attributes r ys. (some (pk ∷ creds), r + 1);
  credentials_verify = λ creds sk root ys. first_is creds sk;
  make_cred_request = λ r sk nonce level. (sk, r + 1);
  cred_request_validate = λ request. true;
  cred_request_to_bytes = λ request. request ∷ [];
  prove = λ creds r sk root indices ys h sk_nym. (some (sk_nym ∷ []), r + 1);
  proof_to_bytes = λ proof. proof;
  proof_from_bytes = λ bs. bs;
  verify_proof = λ proof root ys h pk_nym indices. first_is proof pk_nym;
  sign_nym = λ r pk_nym sk_nym sk h message. (pk_nym, r + 1);
  verify_nym = λ signature h pk_nym message. signature == pk_nym;
  nym_signature_to_bytes = λ signature. signature ∷ [];
  make_schnorr = λ r. (r, r + 1);
  schnorr_sign = λ schnorr sk message. sk;
  schnorr_verify = λ schnorr pk signature message. signature == pk;
  groth_generate = λ r ys. (r, r);
  sign_non_revoke = λ r sk pk epoch ys. epoch;
  revocation_prove = λ r handle sk sk_nym epoch h ys. (epoch, r + 1);
  revocation_verify = λ proof pk_nym epoch h pk ys. proof == epoch;
  auditing_encrypt = λ r auditor_pk pk. (pk, r, r + 1);
  auditing_decrypt = λ enc sk. enc;
  auditing_prove = λ r enc pk sk pk_nym sk_nym auditor_pk big h. (enc, r + 1);
  auditing_verify = λ proof enc pk_nym auditor_pk h. proof == enc;
}

self : (n : ℕ) → (n == n) ≡ true
self n = (==_iff n n).1 refl

pub toy_complete : Complete toy
toy_complete = record {
  nym = λ prg prg' sk h message. self prg;
  schnorr = λ prg prg' prg'' message. self (prg + 0);
  shown = λ prg prg' creds sk root ys h v. (prg ∷ [], refl, self prg);
  opened = λ prg prg₁ pk. self pk;
  audited = λ prg prg₁ prg₂ prg₃ sk pk h. self pk;
  unrevoked = λ prg prg₁ prg₂ prg₃ sk epoch h ys. self epoch;
}

abbrev pub parameters : SystemParameters toy
parameters = record {
  ys = (1, 2);
  h = 3;
  root_pk = 4;
  orgs = 1;
  users = 2;
  peers = 2;
  endorsements = 2;
  epoch = 60;
  transactions = 1;
  frequency = 0;
  concurrent_endorsements = 3;
  concurrent_validations = 10;
  concurrent_revocations = 10;
  bandwidth_global = 1048576;
  bandwidth_local = 104857;
  revoke = true;
  audit = true;
  audit_pk = 5;
  rpc_port = 8000;
  root_rpc_address = [];
  org_rpc_address = [];
  revocation_rpc_address = [];
  peer_rpc_addresses = [];
}

abbrev pub peer_with : ℕ → ℕ → Peer toy
peer_with key id = record { keys = record { pk = key; sk = key }; id = id }

abbrev pub user_with : ℕ → ℕ → User toy
user_with key id = record {
  holder = record { keys = record { pk = key; sk = key }; credentials = key ∷ []; id = id };
  non_revocation_handler = none;
  revocation_pk = key;
  epoch = 0;
  org = 0;
}

abbrev pub network : Network toy
network = record {
  root = record { keys = record { pk = 4; sk = 4 }; credentials = 4 ∷ []; id = 0 };
  auditor = record { pk = 12; sk = 12 };
  organizations = [];
  users = user_with 40 0 ∷ user_with 41 1 ∷ [];
  peers = peer_with 20 0 ∷ peer_with 21 1 ∷ [];
  revocation_authority = record { pk = 30; sk = 30 };
}

abbrev pub start : World toy
start = record {
  clock = 0;
  clock_reads = 0;
  crypto_events = [];
  transaction_timings = [];
  network_log = [];
  network_event_id = 1;
  connections = [];
  caches = λ id op. [];
  epoch = 1;
  transactions = [];
}

made_with : (key id : ℕ) → HonestPeer parameters (peer_with (key + 0) id)
made_with key id = record { prg = key; sk_made = refl; pk_made = refl }

toy_peer_at :
    (i : ℕ)
    → i < 2
    → (peer : Peer toy) × (get_elem? network.peers i ≡ some peer)
      × (peer.id ≡ i)
      × HonestPeer parameters peer
toy_peer_at zero h = (_, refl, refl, made_with 20 0)
toy_peer_at (suc zero) h = (_, refl, refl, made_with 21 1)
toy_peer_at (suc (suc i)) h = absurd (omega arith)

pub toy_network : HonestNetwork parameters network
toy_network = record {
  some_peers = omega arith;
  some_endorsements = omega arith;
  peer_count = refl;
  peer_at = toy_peer_at;
  auditor_prg = 10;
  auditor_sk_made = refl;
  auditor_pk_made = refl;
  authority_prg = 30;
  authority_sk_made = refl;
  authority_pk_made = refl;
}

pub toy_permits : SomePermits parameters
toy_permits = record {
  endorsing = omega arith;
  validating = omega arith;
  granting = λ on. omega arith;
}

pub toy_user : HonestUser parameters network 1 (user_with 40 0)
toy_user = record {
  credentials_hold = refl;
  revocation_key = refl;
  handle_current = λ e. absurd (omega arith);
}
