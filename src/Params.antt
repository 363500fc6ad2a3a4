-- ===== src/Params.antt =====
-- helpers/sysparams.go: the parameters of a simulation and how they are made.
use fabric_simulator.Prelude.{ℕ, Bool, true, false, List}
use fabric_simulator.Platform.{Platform, Bytes}

abbrev pub ys_num : ℕ
ys_num = 10

abbrev pub nonce_size : ℕ
nonce_size = 32

-- The counts are `int` in the source; the model takes them as natural numbers.
pub record SystemParameters (c : Platform) : Type 0 where
  pub ys : c.YsRow × c.YsRow
  pub h : c.Base
  pub root_pk : c.Pk
  pub orgs : ℕ
  pub users : ℕ
  pub peers : ℕ
  pub endorsements : ℕ
  pub epoch : ℕ
  pub transactions : ℕ
  pub frequency : ℕ
  pub concurrent_endorsements : ℕ
  pub concurrent_validations : ℕ
  pub concurrent_revocations : ℕ
  pub bandwidth_global : ℕ
  pub bandwidth_local : ℕ
  pub revoke : Bool
  pub audit : Bool
  pub audit_pk : c.Pk
  pub rpc_port : ℕ
  pub root_rpc_address : Bytes
  pub org_rpc_address : Bytes
  pub revocation_rpc_address : Bytes
  pub peer_rpc_addresses : List Bytes

-- The numbers, flags and addresses that the command line gives.
pub record Settings : Type 0 where
  pub orgs : ℕ
  pub users : ℕ
  pub peers : ℕ
  pub endorsements : ℕ
  pub epoch : ℕ
  pub bandwidth_global : ℕ
  pub bandwidth_local : ℕ
  pub concurrent_endorsements : ℕ
  pub concurrent_validations : ℕ
  pub concurrent_revocations : ℕ
  pub transactions : ℕ
  pub frequency : ℕ
  pub revoke : Bool
  pub audit : Bool
  pub rpc_port : ℕ
  pub root_rpc_address : Bytes
  pub org_rpc_address : Bytes
  pub revocation_rpc_address : Bytes
  pub peer_rpc_addresses : List Bytes

module _ (c : Platform) where
  -- The parameters, the root's secret key, the auditor's secret key, and the generator after them.
  unfoldable pub make_system_parameters :
      c.Rand → Settings → SystemParameters c × c.Sk × c.Sk × c.Rand
  make_system_parameters prg s =
      let (h, prg₁) = c.random_base prg in
      let (ys₀, prg₂) = c.generate_ys false ys_num prg₁ in
      let (ys₁, prg₃) = c.generate_ys true ys_num prg₂ in
      let (root_sk, root_pk, prg₄) = c.generate_keys prg₃ 0 in
      let (audit_sk, audit_pk, prg₅) = c.generate_keys prg₄ 2 in
      (
        record {
          ys = (ys₀, ys₁);
          h = h;
          root_pk = root_pk;
          orgs = s.orgs;
          users = s.users;
          peers = s.peers;
          endorsements = s.endorsements;
          epoch = s.epoch;
          transactions = s.transactions;
          frequency = s.frequency;
          concurrent_endorsements = s.concurrent_endorsements;
          concurrent_validations = s.concurrent_validations;
          concurrent_revocations = s.concurrent_revocations;
          bandwidth_global = s.bandwidth_global;
          bandwidth_local = s.bandwidth_local;
          revoke = s.revoke;
          audit = s.audit;
          audit_pk = audit_pk;
          rpc_port = s.rpc_port;
          root_rpc_address = s.root_rpc_address;
          org_rpc_address = s.org_rpc_address;
          revocation_rpc_address = s.revocation_rpc_address;
          peer_rpc_addresses = s.peer_rpc_addresses;
        },
        root_sk,
        audit_sk,
        prg₅,
      )
