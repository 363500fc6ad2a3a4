-- ===== src/Main.antt =====
-- main/main.go: the command line. Parsing it is the cli library's work; what an action asks the library
-- for is a parameter.
use fabric_simulator.Prelude.{
  ℕ, ◌-◌, ◌*◌, ◌/◌, ◌%◌, Bool, false, ◌&&◌, List, [], ◌∷◌, ◌++◌, map, length, leb, if◌then◌else◌,
}
use fabric_simulator.Platform.{Platform, Bytes}
use fabric_simulator.Exec.{Outcome, ok, halt, bad_verbosity}
use fabric_simulator.Helpers.{codes, new_rand_seed}
use fabric_simulator.Params.{SystemParameters, Settings, make_system_parameters}
use fabric_simulator.Simulator.Peer.{bytes_equal}

-- A flag with its default value.
pub data Flag : Type 0 where
  int_flag : Bytes → ℕ → Flag
  bool_flag : Bytes → Bool → Flag
  string_flag : Bytes → Bytes → Flag
  string_slice_flag : Bytes → List Bytes → Flag

abbrev pub common_flags : List Flag
common_flags =
    int_flag (codes "orgs") 10
    ∷ int_flag (codes "users") 10
    ∷ int_flag (codes "peers") 5
    ∷ int_flag (codes "endorsements") 2
    ∷ int_flag (codes "epoch") 60
    ∷ int_flag (codes "transactions") 25
    ∷ int_flag (codes "frequency") 20
    ∷ bool_flag (codes "revoke") false
    ∷ bool_flag (codes "audit") false
    ∷ []

abbrev pub app_flags : List Flag
app_flags = string_flag (codes "verbose") (codes "NOTICE") ∷ int_flag (codes "seed") 19 ∷ []

abbrev pub client_flags : List Flag
client_flags =
    int_flag (codes "runs") 1000
    ∷ int_flag (codes "concurrent") 100
    ∷ bool_flag (codes "trust") false
    ∷ []

abbrev pub simulator_flags : List Flag
simulator_flags =
    common_flags
    ++ int_flag (codes "bandwidth-global") (1024 * 1024)
      ∷ int_flag (codes "bandwidth-local") (1024 * 1024 / 10)
      ∷ int_flag (codes "conc-endorsements") 3
      ∷ int_flag (codes "conc-validations") 10
      ∷ int_flag (codes "conc-revocations") 10
      ∷ []

abbrev pub distributed_flags : List Flag
distributed_flags =
    common_flags
    ++ bool_flag (codes "root") false
      ∷ bool_flag (codes "revocation") false
      ∷ bool_flag (codes "auditor") false
      ∷ int_flag (codes "organization") 0
      ∷ int_flag (codes "peer") 0
      ∷ int_flag (codes "user") 0
      ∷ int_flag (codes "rpc-port") 8000
      ∷ string_flag (codes "root-address") (codes "localhost:8100")
      ∷ string_flag (codes "org-address") (codes "localhost:8200")
      ∷ string_flag (codes "revocation-address") (codes "localhost:8300")
      ∷ string_slice_flag (codes "peer-addresses") (codes "localhost:8400" ∷ [])
      ∷ []

-- cli.Context: what the library answers for a name.
pub record Context : Type 0 where
  pub int : Bytes → ℕ
  pub bool : Bytes → Bool
  pub string : Bytes → Bytes
  pub string_slice : Bytes → List Bytes

unfoldable pub settings : Context → Settings
settings c = record {
  orgs = c.int (codes "orgs");
  users = c.int (codes "users");
  peers = c.int (codes "peers");
  endorsements = c.int (codes "endorsements");
  epoch = c.int (codes "epoch");
  bandwidth_global = c.int (codes "bandwidth-global");
  bandwidth_local = c.int (codes "bandwidth-local");
  concurrent_endorsements = c.int (codes "conc-endorsements");
  concurrent_validations = c.int (codes "conc-validations");
  concurrent_revocations = c.int (codes "conc-revocations");
  transactions = c.int (codes "transactions");
  frequency = c.int (codes "frequency");
  revoke = c.bool (codes "revoke");
  audit = c.bool (codes "audit");
  rpc_port = c.int (codes "rpc-port");
  root_rpc_address = c.string (codes "root-address");
  org_rpc_address = c.string (codes "org-address");
  revocation_rpc_address = c.string (codes "revocation-address");
  peer_rpc_addresses = c.string_slice (codes "peer-addresses");
}

-- What an action calls, with its arguments.
pub data Call (p : Platform) : Type 0 where
  run_server : Call p
  start_requests : (runs concurrent : ℕ) → (trust : Bool) → Call p
  simulate : p.Sk → SystemParameters p → Call p
  simulate_distributed :
      (root_sk audit_sk : p.Sk)
      → SystemParameters p
      → (root : Bool) → (organization peer user : ℕ) → (revocation auditor : Bool) → Call p

module _ (p : Platform) where
  -- setSystemParameters, with the generator that both actions make of the seed's last byte
  unfoldable pub set_system_parameters : Context → SystemParameters p × p.Sk × p.Sk × p.Rand
  set_system_parameters c =
      make_system_parameters p (new_rand_seed p (c.int (codes "seed") % 256 ∷ [])) (settings c)

  abbrev pub server_action : Context → Call p
  server_action c = run_server

  unfoldable pub client_action : Context → Call p
  client_action c =
      start_requests (c.int (codes "runs")) (c.int (codes "concurrent")) (c.bool (codes "trust"))

  unfoldable pub simulator_action : Context → Call p
  simulator_action c = let (sys, root_sk, _, _) = set_system_parameters c in simulate root_sk sys

  unfoldable pub distributed_action : Context → Call p
  distributed_action c =
      let (sys, root_sk, audit_sk, _) = set_system_parameters c in
      simulate_distributed root_sk audit_sk
        (record sys { peers = length (c.string_slice (codes "peer-addresses")) })
        (c.bool (codes "root")) (c.int (codes "organization")) (c.int (codes "peer"))
        (c.int (codes "user")) (c.bool (codes "revocation")) (c.bool (codes "auditor"))

pub data Level : Type 0 where
  critical error warning notice info debug : Level

-- strings.ToUpper of an ASCII text
unfoldable pub to_upper : Bytes → Bytes
to_upper = map (λ ch. if leb 97 ch && leb ch 122 then ch - 32 else ch)

-- Any other text ends the process.
unfoldable pub configure_logging : Bytes → Outcome Level
configure_logging verbose =
    if bytes_equal verbose (codes "CRIT")
    then ok critical
    else if bytes_equal verbose (codes "ERROR")
    then ok error
    else if bytes_equal verbose (codes "WARN")
    then ok warning
    else if bytes_equal verbose (codes "NOTICE")
    then ok notice
    else if bytes_equal verbose (codes "INFO")
    then ok info
    else if bytes_equal verbose (codes "DEBUG")
    then ok debug
    else halt bad_verbosity

-- The application's Before, for every command.
unfoldable pub before : Context → Outcome Level
before c = configure_logging (to_upper (c.string (codes "verbose")))
