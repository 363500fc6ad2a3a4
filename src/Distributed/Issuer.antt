-- ===== src/Distributed/Issuer.antt =====
-- distributed/root.go and distributed/organization.go: the processes that issue credentials, and an
-- organization's enrolment with the root.
pub mod Enrolment
use fabric_simulator.Prelude.{ℕ, [], ◌∷◌, ◌++◌}
use fabric_simulator.Platform.{Platform, Bytes}
use fabric_simulator.Exec.{
  Exec, bad_cred_request, no_delegation, bad_credentials, not_running, pure, gets, check, require,
  ◌>>=◌, ◌>>◌,
}
use fabric_simulator.Helpers.{codes, random_bytes}
use fabric_simulator.Params.{SystemParameters, nonce_size}
use fabric_simulator.Distributed.Wire.{Wire}
use fabric_simulator.Distributed.Types.{CredRequest, Credentials, RpcRoot, RpcOrganization, World}
use fabric_simulator.Distributed.Rpc.{fresh_rand, root_server, make_rpc_call_sync}

abbrev pub org_level : ℕ
org_level = 1

abbrev pub user_level : ℕ
user_level = 2

-- GetNonce of the root and of an organization, which are the same text.
unfoldable pub get_nonce : (c : Platform) → Exec (World c) Bytes
get_nonce c = do prg ← fresh_rand c; pure (random_bytes c nonce_size prg).0

-- `show` is the decimal formatting of the standard library.
module _ {c : Platform} (wire : Wire c) (p : SystemParameters c) (show : ℕ → Bytes) where
  unfoldable pub make_rpc_root : c.Sk → RpcRoot c
  make_rpc_root root_sk =
      let credentials = c.make_credentials p.root_pk in
      record {
        creds = record {
          keys = record { pk = p.root_pk; sk = root_sk };
          credentials = credentials;
          id = 0;
        };
        starter = c.credentials_to_bytes credentials;
      }

  -- What both methods do after the receiver's fields are read.
  unfoldable pub issue : ℕ → Bytes → Bytes → c.Sk → CredRequest → Exec (World c) Credentials
  issue level kind starter issuer_sk args = do
    let cred_request = wire.cred_request_from_bytes args.request
    prg ← fresh_rand c
    check (c.cred_request_validate cred_request) bad_cred_request
    let attributes =
        c.produce_attribute level (kind ++ show args.id)
        ∷ c.produce_attribute level (codes "has-right-to-post")
        ∷ []
    credentials ←
        require no_delegation
          (c.delegate (c.credentials_from_bytes starter) issuer_sk
            (wire.cred_request_pk cred_request) attributes prg p.ys).0
    pure (record { creds = c.credentials_to_bytes credentials })

  unfoldable pub root_process_cred_request : CredRequest → Exec (World c) Credentials
  root_process_cred_request args = do
    root ← gets (λ w. w.root)
    me ← require not_running root
    issue org_level (codes "org-") me.starter me.creds.sk args

  unfoldable pub organization_process_cred_request : CredRequest → Exec (World c) Credentials
  organization_process_cred_request args = do
    organization ← gets (λ w. w.organization)
    me ← require not_running organization
    issue user_level (codes "user-") (c.credentials_to_bytes me.credentials) me.sk args

  unfoldable pub make_rpc_organization : c.Rand → ℕ → Exec (World c) (RpcOrganization c)
  make_rpc_organization prg id = do
    let (sk, pk, prg₁) = c.generate_keys prg org_level
    nonce ← make_rpc_call_sync root_server [] (get_nonce c)
    let request = (c.make_cred_request prg₁ sk nonce org_level).0
    creds ←
        make_rpc_call_sync root_server (record { creds = [] })
          (root_process_cred_request
            (record { request = c.cred_request_to_bytes request; id = id }))
    let credentials = c.credentials_from_bytes creds.creds
    check (c.credentials_verify credentials sk p.root_pk p.ys) bad_credentials
    pure (record {
      holder = record { keys = record { pk = pk; sk = sk }; credentials = credentials; id = id };
    })
