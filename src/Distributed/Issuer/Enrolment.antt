-- ===== src/Distributed/Issuer/Enrolment.antt =====
-- When the enrolment of an organization completes.
use fabric_simulator.Prelude.{ℕ, ◌+◌, ◌≡◌, refl, sym, true, some, List, [], ◌∷◌, ◌++◌, arith}
use mathlib.Core.Path.{subst}
use fabric_simulator.Platform.{Platform, Bytes}
use fabric_simulator.Exec.{ok, ◌>>=◌}
use fabric_simulator.Helpers.{codes, new_rand, random_bytes}
use fabric_simulator.Params.{SystemParameters, nonce_size}
use fabric_simulator.Distributed.Wire.{Wire}
use fabric_simulator.Distributed.Types.{CredRequest, RpcRoot, RpcOrganization, World}
use fabric_simulator.Distributed.Rpc.{
  clock_after, now, fresh_rand, root_server, serve, make_rpc_call, make_rpc_call_sync,
}
use fabric_simulator.Distributed.Issuer.{
  org_level, get_nonce, make_rpc_root, issue, root_process_cred_request, make_rpc_organization,
}

-- The documented behaviour of credentials: what is marshalled comes back, a request for keys is valid
-- and names them, and what is delegated to keys holds for them.
pub record Delegates {c : Platform} (wire : Wire c) : Type 0 where
  pub request : (x : c.CredRequest) → wire.cred_request_from_bytes (c.cred_request_to_bytes x) ≡ x
  pub credentials : (x : c.Credentials) → c.credentials_from_bytes (c.credentials_to_bytes x) ≡ x
  pub valid :
      (prg : c.Rand) (sk : c.Sk) (nonce : Bytes) (level : ℕ)
      → c.cred_request_validate (c.make_cred_request prg sk nonce level).0 ≡ true
  pub names :
      (prg prg' : c.Rand) (nonce : Bytes) (level : ℕ)
      → wire.cred_request_pk (c.make_cred_request prg' (c.generate_keys prg level).0 nonce level).0
        ≡ (c.generate_keys prg level).1
  -- from the root's own keys to an organization's
  pub from_root :
      (prg prg' prg'' : c.Rand) (attributes : List c.Attribute) (ys : c.YsRow × c.YsRow)
      → let (root_sk, root_pk, _) = c.generate_keys prg 0 in
        let (sk, pk, _) = c.generate_keys prg' org_level in
        (creds : c.Credentials) × ((c.delegate
            (c.make_credentials root_pk)
            root_sk
            pk
            attributes
            prg''
            ys).0
          ≡ some creds)
        × (c.credentials_verify creds sk root_pk ys ≡ true)

attributes_of : (c : Platform) → (ℕ → Bytes) → ℕ → Bytes → ℕ → List c.Attribute
attributes_of c show level kind id =
    c.produce_attribute level (kind ++ show id)
    ∷ c.produce_attribute level (codes "has-right-to-post")
    ∷ []

module _ {c : Platform} (wire : Wire c) (p : SystemParameters c) (show : ℕ → Bytes) where
  -- the world after one reading of the clock
  abbrev later : World c → World c
  later w = record w { clock = w.clock + c.lapse w.clock_reads; clock_reads = w.clock_reads + 1 }

  nonce_call :
      (root : RpcRoot c) (w : World c)
      → w.root ≡ some root
      → make_rpc_call_sync root_server [] (get_nonce c) w
        ≡ (ok (random_bytes c nonce_size (new_rand c (clock_after c w))).0, later w)
  unfolding make_rpc_call_sync make_rpc_call serve get_nonce fresh_rand now clock_after ◌>>=◌
  nonce_call root w up = ground (arith, up)

  issue_lem :
      (level : ℕ) (kind starter : Bytes) (issuer_sk : c.Sk) (args : CredRequest)
      (creds : c.Credentials) (w : World c)
      → c.cred_request_validate (wire.cred_request_from_bytes args.request) ≡ true
      → (c.delegate
          (c.credentials_from_bytes starter)
          issuer_sk
          (wire.cred_request_pk (wire.cred_request_from_bytes args.request))
          (attributes_of c show level kind args.id)
          (new_rand c (clock_after c w))
          p.ys).0
        ≡ some creds
      → issue wire p show level kind starter issuer_sk args w
        ≡ (ok (record { creds = c.credentials_to_bytes creds }), later w)
  unfolding issue attributes_of fresh_rand now clock_after ◌>>=◌
  issue_lem level kind starter issuer_sk args creds w valid delegated =
      ground (arith, valid, delegated)

  process_call :
      (root : RpcRoot c) (args : CredRequest) (creds : c.Credentials) (w : World c)
      → w.root ≡ some root
      → c.cred_request_validate (wire.cred_request_from_bytes args.request) ≡ true
      → (c.delegate
          (c.credentials_from_bytes root.starter)
          root.creds.sk
          (wire.cred_request_pk (wire.cred_request_from_bytes args.request))
          (attributes_of c show org_level (codes "org-") args.id)
          (new_rand c (clock_after c w))
          p.ys).0
        ≡ some creds
      → make_rpc_call_sync root_server
          (record { creds = [] })
          (root_process_cred_request wire p show args)
          w
        ≡ (ok (record { creds = c.credentials_to_bytes creds }), later w)
  unfolding make_rpc_call_sync make_rpc_call serve root_process_cred_request ◌>>=◌
  process_call root args creds w up valid delegated = ground (
    arith,
    up,
    issue_lem org_level (codes "org-") root.starter root.creds.sk args creds w valid delegated,
  )

  -- The organization that is made of a generator and what the root delegates.
  abbrev organization_with : c.Rand → ℕ → c.Credentials → RpcOrganization c
  organization_with prg id creds =
      let (sk, pk, _) = c.generate_keys prg org_level in
      record {
        holder = record { keys = record { pk = pk; sk = sk }; credentials = creds; id = id };
      }

  organization_lem :
      Delegates wire
      → (root : RpcRoot c) (prg : c.Rand) (id : ℕ) (creds : c.Credentials) (w : World c)
      → w.root ≡ some root
      → (c.delegate
          (c.credentials_from_bytes root.starter)
          root.creds.sk
          (c.generate_keys prg org_level).1
          (attributes_of c show org_level (codes "org-") id)
          (new_rand c (clock_after c (later w)))
          p.ys).0
        ≡ some creds
      → c.credentials_verify creds (c.generate_keys prg org_level).0 p.root_pk p.ys ≡ true
      → make_rpc_organization wire p show prg id w
        ≡ (ok (organization_with prg id creds), later (later w))
  unfolding make_rpc_organization ◌>>=◌
  organization_lem laws root prg id creds w up delegated holds =
      let (sk, pk, prg₁) = c.generate_keys prg org_level in
      let nonce = (random_bytes c nonce_size (new_rand c (clock_after c w))).0 in
      let request = (c.make_cred_request prg₁ sk nonce org_level).0 in
      let same = laws.request request in
      ground (
        arith,
        nonce_call root w up,
        process_call root (record { request = c.cred_request_to_bytes request; id = id }) creds
            (later w) up (rw same (laws.valid prg₁ sk nonce org_level))
            (rw (same, laws.names prg prg₁ nonce org_level) delegated),
        laws.credentials creds,
        holds,
      )

  -- If the library's credentials behave as documented and a root runs whose key is that of the
  -- parameters, then the enrolment of an organization returns: the organization has the given id and
  -- credentials that hold for its keys, and the root is as it was.
  pub make_rpc_organization_completes :
      Delegates wire
      → (root_prg : c.Rand) → p.root_pk ≡ (c.generate_keys root_prg 0).1
      → (prg : c.Rand) (id : ℕ) (w : World c)
      → w.root ≡ some (make_rpc_root wire p show (c.generate_keys root_prg 0).0)
      → (org : RpcOrganization c) × (w' : World c) × (make_rpc_organization wire p show prg id w
          ≡ (ok org, w'))
        × (org.id ≡ id)
        × (c.credentials_verify org.credentials org.sk p.root_pk p.ys ≡ true)
        × (w'.root ≡ w.root)
  unfolding make_rpc_root
  make_rpc_organization_completes laws root_prg made prg id w up =
      let (creds, delegated, holds) =
        laws.from_root root_prg prg (new_rand c (clock_after c (later w)))
          (attributes_of c show org_level (codes "org-") id) p.ys in
      let root = make_rpc_root wire p show (c.generate_keys root_prg 0).0 in
      let holds' =
        subst (λ pk. c.credentials_verify creds (c.generate_keys prg org_level).0 pk p.ys ≡ true)
          (sym made) holds in
      (
        organization_with prg id creds,
        later (later w),
        organization_lem laws root prg id creds w up
            (rw (laws.credentials (c.make_credentials p.root_pk), made) delegated) holds',
        refl,
        holds',
        refl,
      )
