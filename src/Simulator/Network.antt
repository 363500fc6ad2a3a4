-- ===== src/Simulator/Network.antt =====
-- simulator/network.go: how the network is made. Goroutines make the organizations and the users, and
-- each hands its result to a channel, which is read when all are done: `arrived` is the channel's
-- content, in the order of arrival, of which nothing is known.
pub mod Users
pub mod Enrolment
pub mod Stored
pub mod Made
use fabric_simulator.Prelude.{
  ℕ, zero, suc, ◌+◌, ◌*◌, ◌/◌, ◌%◌, ◌<◌, replicate, Bool, Option, none, some, List, [], ◌∷◌, ◌++◌,
  length, get_elem?, set, map, ltb, if◌then◌else◌,
}
use fabric_simulator.Platform.{Platform, Bytes}
use fabric_simulator.Exec.{
  Exec, bad_cred_request, no_delegation, bad_credentials, index_out_of_range, pure, modify, check,
  require, ◌>>=◌, ◌>>◌, collect,
}
use fabric_simulator.Helpers.{codes, random_bytes, new_rand_seed}
use fabric_simulator.Params.{SystemParameters, nonce_size}
use fabric_simulator.Simulator.Counter.{cred_delegation}
use fabric_simulator.Simulator.Types.{
  Party, ObjectName, KeysHolder, CredentialsHolder, Organization, User, Peer, Network, World,
}
use fabric_simulator.Simulator.Env.{fresh_rand, event}
use fabric_simulator.Simulator.Bandwidth.{record_bandwidth}
use fabric_simulator.Simulator.Revocation.{make_revocation_authority}

-- The decimal digits of a number are the formatting of the standard library: `show`.
module _ {c : Platform} (p : SystemParameters c) (show : ℕ → Bytes) where
  -- What root, for an organization, and an organization, for a user, do with a new member: keys of
  -- the member, nonce, request, delegation and the member's own check. The member's keys, its
  -- credentials and the generator come back.
  unfoldable pub enroll :
      ℕ
      → Party
      → Party
      → Bytes
      → c.Credentials
      → c.Sk
      → c.Rand
      → Exec (World c) (KeysHolder c × c.Credentials)
  enroll level issuer member name starter issuer_sk prg = do
    let (sk, pk, prg₁) = c.generate_keys prg level
    let (nonce, prg₂) = random_bytes c nonce_size prg₁
    record_bandwidth p issuer member ObjectName.nonce (length nonce)
    let (cred_request, prg₃) = c.make_cred_request prg₂ sk nonce level
    record_bandwidth p member issuer ObjectName.cred_request
        (length (c.cred_request_to_bytes cred_request))
    check (c.cred_request_validate cred_request) bad_cred_request
    let attributes =
        c.produce_attribute level name ∷ c.produce_attribute level (codes "has-right-to-post") ∷ []
    let creds = c.credentials_from_bytes (c.credentials_to_bytes starter)
    credentials ← require no_delegation (c.delegate creds issuer_sk pk attributes prg₃ p.ys).0
    event c cred_delegation
    record_bandwidth p issuer member ObjectName.credentials
        (length (c.credentials_to_bytes credentials))
    check (c.credentials_verify credentials sk p.root_pk p.ys) bad_credentials
    pure (record { pk = pk; sk = sk }, credentials)

  -- the goroutine of one organization
  unfoldable pub generate_organization :
      CredentialsHolder c → c.Sk → ℕ → Bytes → Exec (World c) (Organization c)
  generate_organization root root_sk org seed = do
    (keys, credentials) ←
        enroll 1 Party.root (Party.org org) (codes "org-" ++ show org) root.credentials root_sk
          (new_rand_seed c seed)
    pure (record { holder = record { keys = keys; credentials = credentials; id = org } })

  -- the goroutine of one user; `organization` is what stands at the index `org`
  unfoldable pub generate_user : List (Organization c) → ℕ → ℕ → Bytes → Exec (World c) (User c)
  generate_user organizations org user seed = do
    organization ← require index_out_of_range (get_elem? organizations org)
    let id = org * p.users + user
    (keys, credentials) ←
        enroll 2 (Party.org organization.id) (Party.user id) (codes "user-" ++ show id)
          organization.credentials organization.sk (new_rand_seed c seed)
    pure (record {
      holder = record { keys = keys; credentials = credentials; id = id };
      non_revocation_handler = none;
      revocation_pk = c.ecp_mul keys.sk;
      epoch = 0;
      org = org;
    })

module _ {c : Platform} where
  -- `for user := range users { network.users[user.id] = *user }`, over an array whose elements are
  -- the zero value, `none`, until they are written. `none` as the result is an index out of range.
  unfoldable pub store_users :
      List (Option (User c)) → List (User c) → Option (List (Option (User c)))
  store_users users [] = some users
  store_users users (user ∷ arrived) =
      let rest = store_users (set users user.id (some user)) arrived in
      if ltb user.id (length users) then rest else none

  -- `for org := range organizations { append }`
  unfoldable pub store_organizations :
      List (Organization c) → List (Organization c) → List (Organization c)
  store_organizations organizations [] = organizations
  store_organizations organizations (org ∷ arrived) =
      store_organizations (organizations ++ org ∷ []) arrived

  -- MakePeer, but for its channels, semaphores and empty cache
  unfoldable pub make_peer : ℕ → Exec (World c) (Peer c)
  make_peer id = do
    prg ← fresh_rand c
    let (sk, pk, _) = c.generate_keys prg 0
    pure (record { keys = record { pk = pk; sk = sk }; id = id })

  -- `for peer := 0; peer < sysParams.Peers; peer++`, from a given `peer` on
  unfoldable pub generate_peers : ℕ → ℕ → Exec (World c) (List (Peer c))
  generate_peers peer zero = pure []
  generate_peers peer (suc left) = do
    made ← make_peer peer
    rest ← generate_peers (suc peer) left
    pure (made ∷ rest)

  -- the array of users, if every element was written
  unfoldable pub all_written : List (Option (User c)) → Option (List (User c))
  all_written [] = some []
  all_written (none ∷ users) = none
  all_written (some user ∷ users) = elim (all_written users) [
    | none ↦ none
    | some rest ↦ some (user ∷ rest)
  ]

-- `helpers.RandomBytes(prg, 32)` for one goroutine after another
unfoldable pub seeds : (c : Platform) → ℕ → c.Rand → List Bytes × c.Rand
seeds c zero prg = ([], prg)
seeds c (suc n) prg =
    let (seed, prg') = random_bytes c 32 prg in
    let (rest, prg'') = seeds c n prg' in (seed ∷ rest, prg'')

-- An `order` lists the goroutines in the order in which they run and their results arrive.
module _ {c : Platform} (p : SystemParameters c) (show : ℕ → Bytes) where
  unfoldable pub generate_organizations :
      List ℕ → c.Rand → CredentialsHolder c → c.Sk → Exec (World c) (List (Organization c))
  generate_organizations order prg root root_sk = do
    arrived ← collect order (λ org. do
      seed ← require index_out_of_range (get_elem? (seeds c p.orgs prg).0 org)
      generate_organization p show root root_sk org seed)
    pure (store_organizations [] arrived)

  -- The goroutine of the user with the number `i` is that of the user `i % users` of the organization
  -- `i / users`. A user that is not written would be the zero value; here the block then halts.
  unfoldable pub generate_users :
      List ℕ → c.Rand → List (Organization c) → Exec (World c) (List (User c))
  generate_users order prg organizations = do
    arrived ← collect order (λ i. do
      seed ← require index_out_of_range (get_elem? (seeds c (p.orgs * p.users) prg).0 i)
      generate_user p show organizations (i / p.users) (i % p.users) seed)
    stored ← require index_out_of_range (store_users (replicate (p.orgs * p.users) none) arrived)
    require index_out_of_range (all_written stored)

  unfoldable pub make_network : c.Rand → c.Sk → List ℕ → List ℕ → Exec (World c) (Network c)
  make_network prg root_sk org_order user_order = do
    let (audit_sk, audit_pk, prg₁) = c.generate_keys prg 2
    let root : CredentialsHolder c = record {
      keys = record { pk = p.root_pk; sk = root_sk };
      credentials = c.make_credentials p.root_pk;
      id = 0;
    }
    authority ← make_revocation_authority p
    modify (λ w. record w { epoch = 1; transactions = [] })
    organizations ← generate_organizations org_order prg₁ root root_sk
    users ← generate_users user_order (seeds c p.orgs prg₁).1 organizations
    peers ← generate_peers 0 p.peers
    pure (record {
      root = root;
      auditor = record { pk = audit_pk; sk = audit_sk };
      organizations = organizations;
      users = users;
      peers = peers;
      revocation_authority = authority;
    })
