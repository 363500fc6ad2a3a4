-- ===== src/Simulator/Network/Enrolment.antt =====
-- When a member of the network gets its credentials.
use fabric_simulator.Prelude.{ℕ, ◌+◌, ◌*◌, ◌≡◌, refl, sym, true, Option, some, List, get_elem?}
use mathlib.Core.Path.{subst}
use fabric_simulator.Platform.{Platform, Bytes}
use fabric_simulator.Exec.{Fault, require}
use fabric_simulator.Exec.Returns.{
  Returns, Any, Returns-check, Returns-pure, Returns-require, Returns-bind,
}
use fabric_simulator.Helpers.{new_rand_seed}
use fabric_simulator.Params.{SystemParameters}
use fabric_simulator.Simulator.Types.{Party, CredentialsHolder, Organization, Transaction}
use fabric_simulator.Simulator.Honest.Peers.{InEpoch, event-Returns, record_bandwidth-Returns}
use fabric_simulator.Simulator.Network.{enroll, generate_organization, generate_user}
use fabric_simulator.Simulator.Simulation.Members.{HonestMember}

-- The documented behaviour of credentials: what is marshalled comes back, a request is valid, and what
-- the root or an organization delegates to keys holds for them.
pub record Delegable (c : Platform) : Type 0 where
  pub credentials : (x : c.Credentials) → c.credentials_from_bytes (c.credentials_to_bytes x) ≡ x
  pub valid :
      (prg : c.Rand) (sk : c.Sk) (nonce : Bytes) (level : ℕ)
      → c.cred_request_validate (c.make_cred_request prg sk nonce level).0 ≡ true
  pub from_root :
      (prg prg' prg'' : c.Rand) (attributes : List c.Attribute) (ys : c.YsRow × c.YsRow)
      → let (root_sk, root_pk, _) = c.generate_keys prg 0 in
        let (sk, pk, _) = c.generate_keys prg' 1 in
        (creds : c.Credentials) × ((c.delegate
            (c.make_credentials root_pk)
            root_sk
            pk
            attributes
            prg''
            ys).0
          ≡ some creds)
        × (c.credentials_verify creds sk root_pk ys ≡ true)
  pub from_organization :
      (held : c.Credentials) (held_sk : c.Sk) (root : c.Pk) (ys : c.YsRow × c.YsRow)
      → c.credentials_verify held held_sk root ys ≡ true
      → (prg prg' : c.Rand) (attributes : List c.Attribute)
      → let (sk, pk, _) = c.generate_keys prg 2 in
        (creds : c.Credentials) × ((c.delegate held held_sk pk attributes prg' ys).0 ≡ some creds)
        × (c.credentials_verify creds sk root ys ≡ true)

module _ {S A : Type 0} {P : S → Type 0} where
  -- What is looked up is there, and satisfies `Q`.
  pub Returns-found :
      (f : Fault) (o : Option A) (Q : A → Type 0)
      → (a : A) × (o ≡ some a) × Q a
      → Returns P (require f o) Q
  Returns-found f o Q (a, e, q) = record {
    at = λ s h.
        let (x, s', runs, same, h') = (Returns-require {P = P} f o a e).at s h in
        (x, s', runs, subst Q (sym same) q, h');
  }

module _ {c : Platform} (p : SystemParameters c) (show : ℕ → Bytes) (laws : Delegable c) (k : ℕ)
    (l : List (Transaction c)) where
  -- The issuer can delegate to every pair of keys of the level.
  abbrev Delegating : ℕ → c.Credentials → c.Sk → Type 0
  Delegating level held held_sk =
      (prg prg' : c.Rand) (attributes : List c.Attribute)
      → let (sk, pk, _) = c.generate_keys prg level in
        (creds : c.Credentials) × ((c.delegate held held_sk pk attributes prg' p.ys).0 ≡ some creds)
        × (c.credentials_verify creds sk p.root_pk p.ys ≡ true)

  enroll-Returns :
      (level : ℕ) (issuer member : Party) (name : Bytes) (held : c.Credentials) (held_sk : c.Sk)
      (prg : c.Rand)
      → Delegating level held held_sk
      → Returns
          (InEpoch k l)
          (enroll p show level issuer member name held held_sk prg)
          (λ r. c.credentials_verify r.1 r.0.sk p.root_pk p.ys ≡ true)
  unfolding enroll
  enroll-Returns level issuer member name held held_sk prg delegating =
      Returns-bind Any (record_bandwidth-Returns k l p _ _ _ _) λ _ _.
        Returns-bind Any (record_bandwidth-Returns k l p _ _ _ _) λ _ _.
          Returns-bind Any (Returns-check _ _ (laws.valid _ _ _ _)) λ _ _.
            Returns-bind
              (λ x. c.credentials_verify x (c.generate_keys prg level).0 p.root_pk p.ys ≡ true)
              (Returns-found _ _ _ (rw (laws.credentials held) (delegating prg _ _)))
              λ x holds. Returns-bind Any (event-Returns k l _) λ _ _.
                Returns-bind Any (record_bandwidth-Returns k l p _ _ _ _)
                  λ _ _. Returns-bind Any (Returns-check _ _ holds) λ _ _. Returns-pure _ _ holds

  -- An organization has credentials that hold for its keys.
  abbrev pub Credentialed : Organization c → Type 0
  Credentialed org = c.credentials_verify org.credentials org.sk p.root_pk p.ys ≡ true

  pub generate_organization-Returns :
      (root_prg : c.Rand)
      → p.root_pk ≡ (c.generate_keys root_prg 0).1
      → (root : CredentialsHolder c) → root.credentials ≡ c.make_credentials p.root_pk
      → (org : ℕ) (seed : Bytes)
      → Returns
          (InEpoch k l)
          (generate_organization p show root (c.generate_keys root_prg 0).0 org seed)
          Credentialed
  unfolding generate_organization
  generate_organization-Returns root_prg made root starts org seed =
      Returns-bind _
        (enroll-Returns 1 _ _ _ root.credentials (c.generate_keys root_prg 0).0
          (new_rand_seed c seed)
          (λ prg prg' attributes.
            rw (starts, made) (laws.from_root root_prg prg prg' attributes p.ys)))
        λ r holds. Returns-pure _ _ holds

  pub generate_user-Returns :
      (organizations : List (Organization c)) (organization : Organization c) (org user i : ℕ)
      (seed : Bytes)
      → get_elem? organizations org ≡ some organization
      → Credentialed organization
      → org * p.users + user ≡ i
      → Returns
          (InEpoch k l)
          (generate_user p show organizations org user seed)
          (λ u. (u.id ≡ i) × HonestMember p i u)
  unfolding generate_user
  generate_user-Returns organizations organization org user i seed at credentialed number =
      Returns-bind Credentialed (Returns-found _ _ _ (organization, at, credentialed)) λ o holds.
        Returns-bind _
          (enroll-Returns 2 _ _ _ o.credentials o.sk (new_rand_seed c seed)
            (laws.from_organization o.credentials o.sk p.root_pk p.ys holds))
          λ r verified. Returns-pure _ _ (
            number,
            record {
              own_id = number;
              credentials_hold = verified;
              revocation_key = refl;
              no_epoch = refl;
            },
          )
