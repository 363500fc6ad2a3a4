-- ===== src/Simulator/Network/Made.antt =====
-- MakeNetwork makes an honest network.
use mathlib.Core.Path.{subst}
use fabric_simulator.Prelude.{
  ℕ, zero, suc, ◌+◌, ◌*◌, ◌/◌, ◌%◌, ◌≡◌, ◌∙◌, ◌<◌, refl, sym, ap, some, List, [], ◌∷◌, length,
  get_elem?, arith,
}
use fabric_simulator.Platform.{Platform, Bytes}
use fabric_simulator.Exec.{Exec, ok, index_out_of_range, require, modify, ◌>>=◌, ◌>>◌, collect}
use fabric_simulator.Exec.Returns.{
  Returns, Any, Returns-pure, Returns-bind, Returns-collect, Reaches, Reaches-bind,
}
use fabric_simulator.Helpers.Bounds.{All}
use fabric_simulator.Params.{SystemParameters}
use fabric_simulator.Simulator.Types.{
  KeysHolder, CredentialsHolder, Organization, Peer, Transaction, Network, World,
}
use fabric_simulator.Simulator.Revocation.{make_revocation_authority}
use fabric_simulator.Simulator.Honest.{HonestPeer, HonestNetwork}
use fabric_simulator.Simulator.Honest.Peers.{InEpoch, fresh_rand-Returns}
use fabric_simulator.Simulator.Network.{
  make_peer, generate_peers, seeds, generate_organizations, generate_users, generate_user,
  make_network,
}
use fabric_simulator.Simulator.Network.Users.{ids}
use fabric_simulator.Simulator.Network.Enrolment.{
  Delegable, Credentialed, Returns-found, generate_organization-Returns, generate_user-Returns,
}
use fabric_simulator.Simulator.Simulation.Members.{HonestMember, Members}
use fabric_simulator.Simulator.Network.Stored.{
  AnyOrder, seed_found, All-at, org_in_range, number_lem, store_organizations_lem, stored_lem,
}

module _ {c : Platform} (p : SystemParameters c) where
  module _ (k : ℕ) (l : List (Transaction c)) where
    -- The peers that are made, numbered from `first`.
    record MadePeers (first n : ℕ) (peers : List (Peer c)) : Type 0 where
      count : length peers ≡ n
      each :
          (i : ℕ)
          → i < n
          → (peer : Peer c) × (get_elem? peers i ≡ some peer)
            × (peer.id ≡ first + i)
            × HonestPeer p peer

    make_peer-Returns :
        (id : ℕ) → Returns (InEpoch k l) (make_peer id) (λ peer. (peer.id ≡ id) × HonestPeer p peer)
    unfolding make_peer
    make_peer-Returns id =
        Returns-bind Any (fresh_rand-Returns k l)
          λ prg _. Returns-pure _ _ (refl, record { prg = prg; sk_made = refl; pk_made = refl })

    generate_peers-Returns :
        (first n : ℕ) → Returns (InEpoch k l) (generate_peers first n) (MadePeers first n)
    unfolding generate_peers
    generate_peers-Returns first zero =
        Returns-pure _ [] (record { count = refl; each = λ i h. absurd (omega arith) })
    generate_peers-Returns first (suc n) = Returns-bind _ (make_peer-Returns first) λ peer made.
        Returns-bind _ (generate_peers-Returns (suc first) n) λ rest others.
          Returns-pure _ (peer ∷ rest)
            (record { count = ap suc others.count; each = each peer made rest others })
      where
        each :
            (peer : Peer c)
            → (peer.id ≡ first) × HonestPeer p peer
            → (rest : List (Peer c)) → MadePeers (suc first) n rest
            → (i : ℕ) → i < suc n
            → (q : Peer c) × (get_elem? (peer ∷ rest) i ≡ some q)
              × (q.id ≡ first + i)
              × HonestPeer p q
        each peer made rest others zero h = (peer, refl, omega (arith, made.0), made.1)
        each peer made rest others (suc i) h =
            let (q, at, number, honest) = others.each i (omega arith) in
            (q, at, omega (arith, number), honest)

    module _ (show : ℕ → Bytes) (laws : Delegable c) where
      generate_organizations-Returns :
          (root_prg : c.Rand)
          → p.root_pk ≡ (c.generate_keys root_prg 0).1
          → (root : CredentialsHolder c) → root.credentials ≡ c.make_credentials p.root_pk
          → (order : List ℕ) → AnyOrder p.orgs order
          → (prg : c.Rand)
          → Returns
              (InEpoch k l)
              (generate_organizations p show order prg root (c.generate_keys root_prg 0).0)
              (λ orgs. (length orgs ≡ p.orgs) × All (Credentialed p show laws k l) orgs)
      unfolding generate_organizations
      generate_organizations-Returns root_prg made root starts order any prg =
          Returns-bind _
            (Returns-collect (λ i. i < p.orgs) (Credentialed p show laws k l) order _
              (λ org h.
                Returns-bind Any (Returns-found _ _ _ (seed_found c p.orgs org prg h)) λ seed _.
                  generate_organization-Returns p show laws k l root_prg made root starts org seed)
              any.small)
            λ arrived came.
              Returns-pure _ _ (rw (store_organizations_lem [] arrived) (came.0 ∙ any.size, came.1))

      collect_users-Returns :
          (prg : c.Rand) (organizations : List (Organization c))
          → length organizations ≡ p.orgs
          → All (Credentialed p show laws k l) organizations
          → (order : List ℕ) → All (λ i. i < p.orgs * p.users) order
          → Returns
              (InEpoch k l)
              (collect order (λ i.
                require index_out_of_range (get_elem? (seeds c (p.orgs * p.users) prg).0 i)
                >>= λ seed. generate_user p show organizations (i / p.users) (i % p.users) seed))
              (λ us. (ids us ≡ order) × All (λ u. HonestMember p u.id u) us)
      unfolding collect
      collect_users-Returns prg organizations size all [] small = Returns-pure _ [] (refl, tt)
      collect_users-Returns prg organizations size all (i ∷ order) small =
          let (organization, at, holds) =
            All-at _ organizations (i / p.users) all
              (omega (arith, size, org_in_range i p.orgs p.users small.0)) in
          Returns-bind _
            (Returns-bind Any (Returns-found _ _ _ (seed_found c (p.orgs * p.users) i prg small.0))
              λ seed _.
                generate_user-Returns p show laws k l organizations organization (i / p.users)
                  (i % p.users) i seed at holds (number_lem i p.users))
            λ u made.
              Returns-bind _ (collect_users-Returns prg organizations size all order small.1)
                λ us rest. Returns-pure _ (u ∷ us) (
                  rw (made.0, rest.0) refl,
                  (subst (λ j. HonestMember p j u) (sym made.0) made.1, rest.1),
                )

      generate_users-Returns :
          (prg : c.Rand) (organizations : List (Organization c))
          → length organizations ≡ p.orgs
          → All (Credentialed p show laws k l) organizations
          → (order : List ℕ) → AnyOrder (p.orgs * p.users) order
          → Returns
              (InEpoch k l)
              (generate_users p show order prg organizations)
              (λ users. Members p 0 users × (length users ≡ p.orgs * p.users))
      unfolding generate_users
      generate_users-Returns prg organizations size all order any =
          Returns-bind _ (collect_users-Returns prg organizations size all order any.small)
            λ arrived came.
              Returns-bind _
                (Returns-found _ _ _
                  (stored_lem p (p.orgs * p.users) order arrived any came.0 came.1))
                λ stored filled.
                  Returns-found _ _ (λ users. Members p 0 users × (length users ≡ p.orgs * p.users))
                    filled

module _ {S A : Type 0} {P Q : S → Type 0} where
  -- From a state that satisfies `P` the change leads to one that satisfies `Q`.
  Reaches-modify-bind :
      (f : S → S) (m : Exec S A) (R : A → Type 0)
      → ((s : S) → P s → Q (f s))
      → Returns Q m R
      → Reaches P (modify f >> m) (λ a s. R a × Q s)
  unfolding ◌>>=◌
  Reaches-modify-bind f m R k h = record {
    at = λ s ps. let (a, s', e, r, qs) = h.at (f s) (k s ps) in (a, s', e, (r, qs));
  }

module _ {c : Platform} (p : SystemParameters c) (show : ℕ → Bytes) (laws : Delegable c) where
  -- A key of the revocation authority is made by the library.
  abbrev MadeAuthority : KeysHolder c → Type 0
  MadeAuthority keys =
      (prg : c.Rand) × (keys.sk ≡ (c.groth_generate prg p.ys.1).0)
      × (keys.pk ≡ (c.groth_generate prg p.ys.1).1)

  make_revocation_authority-Returns :
      (k : ℕ) (l : List (Transaction c))
      → Returns (InEpoch k l) (make_revocation_authority p) MadeAuthority
  unfolding make_revocation_authority
  make_revocation_authority-Returns k l =
      Returns-bind Any (fresh_rand-Returns k l) λ prg _. Returns-pure _ _ (prg, refl, refl)

  -- If the library's credentials behave as documented, the root's key is that of the parameters, and
  -- there are peers and endorsements, then the network is made, whatever the order in which the
  -- goroutines of the organizations and of the users finish: every peer is at its number with keys of
  -- its own, every user is at its number with credentials that hold, the auditor's and the
  -- authority's keys are made by the library, the epoch is 1 and no transaction is recorded.
  pub make_network_completes :
      0 < p.peers
      → 0 < p.endorsements
      → (root_prg : c.Rand) → p.root_pk ≡ (c.generate_keys root_prg 0).1
      → (prg : c.Rand) (org_order user_order : List ℕ) → AnyOrder p.orgs org_order
      → AnyOrder (p.orgs * p.users) user_order
      → (w : World c)
      → (net : Network c) × (w' : World c) × (make_network p show prg
            (c.generate_keys root_prg 0).0
            org_order
            user_order
            w
          ≡ (ok net, w'))
        × (HonestNetwork p net × Members p 0 net.users × (length net.users ≡ p.orgs * p.users))
        × (w'.epoch ≡ 1)
        × (w'.transactions ≡ [])
  unfolding make_network
  make_network_completes some_peers some_endorsements root_prg made prg org_order user_order orgs
        users w =
      let (net, w', e, (good, there)) =
        (Reaches-bind {P = InEpoch w.epoch w.transactions} MadeAuthority
            (make_revocation_authority-Returns w.epoch w.transactions)
            λ authority authority_made.
              Reaches-modify-bind {Q = InEpoch 1 []} _ _
                (λ (net : Network c).
                  HonestNetwork p net
                  × Members p 0 net.users
                  × (length net.users ≡ p.orgs * p.users))
                (λ s h. (refl, refl))
                (Returns-bind _
                  (generate_organizations-Returns p 1 [] show laws root_prg made _ refl org_order
                    orgs _)
                  λ organizations good.
                    Returns-bind _
                      (generate_users-Returns p 1 [] show laws _ organizations good.0 good.1
                        user_order users)
                      λ members all.
                        Returns-bind _ (generate_peers-Returns p 1 [] 0 p.peers) λ peers made_peers.
                          Returns-pure _ _ (
                            record {
                              some_peers = some_peers;
                              some_endorsements = some_endorsements;
                              peer_count = made_peers.count;
                              peer_at = λ i h.
                                  let (peer, at, number, honest) = made_peers.each i h in
                                  (peer, at, omega (arith, number), honest);
                              auditor_prg = prg;
                              auditor_sk_made = refl;
                              auditor_pk_made = refl;
                              authority_prg = authority_made.0;
                              authority_sk_made = authority_made.1;
                              authority_pk_made = authority_made.2;
                            },
                            all.0,
                            all.1,
                          ))).at
          w (refl, refl) in
      (net, w', e, good, there.0, there.1)
