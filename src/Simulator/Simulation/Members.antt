-- ===== src/Simulator/Simulation/Members.antt =====
-- Honest members and their first handles.
use mathlib.Core.Path.{subst}
use fabric_simulator.Prelude.{
  ◌+◌, ℕ, zero, suc, ◌<◌, ◌≡◌, ◌∙◌, refl, ap, true, some, List, [], ◌∷◌, length, get_elem?, arith,
  lt→ltb,
}
use fabric_simulator.Platform.{Platform}
use fabric_simulator.Exec.Returns.{
  Returns, Any, Returns-modify, Returns-pure, Returns-gets, Returns-if, Returns-bind, Returns-check,
}
use fabric_simulator.Params.{SystemParameters}
use fabric_simulator.Simulator.Types.{User, Transaction, Network}
use fabric_simulator.Simulator.Revocation.{ticks, grant, receive_request, request_non_revocation}
use fabric_simulator.Simulator.Honest.{HonestNetwork, HonestUser}
use fabric_simulator.Simulator.Honest.Peers.{
  InEpoch, event-Returns, fresh_rand-Returns, record_bandwidth-Returns,
}
use fabric_simulator.Simulator.Simulation.{request_handles}
use fabric_simulator.Exec.{collect}

module _ {c : Platform} (p : SystemParameters c) where
  -- A user as it is made: credentials that hold, and no epoch yet. `i` is its id.
  pub record HonestMember (i : ℕ) (user : User c) : Type 0 where
    pub own_id : user.id ≡ i
    pub credentials_hold : c.credentials_verify user.credentials user.sk p.root_pk p.ys ≡ true
    pub revocation_key : user.revocation_pk ≡ c.ecp_mul user.sk
    pub no_epoch : user.epoch ≡ 0

  -- Every user is an honest member, and its id is its place, counted from `i`.
  abbrev pub Members : ℕ → List (User c) → Type 0
  Members i [] = Unit
  Members i (user ∷ users) = HonestMember i user × Members (suc i) users

  pub Members-at :
      (i k : ℕ) (users : List (User c))
      → Members i users
      → k < length users
      → (user : User c) × (get_elem? users k ≡ some user) × HonestMember (i + k) user
  Members-at i k [] all lt = absurd (omega arith)
  Members-at i zero (user ∷ users) all lt =
      (user, refl, subst (λ j. HonestMember j user) (omega arith) all.0)
  Members-at i (suc k) (user ∷ users) all lt =
      let (u, at, m) = Members-at (suc i) k users all.1 (omega arith) in
      (u, at, subst (λ j. HonestMember j u) (omega arith) m)

  pub member-HonestUser :
      (net : Network c) (i : ℕ) (user : User c) (k : ℕ)
      → 0 < k
      → HonestMember i user
      → HonestUser p net k user
  member-HonestUser net i user k pos m = record {
    credentials_hold = m.credentials_hold;
    revocation_key = m.revocation_key;
    handle_current = λ e. absurd (omega (arith, m.no_epoch));
  }

  module _ (net : Network c) (k : ℕ) (l : List (Transaction c)) where
    request_non_revocation-HonestMember :
        (i : ℕ) (user : User c)
        → 0 < p.concurrent_revocations
        → HonestMember i user
        → Returns (InEpoch k l) (request_non_revocation p net 0 user) (HonestMember i)
    unfolding request_non_revocation receive_request grant ticks
    request_non_revocation-HonestMember i user some_permit m =
        Returns-bind Any (Returns-modify _ (λ s h. h)) λ _ _.
          Returns-bind Any
            (Returns-bind Any (record_bandwidth-Returns k l p _ _ _ _) λ _ _.
              Returns-bind Any (Returns-check _ _ (lt→ltb 0 p.concurrent_revocations some_permit))
                λ _ _. Returns-bind Any (fresh_rand-Returns k l) λ prg _.
                  Returns-bind Any (Returns-gets Any _ (λ s h. tt)) λ epoch _.
                    Returns-bind Any (event-Returns k l _) λ _ _.
                      Returns-bind Any (record_bandwidth-Returns k l p _ _ _ _)
                        λ _ _. Returns-pure _ _ tt)
            λ nrh _. Returns-pure (HonestMember i) _ (record {
              own_id = m.own_id;
              credentials_hold = m.credentials_hold;
              revocation_key = m.revocation_key;
              no_epoch = m.no_epoch;
            })

    requests-Members :
        (i : ℕ) (users : List (User c))
        → 0 < p.concurrent_revocations
        → Members i users
        → Returns
            (InEpoch k l)
            (collect users (request_non_revocation p net 0))
            (λ users'. (length users' ≡ length users) × Members i users')
    unfolding collect
    requests-Members i [] some_permit all = Returns-pure _ [] (refl, tt)
    requests-Members i (user ∷ users) some_permit all =
        Returns-bind (HonestMember i) (request_non_revocation-HonestMember i user some_permit all.0)
          λ u m.
            Returns-bind _ (requests-Members (suc i) users some_permit all.1)
              λ us ms. Returns-pure _ (u ∷ us) (ap suc ms.0, (m, ms.1))

  -- An honest network of `n` honest members.
  pub record Started (n : ℕ) (net : Network c) : Type 0 where
    pub honest : HonestNetwork p net
    pub members : Members 0 net.users
    pub size : length net.users ≡ n

  with_users :
      (net : Network c) (users : List (User c))
      → HonestNetwork p net
      → HonestNetwork p (record net { users = users })
  with_users net users h = record {
    some_peers = h.some_peers;
    some_endorsements = h.some_endorsements;
    peer_count = h.peer_count;
    peer_at = h.peer_at;
    auditor_prg = h.auditor_prg;
    auditor_sk_made = h.auditor_sk_made;
    auditor_pk_made = h.auditor_pk_made;
    authority_prg = h.authority_prg;
    authority_sk_made = h.authority_sk_made;
    authority_pk_made = h.authority_pk_made;
  }

  pub request_handles-Returns :
      (net : Network c) (n k : ℕ) (l : List (Transaction c))
      → (p.revoke ≡ true → 0 < p.concurrent_revocations)
      → Started n net
      → Returns (InEpoch k l) (request_handles p net) (Started n)
  unfolding request_handles
  request_handles-Returns net n k l granting s =
      Returns-if (Started n) p.revoke _ _
        (λ on.
          Returns-bind _ (requests-Members net k l 0 net.users (granting on) s.members) λ users got.
            Returns-pure (Started n) _ (record {
              honest = with_users net users s.honest;
              members = got.1;
              size = got.0 ∙ s.size;
            }))
        (λ _. Returns-pure (Started n) net s)
