-- ===== src/Simulator/Network/Stored.antt =====
-- What is stored of what the goroutines of organizations and users make.
use mathlib.Core.Path.{subst}
use mathlib.Core.List.{Memᴰ, append-nil, append_assoc}
use native.Mathlib.Nat.{div-lt_iff_lt-mul, div-add-mod}
use fabric_simulator.Prelude.{
  ℕ, zero, suc, ◌+◌, ◌*◌, ◌/◌, ◌%◌, ◌≡◌, ◌∙◌, ◌<◌, refl, sym, ap, Option, none, some, List, [], ◌∷◌,
  ◌++◌, length, get_elem?, get_elem?_within, replicate, arith,
}
use fabric_simulator.Platform.{Platform, Bytes}
use fabric_simulator.Helpers.Bounds.{All}
use fabric_simulator.Params.{SystemParameters}
use fabric_simulator.Simulator.Types.{Organization, User}
use fabric_simulator.Simulator.User.Endorsers.{IsDistinct}
use fabric_simulator.Simulator.Network.{all_written, store_users, store_organizations, seeds}
use fabric_simulator.Simulator.Network.Users.{ids, store_users_lem}
use fabric_simulator.Simulator.Simulation.Members.{HonestMember, Members}

-- An order of `n` goroutines: each number below `n` stands in it, once, and nothing else.
pub record AnyOrder (n : ℕ) (order : List ℕ) : Type 0 where
  pub size : length order ≡ n
  pub small : All (λ i. i < n) order
  pub distinct : IsDistinct order
  pub complete : (i : ℕ) → i < n → Memᴰ i order

length-seeds : (c : Platform) (n : ℕ) (prg : c.Rand) → length (seeds c n prg).0 ≡ n
unfolding seeds
length-seeds c zero prg = refl
length-seeds c (suc n) prg = ap suc (length-seeds c n _)

pub seed_found :
    (c : Platform) (n i : ℕ) (prg : c.Rand)
    → i < n
    → (seed : Bytes) × (get_elem? (seeds c n prg).0 i ≡ some seed) × Unit {0}
seed_found c n i prg h =
    let (seed, e) = get_elem?_within (seeds c n prg).0 i (omega (arith, length-seeds c n prg)) in
    (seed, e, tt)

pub All-at :
    {A : Type 0} (P : A → Type 0) (xs : List A) (i : ℕ)
    → All P xs
    → i < length xs
    → (x : A) × (get_elem? xs i ≡ some x) × P x
All-at P [] i h l = absurd (omega arith)
All-at P (x ∷ xs) zero h l = (x, refl, h.0)
All-at P (x ∷ xs) (suc i) h l = All-at P xs i h.1 (omega arith)

-- The organization and the place in it that a number stands for.
pub org_in_range : (i orgs users : ℕ) → i < orgs * users → i / users < orgs
org_in_range i orgs zero h = absurd (omega (arith, h))
org_in_range i orgs (suc users) h =
    (div-lt_iff_lt-mul {k = suc users} {x = i} {y = orgs} (omega arith)).1 h

pub number_lem : (i users : ℕ) → i / users * users + i % users ≡ i
number_lem i users = grind (arith, div-add-mod i users)

length-replicate : {A : Type 0} (n : ℕ) (a : A) → length (replicate n a) ≡ n
length-replicate zero a = refl
length-replicate (suc n) a = ap suc (length-replicate n a)

module _ {c : Platform} where
  -- Organizations stand in the order of their arrival.
  pub store_organizations_lem :
      (organizations arrived : List (Organization c))
      → store_organizations organizations arrived ≡ organizations ++ arrived
  unfolding store_organizations
  store_organizations_lem organizations [] = sym (append-nil organizations)
  store_organizations_lem organizations (org ∷ arrived) =
      store_organizations_lem (organizations ++ org ∷ []) arrived
      ∙ append_assoc organizations (org ∷ []) arrived

module _ {c : Platform} (p : SystemParameters c) where
  -- an array in which every place holds the member of that number, counted from `i`
  written_lem :
      (i : ℕ) (users : List (Option (User c)))
      → ((j : ℕ)
          → j < length users
          → (u : User c) × (get_elem? users j ≡ some (some u)) × HonestMember p (i + j) u)
      → (written : List (User c)) × (all_written users ≡ some written)
        × Members p i written
        × (length written ≡ length users)
  unfolding all_written
  written_lem i [] h = ([], refl, tt, refl)
  written_lem i (none ∷ users) h = absurd (never (h 0 (omega arith)).1)
    where
      never : {u : User c} → some none ≡ some (some u) → ⊥
      never e = cc
  written_lem i (some user ∷ users) h =
      let (u, e, m) = h 0 (omega arith) in
      let (written, all, members, size) = written_lem (suc i) users (λ j l.
        let (v, f, n) = h (suc j) (omega arith) in
        (v, f, subst (λ k. HonestMember p k v) (omega arith) n)) in
      (
        user ∷ written,
        rw all refl,
        (
          subst (λ v. HonestMember p i v) (sym (same e))
              (subst (λ k. HonestMember p k u) (omega arith) m),
          members,
        ),
        ap suc size,
      )
    where
      same : {u v : User c} → some (some u) ≡ some (some v) → u ≡ v
      same e = cc

  -- the user of a number that arrived
  arrived_lem :
      (k : ℕ) (arrived : List (User c))
      → All (λ u. HonestMember p u.id u) arrived
      → Memᴰ k (ids arrived)
      → (u : User c) × Memᴰ u arrived × (u.id ≡ k) × HonestMember p k u
  arrived_lem k [] all m = elim m [ ]
  arrived_lem k (x ∷ xs) all (Memᴰ.head e) =
      (x, Memᴰ.head refl, sym e, subst (λ j. HonestMember p j x) (sym e) all.0)
  arrived_lem k (x ∷ xs) all (Memᴰ.tail m) =
      let (u, at, same, honest) = arrived_lem k xs all.1 m in (u, Memᴰ.tail at, same, honest)

  -- Users that arrive in any order are stored, each at its number.
  pub stored_lem :
      (n : ℕ) (order : List ℕ) (arrived : List (User c))
      → AnyOrder n order
      → ids arrived ≡ order
      → All (λ u. HonestMember p u.id u) arrived
      → (stored : List (Option (User c))) × (store_users (replicate n none) arrived ≡ some stored)
        × ((users : List (User c)) × (all_written stored ≡ some users)
            × (Members p 0 users × (length users ≡ n)))
  stored_lem n order arrived any same all =
      let (stored, e, s) =
        store_users_lem n arrived (replicate n none) (length-replicate n none)
          (subst (All (λ i. i < n)) (sym same) any.small)
          (subst IsDistinct (sym same) any.distinct) in
      let size = s.same_length ∙ length-replicate n none in
      let (users, written, members, length_users) = written_lem 0 stored (λ j l.
        let (u, m, number, honest) =
          arrived_lem j arrived all
            (subst (λ xs. Memᴰ j xs) (sym same) (any.complete j (omega (arith, size)))) in
        (
          u,
          subst (λ i. get_elem? stored i ≡ some (some u)) number (s.placed u m),
          subst (λ i. HonestMember p i u) (omega arith) honest,
        )) in
      (stored, e, (users, written, (members, length_users ∙ size)))
