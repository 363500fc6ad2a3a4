-- ===== src/Simulator/Network/Users.antt =====
-- The array of users, whatever the order in which the goroutines finish.
use mathlib.Core.Path.{subst}
use mathlib.Core.List.{Memᴰ}
use fabric_simulator.Prelude.{
  ℕ, ◌<◌, ◌≡◌, ◌≢◌, ◌∙◌, refl, sym, Option, some, List, [], ◌∷◌, length, get_elem?, set, map, arith,
  length-set, get_elem?-set_self, get_elem?-set_ne, lt→ltb,
}
use fabric_simulator.Platform.{Platform}
use fabric_simulator.Helpers.Bounds.{All}
use fabric_simulator.Simulator.Types.{User}
use fabric_simulator.Simulator.User.Endorsers.{IsDistinct}
use fabric_simulator.Simulator.Network.{store_users}

self_absent : (i : ℕ) (xs : List ℕ) → All (λ y. i ≢ y) xs → All (λ j. j ≢ i) xs
self_absent i [] h = tt
self_absent i (x ∷ xs) h = (λ e. h.0 (sym e), self_absent i xs h.1)

module _ {c : Platform} where
  abbrev pub ids : List (User c) → List ℕ
  ids arrived = map (λ u. u.id) arrived

  -- Each user of `arrived` stands at its id; every other place is as it was.
  pub record Stored (before after : List (Option (User c))) (arrived : List (User c)) : Type 0 where
    pub same_length : length after ≡ length before
    pub placed : (u : User c) → Memᴰ u arrived → get_elem? after u.id ≡ some (some u)
    pub kept : (i : ℕ) → All (λ j. j ≢ i) (ids arrived) → get_elem? after i ≡ get_elem? before i

  placed_cons :
      (final : List (Option (User c))) {x : User c} {xs : List (User c)}
      → get_elem? final x.id ≡ some (some x)
      → ((u : User c) → Memᴰ u xs → get_elem? final u.id ≡ some (some u))
      → (u : User c) → Memᴰ u (x ∷ xs)
      → get_elem? final u.id ≡ some (some u)
  placed_cons final first rest u (Memᴰ.head e) =
      subst (λ (v : User c). get_elem? final v.id ≡ some (some v)) (sym e) first
  placed_cons final first rest u (Memᴰ.tail m) = rest u m

  -- Users with different ids, all below the size of the array, are all stored at their ids, in
  -- whatever order they arrive, and no index is out of range.
  pub store_users_lem :
      (N : ℕ) (arrived : List (User c)) (users : List (Option (User c)))
      → length users ≡ N
      → All (λ i. i < N) (ids arrived)
      → IsDistinct (ids arrived)
      → (final : List (Option (User c))) × (store_users users arrived ≡ some final)
        × Stored users final arrived
  unfolding store_users
  store_users_lem N [] users l small d =
      (users, refl, record { same_length = refl; placed = λ u m. elim m [ ]; kept = λ i h. refl })
  store_users_lem N (x ∷ xs) users l small d =
      let next : List (Option (User c)) = set users x.id (some x) in
      let (final, e, s) =
        store_users_lem N xs next (length-set users x.id (some x) ∙ l) small.1 d.1 in
      (
        final,
        rw (lt→ltb x.id (length users) (omega arith)) e,
        record {
          same_length = s.same_length ∙ length-set users x.id (some x);
          placed =
              placed_cons final
                (s.kept x.id (self_absent x.id (ids xs) d.0)
                  ∙ get_elem?-set_self users x.id (some x) (omega arith))
                s.placed;
          kept = λ i h. s.kept i h.1 ∙ get_elem?-set_ne users (some x) h.0;
        },
      )
