-- ===== src/Simulator/Bandwidth/Log.antt =====
-- The map of mutexes of simulator/bandwidth.go.
use mathlib.Core.Logic.{ite}
use fabric_simulator.Prelude.{
  ℕ, ◌<◌, ◌≡◌, ◌≢◌, refl, ◌⊎◌, inl, inr, Option, none, some, [], ◌∷◌, ◌++◌, length, length-append,
  arith,
}
use fabric_simulator.Simulator.Types.{Party, Party-discrete}
use fabric_simulator.Simulator.Bandwidth.{Connections, find_lock, get_lock}

-- Every end of a connection has a lock of its own.
pub record OwnLocks (m : Connections) : Type 0 where
  pub known : (key : Party) (lock : ℕ) → find_lock key m ≡ some lock → lock < length m
  pub own :
      (key other : Party) (lock : ℕ)
      → find_lock key m ≡ some lock
      → find_lock other m ≡ some lock
      → key ≡ other

pub find_lock-append :
    (key new : Party) (lock : ℕ) (m : Connections)
    → find_lock key (m ++ (new, lock) ∷ []) ≡ elim (find_lock key m) [
      | some l ↦ some l
      | none ↦ ite (Party-discrete new key) (some lock) none
    ]
unfolding find_lock
find_lock-append key new lock [] = refl
find_lock-append key new lock ((k, l) ∷ m) = ground (arith, find_lock-append key new lock m)

OwnLocks-add :
    (new : Party) (m : Connections)
    → find_lock new m ≡ none
    → OwnLocks m
    → OwnLocks (m ++ (new, length m) ∷ [])
OwnLocks-add new m absent h = record {
  known = λ key lock q. ground (
    arith,
    find_lock-append key new (length m) m,
    h.known key lock,
    length-append m ((new, length m) ∷ []),
  );
  own = λ key other lock q r. ground (
    arith,
    find_lock-append key new (length m) m,
    find_lock-append other new (length m) m,
    h.known key lock,
    h.known other lock,
    h.own key other lock,
  );
}

module _ (key : Party) (m : Connections) where
  pub get_lock_found : (lock : ℕ) → find_lock key m ≡ some lock → get_lock key m ≡ (lock, m)
  unfolding get_lock
  get_lock_found lock e = ground (arith, e)

  pub get_lock_new : find_lock key m ≡ none → get_lock key m ≡ (length m, m ++ (key, length m) ∷ [])
  unfolding get_lock
  get_lock_new e = ground (arith, e)

  pub find_lock-cases : (o : Option ℕ) → ((lock : ℕ) × (o ≡ some lock)) ⊎ (o ≡ none)
  find_lock-cases none = inr refl
  find_lock-cases (some lock) = inl (lock, refl)

  -- If every key has a lock of its own, then so it is after one more is asked for: that key has the
  -- lock it got, and no other key's lock is touched.
  pub get_lock_lem :
      OwnLocks m
      → OwnLocks (get_lock key m).1
        × (find_lock key (get_lock key m).1 ≡ some (get_lock key m).0)
        × ((other : Party) → other ≢ key → find_lock other (get_lock key m).1 ≡ find_lock other m)
  get_lock_lem h = elim (find_lock-cases (find_lock key m)) [
    | inl (lock, e) ↦ rw (get_lock_found lock e) (h, e, λ other ne. refl)
    | inr e ↦ rw (get_lock_new e) (
      OwnLocks-add key m e h,
      ground (arith, find_lock-append key key (length m) m),
      λ other ne. ground (arith, find_lock-append other key (length m) m),
    )
  ]
