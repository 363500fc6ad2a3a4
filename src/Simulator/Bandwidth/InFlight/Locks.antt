-- ===== src/Simulator/Bandwidth/InFlight/Locks.antt =====
-- The mutex of an end, and the log, while transfers are in flight together.
use mathlib.Core.Path.{subst}
use fabric_simulator.Prelude.{
  ℕ, suc, ◌+◌, ◌%◌, ◌^◌, ◌≡◌, inl, inr, Bool, true, false, some, List, [], ◌∷◌, ◌++◌, map,
  map-append, length, length-append, ◌==◌, arith, if◌then◌else◌,
}
use fabric_simulator.Revocation.Requests.Times.{times, times-append}
use fabric_simulator.Simulator.Types.{Party}
use fabric_simulator.Simulator.Bandwidth.{Connections, find_lock, get_lock}
use fabric_simulator.Simulator.Bandwidth.Log.{
  find_lock-append, get_lock_found, get_lock_new, find_lock-cases,
}
use fabric_simulator.Simulator.Bandwidth.InFlight.{
  Progress, fresh, found, flying, logged, Transfers, Move, find_from, find_to, lock_from, lock_to,
  lock_global, unlock_from, unlock_to, unlock_global, write,
}

-- A key that has a lock keeps it.
find_lock-get_lock :
    (key other : Party) (lock : ℕ) (m : Connections)
    → find_lock other m ≡ some lock
    → find_lock other (get_lock key m).1 ≡ some lock
find_lock-get_lock key other lock m h = elim (find_lock-cases key m (find_lock key m)) [
  | inl (l, e) ↦ rw (get_lock_found key m l e) h
  | inr e ↦ rw (get_lock_new key m e) (ground (arith, find_lock-append other key (length m) m, h))
]

-- The key that asked has the lock it got.
find_lock-asked :
    (key : Party) (m : Connections) → find_lock key (get_lock key m).1 ≡ some (get_lock key m).0
find_lock-asked key m = elim (find_lock-cases key m (find_lock key m)) [
  | inl (l, e) ↦ rw (get_lock_found key m l e) e
  | inr e ↦ rw (get_lock_new key m e) (ground (arith, find_lock-append key key (length m) m, e))
]

-- The locks that a call has are those of its ends.
abbrev pub Found : Connections → Party × Party → Progress → Type 0
Found m e (found a) = find_lock e.0 m ≡ some a
Found m e (flying a b x y z) = (find_lock e.0 m ≡ some a) × (find_lock e.1 m ≡ some b)
Found m e _ = Unit

-- The events have the numbers from `k` on.
abbrev pub NumberedFrom : ℕ → List (ℕ × ℕ) → Type 0
NumberedFrom k [] = Unit
NumberedFrom k (e ∷ es) = (e.1 ≡ k % 2 ^ 64) × NumberedFrom (suc k) es

NumberedFrom-append :
    (k : ℕ) (es : List (ℕ × ℕ)) (i id : ℕ)
    → NumberedFrom k es
    → id ≡ (k + length es) % 2 ^ 64
    → NumberedFrom k (es ++ (i, id) ∷ [])
NumberedFrom-append k [] i id h q = (omega arith, tt)
NumberedFrom-append k (e ∷ es) i id h q =
    (h.0, NumberedFrom-append (suc k) es i id h.1 (omega arith))

abbrev pub is_logged : Progress → Bool
is_logged logged = true
is_logged _ = false

module _ (ends : ℕ → Party × Party) (n : ℕ) where
  Found-kept :
      (key : Party) (m : Connections) (e : Party × Party) (k : Progress)
      → Found m e k
      → Found (get_lock key m).1 e k
  Found-kept key m e (found a) h = find_lock-get_lock key e.0 a m h
  Found-kept key m e (flying a b x y z) h =
      (find_lock-get_lock key e.0 a m h.0, find_lock-get_lock key e.1 b m h.1)
  Found-kept key m e fresh h = tt
  Found-kept key m e logged h = tt

  module _ {s : Transfers} {i : ℕ} where
    -- The call that moves has the locks of its ends, and the others keep theirs.
    pub Move-Found :
        {k : Progress} {m : Connections} {log : List (ℕ × ℕ)} {id : ℕ}
        → Move ends n s i k m log id
        → Found s.connections (ends i) (s.calls i)
        → Found m (ends i) k
          × ((j : ℕ) → Found s.connections (ends j) (s.calls j) → Found m (ends j) (s.calls j))
    Move-Found (find_from ph) h = (
      find_lock-asked (ends i).0 s.connections,
      λ j. Found-kept (ends i).0 s.connections (ends j) (s.calls j),
    )
    Move-Found (find_to a ph) h = (
      (
        find_lock-get_lock (ends i).1 (ends i).0 a s.connections
            (subst (Found s.connections (ends i)) ph h),
        find_lock-asked (ends i).1 s.connections,
      ),
      λ j. Found-kept (ends i).1 s.connections (ends j) (s.calls j),
    )
    Move-Found (lock_from a b y z ph free) h = (subst (Found s.connections (ends i)) ph h, λ j g. g)
    Move-Found (lock_to a b x z ph free) h = (subst (Found s.connections (ends i)) ph h, λ j g. g)
    Move-Found (lock_global a b x y ph free) h =
        (subst (Found s.connections (ends i)) ph h, λ j g. g)
    Move-Found (unlock_from a b y z ph) h = (subst (Found s.connections (ends i)) ph h, λ j g. g)
    Move-Found (unlock_to a b x z ph) h = (subst (Found s.connections (ends i)) ph h, λ j g. g)
    Move-Found (unlock_global a b x y ph) h = (subst (Found s.connections (ends i)) ph h, λ j g. g)
    Move-Found (write a b ph) h = (tt, λ j g. g)

    -- A move writes once for its call when it ends it, and nothing else.
    pub Move-written :
        {k : Progress} {m : Connections} {log : List (ℕ × ℕ)} {id : ℕ} (j : ℕ)
        → Move ends n s i k m log id
        → times j (map (λ e. e.0) log)
            + (if i == j then (if is_logged (s.calls i) then 1 else 0) else 0)
          ≡ times j (map (λ e. e.0) s.log) + (if i == j then (if is_logged k then 1 else 0) else 0)
    unfolding times
    Move-written j (find_from ph) = ground (arith, ph)
    Move-written j (find_to a ph) = ground (arith, ph)
    Move-written j (lock_from a b y z ph free) = ground (arith, ph)
    Move-written j (lock_to a b x z ph free) = ground (arith, ph)
    Move-written j (lock_global a b x y ph free) = ground (arith, ph)
    Move-written j (unlock_from a b y z ph) = ground (arith, ph)
    Move-written j (unlock_to a b x z ph) = ground (arith, ph)
    Move-written j (unlock_global a b x y ph) = ground (arith, ph)
    Move-written j (write a b ph) =
        rw
          (
            map-append (λ (e : ℕ × ℕ). e.0) s.log ((i, s.next_id) ∷ []),
            times-append j (map (λ e. e.0) s.log) (i ∷ []),
          )
          (ground (arith, ph))

    pub Move-numbered :
        {k : Progress} {m : Connections} {log : List (ℕ × ℕ)} {id : ℕ}
        → Move ends n s i k m log id
        → NumberedFrom 1 s.log
        → s.next_id ≡ suc (length s.log) % 2 ^ 64
        → NumberedFrom 1 log × (id ≡ suc (length log) % 2 ^ 64)
    Move-numbered (write a b ph) h e = (
      NumberedFrom-append 1 s.log i s.next_id h (omega arith),
      omega (arith, length-append s.log ((i, s.next_id) ∷ [])),
    )
    Move-numbered (find_from ph) h e = (h, e)
    Move-numbered (find_to a ph) h e = (h, e)
    Move-numbered (lock_from a b y z ph free) h e = (h, e)
    Move-numbered (lock_to a b x z ph free) h e = (h, e)
    Move-numbered (lock_global a b x y ph free) h e = (h, e)
    Move-numbered (unlock_from a b y z ph) h e = (h, e)
    Move-numbered (unlock_to a b x z ph) h e = (h, e)
    Move-numbered (unlock_global a b x y ph) h e = (h, e)
