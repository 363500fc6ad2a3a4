-- ===== src/Simulator/Bandwidth/InFlight/Invariant.antt =====
-- What holds of transfers in flight together: each end, and the network, carries one at a time.
use mathlib.Core.Logic.{ite}
use mathlib.Core.Path.{subst}
use native.Mathlib.Decide.{ℕ_discrete}
use fabric_simulator.Prelude.{
  ℕ, suc, ◌+◌, ◌%◌, ◌^◌, ◌≡◌, ◌≢◌, ◌≤◌, refl, sym, ap, ◌∙◌, inl, inr, some, none, Option-cases, map,
  length, ◌==◌, arith, if◌then◌else◌,
}
use fabric_simulator.Revocation.Requests.Times.{times}
use fabric_simulator.Simulator.Sums.{update, update_self, update-ne, total, total-le, total-zero}
use fabric_simulator.Simulator.Types.{Party, Party-discrete}
use fabric_simulator.Simulator.Bandwidth.{Connections, find_lock}
use fabric_simulator.Simulator.Bandwidth.InFlight.{
  Progress, fresh, flying, Transfers, sleeping, holders, Step, moves, Steps, here, then_step,
  no_transfers,
}
use fabric_simulator.Simulator.Bandwidth.InFlight.Locks.{
  Found, NumberedFrom, is_logged, Move-Found, Move-written, Move-numbered,
}
use fabric_simulator.Simulator.Bandwidth.InFlight.Apart.{Apart, Step-Apart}

-- The goroutines of a call from `e.0` to `e.1` that sleep for the end `x`, and for the network.
abbrev pub sleeping_at : Party → Party × Party → Progress → ℕ
sleeping_at x e (flying a b from to global) =
    (ite (Party-discrete e.0 x) (sleeping from) 0) + ite (Party-discrete e.1 x) (sleeping to) 0
sleeping_at x e _ = 0

abbrev pub sleeping_global : Progress → ℕ
sleeping_global (flying a b from to global) = sleeping global
sleeping_global _ = 0

module _ (ends : ℕ → Party × Party) (n : ℕ) where
  pub record Sound (s : Transfers) : Type 0 where
    pub apart : Apart ends n s
    pub locks : (i : ℕ) → Found s.connections (ends i) (s.calls i)
    pub written :
        (i : ℕ) → times i (map (λ e. e.0) s.log) ≡ (if is_logged (s.calls i) then 1 else 0)
    pub numbered : NumberedFrom 1 s.log
    pub next : s.next_id ≡ suc (length s.log) % 2 ^ 64

  Step-Sound : {s t : Transfers} → Step ends n s t → Sound s → Sound t
  Step-Sound (moves s i k m log id l move) h = record {
    apart = Step-Apart ends n (moves s i k m log id l move) h.apart;
    locks = λ j. elim (ℕ_discrete i j) [
      | yes e ↦
          subst (λ j. Found m (ends j) (update s.calls i k j)) e
            (subst (Found m (ends i)) (sym (update_self s.calls i k)) found_it.0)
      | no ne ↦
          subst (Found m (ends j)) (sym (update-ne s.calls i j k ne)) (found_it.1 j (h.locks j))
    ];
    written = λ j. elim (ℕ_discrete i j) [
      | yes e ↦
          subst (λ j. Written j (update s.calls i k j)) e
            (subst (Written i) (sym (update_self s.calls i k))
              (ground (arith, Move-written ends n i move, h.written i)))
      | no ne ↦
          subst (Written j) (sym (update-ne s.calls i j k ne))
            (ground (arith, Move-written ends n j move, h.written j, ne))
    ];
    numbered = (Move-numbered ends n move h.numbered h.next).0;
    next = (Move-numbered ends n move h.numbered h.next).1;
  }
    where
      found_it :
          Found m (ends i) k
          × ((j : ℕ) → Found s.connections (ends j) (s.calls j) → Found m (ends j) (s.calls j))
      found_it = Move-Found ends n move (h.locks i)

      Written : ℕ → Progress → Type 0
      Written j k = times j (map (λ e. e.0) log) ≡ (if is_logged k then 1 else 0)

  start-Sound : Sound no_transfers
  unfolding times
  start-Sound = record {
    apart = λ mutex. omega (arith, total-zero (holders mutex) n (λ i. fresh) (λ i. refl));
    locks = λ i. tt;
    written = λ i. refl;
    numbered = tt;
    next = refl;
  }

  pub reached-Sound : {s : Transfers} {k : ℕ} → Steps ends n no_transfers s k → Sound s
  reached-Sound (here s) = start-Sound
  reached-Sound (then_step s t v k steps step) = Step-Sound step (reached-Sound steps)

  -- The goroutines at an end hold the mutex of that end.
  end_le :
      (x y : Party) (m : Connections) (a lock v : ℕ)
      → find_lock x m ≡ some lock
      → find_lock y m ≡ some a
      → ite (Party-discrete y x) v 0 ≤ (if suc a == suc lock then v else 0)
  end_le x y m a lock v h g =
      elim (Party-discrete y x) as (λ d. ite d v 0 ≤ (if suc a == suc lock then v else 0)) [
        | no other ↦ omega arith
        | yes same ↦
            let e : a ≡ lock = some-eq (sym g ∙ ap (λ k. find_lock k m) same ∙ h) in ground arith
      ]
    where
      some-eq : {a b : ℕ} → some a ≡ some b → a ≡ b
      some-eq h = cc

  sleeping_at-le :
      (x : Party) (m : Connections) (e : Party × Party) (k : Progress) (lock : ℕ)
      → find_lock x m ≡ some lock
      → Found m e k
      → sleeping_at x e k ≤ holders (suc lock) k
  sleeping_at-le x m e (flying a b from to global) lock h found_it = omega (
    arith,
    end_le x e.0 m a lock (sleeping from) h found_it.0,
    end_le x e.1 m b lock (sleeping to) h found_it.1,
  )
  sleeping_at-le x m e k lock h found_it = omega arith

  -- At an end without a mutex nothing sleeps.
  end_none :
      (x y : Party) (m : Connections) (a v : ℕ)
      → find_lock x m ≡ none
      → find_lock y m ≡ some a
      → ite (Party-discrete y x) v 0 ≡ 0
  end_none x y m a v h g = elim (Party-discrete y x) as (λ d. ite d v 0 ≡ 0) [
    | no other ↦ refl
    | yes same ↦ absurd (never (sym h ∙ ap (λ k. find_lock k m) (sym same) ∙ g))
  ]
    where
      never : {a : ℕ} → none ≢ some a
      never h = cc

  sleeping_at-none :
      (x : Party) (m : Connections) (e : Party × Party) (k : Progress)
      → find_lock x m ≡ none
      → Found m e k
      → sleeping_at x e k ≡ 0
  sleeping_at-none x m e (flying a b from to global) h found_it = omega (
    arith,
    end_none x e.0 m a (sleeping from) h found_it.0,
    end_none x e.1 m b (sleeping to) h found_it.1,
  )
  sleeping_at-none x m e k h found_it = refl

  sleeping_global-le : (k : Progress) → sleeping_global k ≤ holders 0 k
  sleeping_global-le (flying a b from to global) = omega arith
  sleeping_global-le k = omega arith

  -- However the calls of recordBandwidth interleave, at most one goroutine sleeps for each end of a
  -- connection, and at most one for the whole network: two transfers of one party never pass at once.
  pub one_at_a_time :
      {s : Transfers} {k : ℕ}
      → Steps ends n no_transfers s k
      → ((x : Party) → total (λ c. c) n (λ i. sleeping_at x (ends i) (s.calls i)) ≤ 1)
        × (total sleeping_global n s.calls ≤ 1)
  one_at_a_time {s} steps =
      let sound = reached-Sound steps in
      (
        λ x. elim (Option-cases (find_lock x s.connections)) [
          | inl none_yet ↦ omega (
            arith,
            total-zero (λ c. c) n (λ i. sleeping_at x (ends i) (s.calls i))
                (λ i.
                  sleeping_at-none x s.connections (ends i) (s.calls i) none_yet (sound.locks i)),
          )
          | inr (lock, e) ↦ omega (
            arith,
            sound.apart (suc lock),
            total-le (λ c. c) (holders (suc lock)) n (λ i. sleeping_at x (ends i) (s.calls i))
                s.calls
                (λ i l. sleeping_at-le x s.connections (ends i) (s.calls i) lock e (sound.locks i)),
          )
        ],
        omega (
          arith,
          sound.apart 0,
          total-le sleeping_global (holders 0) n s.calls s.calls
              (λ i l. sleeping_global-le (s.calls i)),
        ),
      )
