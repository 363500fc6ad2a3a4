-- ===== src/Simulator/Counter/InFlight/Ends.antt =====
-- No recorded event is lost, in whatever order the calls take their steps.
use fabric_simulator.Prelude.{
  ℕ, zero, suc, ◌+◌, ◌*◌, ◌≡◌, ◌≢◌, ◌≤◌, ◌<◌, ◌⊎◌, inl, inr, refl, ap, ◌∙◌, sym, Option, Bool-cases,
  ◌==◌, arith,
}
use fabric_simulator.Simulator.Counter.{
  CryptoEvent, Counters, lookup, insert, bumped, record_crypto_event,
}
use fabric_simulator.Simulator.Counter.Counts.{count, hit, count-record_crypto_event}
use fabric_simulator.Simulator.Sums.{
  update, update-ne, total, total-update, total-at, total-cases, total-le,
}
use fabric_simulator.Simulator.Counter.InFlight.{
  Call, waits, locked, looked, stored, over, Recording, holding, Move, lock, look, store, unlock,
  Step, moves, Steps, here, then_step, begun,
}

-- The steps that a call has still to take.
abbrev work : Call → ℕ
work (waits e) = 4
work (locked e) = 3
work (looked e found) = 2
work (stored e) = 1
work (over e) = 0

-- 1 for a call that is to record the event, and for one that has.
abbrev asks : CryptoEvent → Call → ℕ
asks event (waits e) = hit e event
asks event (locked e) = hit e event
asks event (looked e found) = hit e event
asks event (stored e) = hit e event
asks event (over e) = hit e event

abbrev written : CryptoEvent → Call → ℕ
written event (waits e) = 0
written event (locked e) = 0
written event (looked e found) = 0
written event (stored e) = hit e event
written event (over e) = hit e event

count-store :
    (event e : CryptoEvent) (found : Option ℕ) (table : Counters)
    → found ≡ lookup e table
    → count event (insert e (bumped found) table) ≡ count event table + hit e event
unfolding record_crypto_event
count-store event e found table h =
    ap (λ o. count event (insert e (bumped o) table)) h ∙ count-record_crypto_event e event table

module _ (n : ℕ) (events : ℕ → CryptoEvent) (m : Counters) where
  -- What holds after `k` steps: one call at most holds the mutex, what a call found is still in the
  -- table, and the table counts what has been written.
  record Sound (s : Recording) (k : ℕ) : Type 0 where
    alone : total holding n s.calls ≤ 1
    current :
        (j : ℕ) (e : CryptoEvent) (found : Option ℕ)
        → j < n
        → s.calls j ≡ looked e found
        → found ≡ lookup e s.table
    counted : (e : CryptoEvent) → count e s.table ≡ count e m + total (written e) n s.calls
    asked : (e : CryptoEvent) → total (asks e) n s.calls ≡ total (λ x. hit x e) n events
    spent : k + total work n s.calls ≡ 4 * n

  module _ (s : Recording) (i : ℕ) (lt : i < n) where
    -- Another call than the one that holds the mutex has found nothing.
    only_one :
        (j : ℕ) (e : CryptoEvent) (found : Option ℕ)
        → total holding n s.calls ≤ holding (s.calls i)
        → j < n
        → i ≢ j
        → s.calls j ≢ looked e found
    only_one j e found alone below other there =
        let left = update s.calls i (over e) in
        omega (
          arith,
          total-update holding n s.calls i (over e) lt,
          total-at holding n left j below,
          ap holding (update-ne s.calls i j (over e) other ∙ there),
          alone,
        )

    -- What a call found stays current if no other has found anything, or the table is the same.
    still_current :
        (call : Call) (table : Counters)
        → ((e : CryptoEvent) (found : Option ℕ) → call ≡ looked e found → found ≡ lookup e table)
        → ((j : ℕ) (e : CryptoEvent) (found : Option ℕ)
            → j < n
            → i ≢ j
            → s.calls j ≡ looked e found
            → found ≡ lookup e table)
        → (j : ℕ) (e : CryptoEvent) (found : Option ℕ) → j < n
        → update s.calls i call j ≡ looked e found
        → found ≡ lookup e table
    unfolding update
    still_current call table mine others j e found below h = elim (Bool-cases (i == j)) [
      | inl same ↦ mine e found (ground (arith, same, h))
      | inr other ↦ others j e found below (ground (arith, other)) (ground (arith, other, h))
    ]

    module _ (k : ℕ) (sound : Sound s k) where
      -- The sums after the step, from what it does to this call.
      moved :
          (call : Call) (table : Counters)
          → total holding n (update s.calls i call) ≤ 1
          → ((j : ℕ) (e : CryptoEvent) (found : Option ℕ)
              → j < n
              → update s.calls i call j ≡ looked e found
              → found ≡ lookup e table)
          → ((e : CryptoEvent)
              → count e table + written e (s.calls i) ≡ count e s.table + written e call)
          → ((e : CryptoEvent) → asks e call ≡ asks e (s.calls i))
          → suc (work call) ≡ work (s.calls i)
          → Sound (record { calls = update s.calls i call; table = table }) (suc k)
      moved call table alone current grows same less = record {
        alone = alone;
        current = current;
        counted = λ e.
            omega (arith, sound.counted e, grows e, total-update (written e) n s.calls i call lt);
        asked =
            λ e. omega (arith, sound.asked e, same e, total-update (asks e) n s.calls i call lt);
        spent = omega (arith, sound.spent, less, total-update work n s.calls i call lt);
      }

      Move-Sound :
          (call : Call) (table : Counters)
          → Move n s i call table
          → Sound (record { calls = update s.calls i call; table = table }) (suc k)
      Move-Sound call table (lock e at free) =
          moved (locked e) s.table
            (omega (arith, free, total-update holding n s.calls i (locked e) lt, ap holding at))
            (still_current (locked e) s.table (λ e' found h. cc)
              (λ j e' found below other there. sound.current j e' found below there))
            (λ e'. omega (arith, ap (written e') at)) (λ e'. sym (ap (asks e') at))
            (omega (arith, ap work at))
      Move-Sound call table (look e at) =
          moved (looked e (lookup e s.table)) s.table
            (omega (
              arith,
              sound.alone,
              total-update holding n s.calls i (looked e (lookup e s.table)) lt,
              ap holding at,
            ))
            (still_current (looked e (lookup e s.table)) s.table (λ e' found h. cc)
              (λ j e' found below other there. sound.current j e' found below there))
            (λ e'. omega (arith, ap (written e') at)) (λ e'. sym (ap (asks e') at))
            (omega (arith, ap work at))
      Move-Sound call table (store e found at) =
          moved (stored e) (insert e (bumped found) s.table)
            (omega
              (arith, sound.alone, total-update holding n s.calls i (stored e) lt, ap holding at))
            (still_current (stored e) (insert e (bumped found) s.table) (λ e' found h. cc)
              (λ j e' found' below other there. absurd (
                only_one j e' found' (omega (arith, sound.alone, ap holding at)) below other
                  there)))
            (λ e'. omega (
              arith,
              ap (written e') at,
              count-store e' e found s.table (sound.current i e found lt at),
            ))
            (λ e'. sym (ap (asks e') at)) (omega (arith, ap work at))
      Move-Sound call table (unlock e at) =
          moved (over e) s.table
            (omega
              (arith, sound.alone, total-update holding n s.calls i (over e) lt, ap holding at))
            (still_current (over e) s.table (λ e' found h. cc)
              (λ j e' found below other there. sound.current j e' found below there))
            (λ e'. omega (arith, ap (written e') at)) (λ e'. sym (ap (asks e') at))
            (omega (arith, ap work at))

total_of :
    (w : Call → ℕ) (v : CryptoEvent → ℕ) (n : ℕ) (events : ℕ → CryptoEvent)
    → ((e : CryptoEvent) → w (waits e) ≡ v e)
    → total w n (λ i. waits (events i)) ≡ total v n events
unfolding total
total_of w v zero events h = refl
total_of w v (suc n) events h = omega (arith, total_of w v n events h, h (events n))

total_constant :
    (n k : ℕ) (events : ℕ → CryptoEvent) → total (λ (x : CryptoEvent). k) n events ≡ k * n
unfolding total
total_constant zero k events = omega arith
total_constant (suc n) k events = grind (arith, total_constant n k events)

module _ (n : ℕ) (events : ℕ → CryptoEvent) (m : Counters) where
  begun-Sound : Sound n events m (begun events m) 0
  begun-Sound = record {
    alone =
        omega (arith, total_of holding (λ e. 0) n events (λ e. refl), total_constant n 0 events);
    current = λ j e found below h. cc;
    counted = λ e.
        omega
          (arith, total_of (written e) (λ x. 0) n events (λ x. refl), total_constant n 0 events);
    asked = λ e. total_of (asks e) (λ x. hit x e) n events (λ x. refl);
    spent = omega (arith, total_of work (λ e. 4) n events (λ e. refl), total_constant n 4 events);
  }

  Step-Sound :
      {s t : Recording} (k : ℕ) → Sound n events m s k → Step n s t → Sound n events m t (suc k)
  Step-Sound k sound (moves s i call table lt move) =
      Move-Sound n events m s i lt k sound call table move

  Steps-Sound : {s : Recording} {k : ℕ} → Steps n (begun events m) s k → Sound n events m s k
  Steps-Sound steps = from begun-Sound steps
    where
      from : {s t : Recording} {k : ℕ} → Sound n events m s 0 → Steps n s t k → Sound n events m t k
      from sound (here s) = sound
      from sound (then_step s t v k steps next) = Step-Sound k (from sound steps) next

  -- The call that holds the mutex can go on, and any that waits if none holds it.
  goes_on :
      (s : Recording) (i : ℕ) (call : Call)
      → i < n
      → s.calls i ≡ call
      → 0 < work call
      → (holding call ≡ 0 → total holding n s.calls ≡ 0)
      → (t : Recording) × Step n s t
  goes_on s i (waits e) lt at busy free =
      (_, moves s i (locked e) s.table lt (lock e at (free refl)))
  goes_on s i (locked e) lt at busy free =
      (_, moves s i (looked e (lookup e s.table)) s.table lt (look e at))
  goes_on s i (looked e found) lt at busy free =
      (_, moves s i (stored e) (insert e (bumped found) s.table) lt (store e found at))
  goes_on s i (stored e) lt at busy free = (_, moves s i (over e) s.table lt (unlock e at))
  goes_on s i (over e) lt at busy free = absurd (omega arith)

  holding_works : (call : Call) → 0 < holding call → 0 < work call
  holding_works (waits e) h = omega arith
  holding_works (locked e) h = omega arith
  holding_works (looked e found) h = omega arith
  holding_works (stored e) h = omega arith
  holding_works (over e) h = omega arith

  -- A call that is over has written what it was to record.
  all_written :
      (event : CryptoEvent) (call : Call) → work call ≡ 0 → asks event call ≤ written event call
  all_written event (waits e) h = absurd (omega arith)
  all_written event (locked e) h = absurd (omega arith)
  all_written event (looked e found) h = absurd (omega arith)
  all_written event (stored e) h = omega arith
  all_written event (over e) h = omega arith

  only_asked : (event : CryptoEvent) (call : Call) → written event call ≤ asks event call
  only_asked event (waits e) = omega arith
  only_asked event (locked e) = omega arith
  only_asked event (looked e found) = omega arith
  only_asked event (stored e) = omega arith
  only_asked event (over e) = omega arith

  all_counted :
      (s : Recording) (k : ℕ)
      → Sound n events m s k
      → total work n s.calls ≡ 0
      → (event : CryptoEvent)
      → count event s.table ≡ count event m + total (λ x. hit x event) n events
  all_counted s k sound done event = omega (
    arith,
    sound.counted event,
    sound.asked event,
    total-le (asks event) (written event) n s.calls s.calls
        (λ i lt. all_written event (s.calls i) (omega (arith, total-at work n s.calls i lt, done))),
    total-le (written event) (asks event) n s.calls s.calls (λ i lt. only_asked event (s.calls i)),
  )

  -- However the steps of `n` calls of recordCryptoEvent interleave: together they take no more than four
  -- steps for each call, and as long as not all are taken some call can go on; when all are taken, the
  -- count of each event has grown by the number of the calls that recorded it.
  pub recordings_end :
      (s : Recording) (k : ℕ)
      → Steps n (begun events m) s k
      → (k ≤ 4 * n)
        × (((t : Recording) × Step n s t)
            ⊎ ((k ≡ 4 * n)
                × ((event : CryptoEvent)
                    → count event s.table ≡ count event m + total (λ x. hit x event) n events)))
  recordings_end s k steps =
      let sound = Steps-Sound steps in
      (
        omega (arith, sound.spent),
        elim (total-cases holding n s.calls) [
          | inl (i, lt, holds) ↦ inl (
              goes_on s i (s.calls i) lt refl (holding_works (s.calls i) holds)
                (λ none. absurd (omega arith)))
          | inr free ↦ elim (total-cases work n s.calls) [
            | inl (i, lt, busy) ↦ inl (goes_on s i (s.calls i) lt refl busy (λ none. free))
            | inr done ↦ inr (omega (arith, sound.spent, done), all_counted s k sound done)
          ]
        ],
      )
