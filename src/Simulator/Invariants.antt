-- ===== src/Simulator/Invariants.antt =====
-- What holds of the shared state after any number of transactions.
use fabric_simulator.Prelude.{
  ℕ, suc, ◌+◌, ◌%◌, ◌^◌, ◌≡◌, sym, ◌⊎◌, inl, inr, true, List, [], ◌∷◌, ◌++◌, length, length-append,
  arith,
}
use fabric_simulator.Platform.{Platform, Bytes}
use fabric_simulator.Exec.{◌>>=◌}
use fabric_simulator.Params.{SystemParameters}
use fabric_simulator.Simulator.Types.{NetworkEvent, Operation, User, Network, World}
use fabric_simulator.Simulator.Env.{now, sleep, event}
use fabric_simulator.Simulator.Bandwidth.{get_lock, record_bandwidth}
use fabric_simulator.Simulator.Bandwidth.Log.{OwnLocks, get_lock_lem}
use fabric_simulator.Simulator.Peer.{add_key, is_cached}
use fabric_simulator.Simulator.Peer.Identity.{key_of, verifies, bytes_equal-eq}
use fabric_simulator.Simulator.Revocation.Epochs.{ticks_lem}
use fabric_simulator.Simulator.User.{record_transaction, submit_transaction}
use fabric_simulator.Simulator.Closed.{Closed, submit_transaction-Keeps}

module _ {c : Platform} (p : SystemParameters c) where
  -- A proof that was verified stands behind the key.
  pub record Vouched (key : Bytes) : Type 0 where
    pub proof : Bytes
    pub pk_nym : c.Pk
    pub indices : List (ℕ × ℕ × c.Attribute)
    pub same_key : key ≡ key_of p proof
    pub verified : verifies p proof pk_nym indices ≡ true

  -- Every cached key is vouched for.
  abbrev pub CachesSound : World c → Type 0
  CachesSound w =
      (id : ℕ) (op : Operation) (key : Bytes) → is_cached key (w.caches id op) ≡ true → Vouched key

  is_cached-append_cases :
      (key new : Bytes) (keys : List Bytes)
      → is_cached key (keys ++ new ∷ []) ≡ true
      → (is_cached key keys ≡ true) ⊎ (new ≡ key)
  unfolding is_cached
  is_cached-append_cases key new [] h = ground (arith, bytes_equal-eq new key)
  is_cached-append_cases key new (k ∷ ks) h = ground (arith, is_cached-append_cases key new ks)

  is_cached-add_key_cases :
      (caches : ℕ → Operation → List Bytes) (id : ℕ) (op : Operation) (new : Bytes) (i : ℕ)
      (o : Operation) (key : Bytes)
      → is_cached key (add_key caches id op new i o) ≡ true
      → (is_cached key (caches i o) ≡ true) ⊎ (new ≡ key)
  unfolding add_key
  is_cached-add_key_cases caches id op new i o key h =
      ground (arith, is_cached-append_cases key new (caches i o))

  vouch :
      (w : World c) (proof : Bytes) (pk_nym : c.Pk) (indices : List (ℕ × ℕ × c.Attribute))
      → verifies p proof pk_nym indices ≡ true
      → {key : Bytes} → key_of p proof ≡ key
      → Vouched key
  vouch w proof pk_nym indices v e = record {
    proof = proof;
    pk_nym = pk_nym;
    indices = indices;
    same_key = sym e;
    verified = v;
  }

  CachesSound-closed : Closed p CachesSound
  unfolding event now sleep record_bandwidth record_transaction ◌>>=◌
  CachesSound-closed = record {
    on_event = λ e. record { at = λ s h. h };
    on_now = record { at = λ s h. h };
    on_sleep = λ n. record { at = λ s h. h };
    on_bandwidth = λ from to object size. record { at = λ s h. h };
    on_key = λ w id op proof pk_nym indices v h i o key q.
        elim (is_cached-add_key_cases w.caches id op (key_of p proof) i o key q) [
          | inl old ↦ h i o key old
          | inr new ↦ vouch w proof pk_nym indices v new
        ];
    on_ticks = λ n w h. rw (ticks_lem p n w) h;
    on_timing = λ w info h. h;
    on_transaction = λ net tx. record { at = λ s h. h };
  }

  -- A key enters a cache only after a proof with that key was verified: if every cached key is
  -- vouched for before a transaction, then so it is afterwards, whether it completed or not.
  pub submit_transaction-CachesSound :
      (net : Network c) (message : Bytes) (late : ℕ) (user : User c) (w : World c)
      → CachesSound w
      → CachesSound (submit_transaction p net message late user w).1
  submit_transaction-CachesSound net message late user w =
      (submit_transaction-Keeps CachesSound-closed net message late user).at w

  -- The numbers of the events from `n` on, one after the other, as a uint64 counts.
  abbrev pub Numbered : ℕ → List NetworkEvent → Type 0
  Numbered n [] = Unit
  Numbered n (e ∷ es) = (e.id ≡ n % 2 ^ 64) × Numbered (suc n) es

  pub record LogNumbered (w : World c) : Type 0 where
    pub numbered : Numbered 1 w.network_log
    pub next : w.network_event_id ≡ suc (length w.network_log) % 2 ^ 64

  Numbered-append :
      (n : ℕ) (es : List NetworkEvent) (e : NetworkEvent)
      → Numbered n es
      → e.id ≡ (n + length es) % 2 ^ 64
      → Numbered n (es ++ e ∷ [])
  Numbered-append n [] e h q = (omega arith, tt)
  Numbered-append n (x ∷ es) e h q = (h.0, Numbered-append (suc n) es e h.1 (omega arith))

  LogNumbered-closed : Closed p LogNumbered
  unfolding event now sleep record_bandwidth record_transaction ◌>>=◌
  LogNumbered-closed = record {
    on_event = λ e. record { at = λ s h. record { numbered = h.numbered; next = h.next } };
    on_now = record { at = λ s h. record { numbered = h.numbered; next = h.next } };
    on_sleep = λ n. record { at = λ s h. record { numbered = h.numbered; next = h.next } };
    on_bandwidth = λ from to object size. record {
      at = λ s h. record {
        numbered = Numbered-append 1 s.network_log _ h.numbered (omega (arith, h.next));
        next = omega (arith, h.next, length-append s.network_log);
      };
    };
    on_key = λ w id op proof pk_nym indices v h. record { numbered = h.numbered; next = h.next };
    on_ticks = λ n w h. rw (ticks_lem p n w) (record { numbered = h.numbered; next = h.next });
    on_timing = λ w info h. record { numbered = h.numbered; next = h.next };
    on_transaction =
        λ net tx. record { at = λ s h. record { numbered = h.numbered; next = h.next } };
  }

  -- A transaction, completed or not, leaves a log whose events are numbered from 1 without a gap or
  -- a repetition (modulo 2^64), if it was so before.
  pub submit_transaction-LogNumbered :
      (net : Network c) (message : Bytes) (late : ℕ) (user : User c) (w : World c)
      → LogNumbered w
      → LogNumbered (submit_transaction p net message late user w).1
  submit_transaction-LogNumbered net message late user w =
      (submit_transaction-Keeps LogNumbered-closed net message late user).at w

  -- No two ends of a connection share a lock.
  abbrev pub LocksOwn : World c → Type 0
  LocksOwn w = OwnLocks w.connections

  LocksOwn-closed : Closed p LocksOwn
  unfolding event now sleep record_bandwidth record_transaction ◌>>=◌
  LocksOwn-closed = record {
    on_event = λ e. record { at = λ s h. h };
    on_now = record { at = λ s h. h };
    on_sleep = λ n. record { at = λ s h. h };
    on_bandwidth = λ from to object size. record {
      at = λ s h.
          (get_lock_lem to (get_lock from s.connections).1 (get_lock_lem from s.connections h).0).0;
    };
    on_key = λ w id op proof pk_nym indices v h. h;
    on_ticks = λ n w h. rw (ticks_lem p n w) h;
    on_timing = λ w info h. h;
    on_transaction = λ net tx. record { at = λ s h. h };
  }

  -- A transaction, completed or not, leaves every end of a connection with a lock of its own, if it
  -- was so before.
  pub submit_transaction-LocksOwn :
      (net : Network c) (message : Bytes) (late : ℕ) (user : User c) (w : World c)
      → LocksOwn w
      → LocksOwn (submit_transaction p net message late user w).1
  submit_transaction-LocksOwn net message late user w =
      (submit_transaction-Keeps LocksOwn-closed net message late user).at w
