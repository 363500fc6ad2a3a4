-- ===== src/Simulator/Concurrent/Invariant.antt =====
-- What holds in every state that the goroutines of a simulation reach.
use mathlib.Core.Path.{subst}
use native.Mathlib.Decide.{ℕ_discrete}
use fabric_simulator.Prelude.{
  ℕ, ◌+◌, ◌≡◌, ◌≢◌, ◌<◌, refl, sym, ap, ◌∙◌, List, [], ◌∷◌, ◌++◌, map, length, arith,
}
use fabric_simulator.Platform.{Platform, Bytes}
use fabric_simulator.Helpers.Bounds.{All, All-append}
use fabric_simulator.Params.{SystemParameters}
use fabric_simulator.Simulator.Concurrent.{
  Client, Job, State, in_all, Move, Step, moves, Steps, here, then_step, at_start,
}
use fabric_simulator.Simulator.Sums.{
  update, update_self, update-ne, sum_of, sum_of-append, sum_of-middle,
}
use fabric_simulator.Simulator.Concurrent.Threads.{
  of_user, threads_of, in_all-threads_of, own_threads, others_threads, All-middle,
}
use fabric_simulator.Simulator.Concurrent.Caps.{Capped, Capped-same, Move-Capped}
use fabric_simulator.Simulator.Concurrent.Accounts.Moves.{Move-Fits, Move-Within}
use fabric_simulator.Simulator.Concurrent.Accounts.{
  endorsements_of, confirmations_of, handles_of, Within, Fits, Fits-same,
}

module _ {c : Platform} (p : SystemParameters c) (messages : ℕ → List Bytes) (n : ℕ) where
  abbrev pub InPlace : ℕ × Job → Type 0
  InPlace t = (t.0 < n) × Within p t.1

  abbrev Fine : List (ℕ × Job) → ℕ → Client → Type 0
  Fine threads u k =
      Fits p k (sum_of (of_user u endorsements_of) threads)
        (sum_of (of_user u confirmations_of) threads) (sum_of (of_user u handles_of) threads)
        (length (messages u))

  -- Each user has its accounts in order, each loop holds one message at most, no semaphore is
  -- overdrawn, and every thread belongs to a user and names peers.
  pub record Sound (s : State) : Type 0 where
    pub users : (u : ℕ) → Fine s.threads u (s.users u)
    pub capped : (q : ℕ) → Capped p q (λ w. in_all w s.threads)
    pub in_place : All InPlace s.threads

  module _ (s : State) (u : ℕ) (before after : List (ℕ × Job)) (gone new : List Job) (k : Client)
      (e : s.threads ≡ before ++ (map (λ j. (u, j)) gone ++ after)) where
    abbrev after_it : State
    after_it = record {
      users = update s.users u k;
      threads = map (λ j. (u, j)) new ++ (before ++ after);
    }

    -- A weight over all threads, before the move and after it.
    count_before :
        (w : ℕ × Job → ℕ)
        → sum_of w s.threads ≡ sum_of w (threads_of u gone) + sum_of w (before ++ after)
    unfolding threads_of
    count_before w = ap (sum_of w) e ∙ sum_of-middle w before (map (λ j. (u, j)) gone) after

    count_after :
        (w : ℕ × Job → ℕ)
        → sum_of w after_it.threads ≡ sum_of w (threads_of u new) + sum_of w (before ++ after)
    unfolding threads_of
    count_after w = sum_of-append w (map (λ j. (u, j)) new) (before ++ after)

    in_all-before : (w : Job → ℕ) → in_all w s.threads ≡ sum_of w gone + in_all w (before ++ after)
    in_all-before w = omega (arith, count_before (λ t. w t.1), in_all-threads_of w u gone)

    in_all-after :
        (w : Job → ℕ) → in_all w after_it.threads ≡ sum_of w new + in_all w (before ++ after)
    in_all-after w = omega (arith, count_after (λ t. w t.1), in_all-threads_of w u new)

    Capped-after :
        (q : ℕ)
        → Move p s u gone k new
        → Capped p q (λ w. in_all w s.threads)
        → Capped p q (λ w. in_all w after_it.threads)
    Capped-after q move h =
        let rest : (Job → ℕ) → ℕ = λ w. in_all w (before ++ after) in
        Capped-same p q (λ w. sum_of w new + rest w) (λ w. in_all w after_it.threads)
          (λ w. sym (in_all-after w))
          (Move-Capped p q rest move in_all-before (
            Capped-same p q (λ w. in_all w s.threads) (λ w. sum_of w gone + rest w) in_all-before
              h))

    -- The user that moves.
    Fits-own : 0 < p.peers → Move p s u gone k new → Sound s → Fine after_it.threads u k
    Fits-own some_peer move h =
        Fits-same p (sym (new_sum endorsements_of)) (sym (new_sum confirmations_of))
          (sym (new_sum handles_of))
          (Move-Fits p some_peer _ _ _ _ move (
            Fits-same p (old_sum endorsements_of) (old_sum confirmations_of) (old_sum handles_of)
              (h.users u)))
      where
        old_sum :
            (w : Job → ℕ)
            → sum_of (of_user u w) s.threads
              ≡ sum_of w gone + sum_of (of_user u w) (before ++ after)
        old_sum w = omega (arith, count_before (of_user u w), own_threads w u gone)

        new_sum :
            (w : Job → ℕ)
            → sum_of (of_user u w) after_it.threads
              ≡ sum_of w new + sum_of (of_user u w) (before ++ after)
        new_sum w = omega (arith, count_after (of_user u w), own_threads w u new)

    -- Any other user has the same accounts.
    Fits-other : (v : ℕ) → u ≢ v → Sound s → Fine after_it.threads v (s.users v)
    Fits-other v ne h =
        Fits-same p (same endorsements_of) (same confirmations_of) (same handles_of) (h.users v)
      where
        same :
            (w : Job → ℕ) → sum_of (of_user v w) s.threads ≡ sum_of (of_user v w) after_it.threads
        same w = omega (
          arith,
          count_before (of_user v w),
          count_after (of_user v w),
          others_threads w u v gone ne,
          others_threads w u v new ne,
        )

    own-InPlace : (js : List Job) → All InPlace (threads_of u js) → All (Within p) js
    unfolding threads_of
    own-InPlace [] h = tt
    own-InPlace (j ∷ js) h = (h.0.1, own-InPlace js h.1)

    InPlace-own : u < n → (js : List Job) → All (Within p) js → All InPlace (threads_of u js)
    unfolding threads_of
    InPlace-own l [] h = tt
    InPlace-own l (j ∷ js) h = ((l, h.0), InPlace-own l js h.1)

    InPlace-after :
        0 < p.peers → u < n → Move p s u gone k new → Sound s → All InPlace after_it.threads
    unfolding threads_of
    InPlace-after some_peer l move h =
        let (old, rest) =
          All-middle InPlace before (threads_of u gone) after (subst (All InPlace) e h.in_place) in
        All-append InPlace (threads_of u new) (before ++ after)
          (InPlace-own l new
            (Move-Within p some_peer move (h.users u).place (own-InPlace gone old)))
          rest

    after-Sound : 0 < p.peers → u < n → Move p s u gone k new → Sound s → Sound after_it
    after-Sound some_peer l move h = record {
      users = λ v. elim (ℕ_discrete u v) [
        | yes same ↦
            subst (λ w. Fine after_it.threads w (update s.users u k w)) same
              (subst (Fine after_it.threads u) (sym (update_self s.users u k))
                (Fits-own some_peer move h))
        | no other ↦
            subst (Fine after_it.threads v) (sym (update-ne s.users u v k other))
              (Fits-other v other h)
      ];
      capped = λ q. Capped-after q move (h.capped q);
      in_place = InPlace-after some_peer l move h;
    }

  module _ (some_peer : 0 < p.peers) where
    pub Step-Sound : {s t : State} → Step p n s t → Sound s → Sound t
    Step-Sound (moves s u before after gone new k l e move) h =
        after-Sound s u before after gone new k e some_peer l move h

    pub start-Sound : Sound (at_start messages)
    unfolding sum_of
    start-Sound = record {
      users = λ u. record {
        endorsements = refl;
        confirmations = refl;
        handles = refl;
        place = tt;
        counted = omega arith;
      };
      capped = λ q. (omega arith, omega arith, omega arith, omega arith, omega arith);
      in_place = tt;
    }

    Steps-Sound : {s t : State} {k : ℕ} → Steps p n s t k → Sound s → Sound t
    Steps-Sound (here s) h = h
    Steps-Sound (then_step s t v k steps step) h = Step-Sound step (Steps-Sound steps h)

    -- With at least one peer, in every state that is reached from the start: each loop holds one message
    -- at most, no semaphore has more permits out than its limit, every job names a peer and a user of the
    -- network, and for each user the answers on their way, those in the buffers and those not asked for
    -- yet are exactly those that it still waits for, and the transactions recorded, in work and to come
    -- are its messages.
    pub reached-Sound : {s : State} {k : ℕ} → Steps p n (at_start messages) s k → Sound s
    reached-Sound steps = Steps-Sound steps start-Sound
