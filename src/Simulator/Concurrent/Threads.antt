-- ===== src/Simulator/Concurrent/Threads.antt =====
-- The threads of a state, and what they weigh, when a move ends some and starts others.
use fabric_simulator.Prelude.{
  ℕ, ◌+◌, ◌≡◌, ◌≢◌, refl, ap, List, [], ◌∷◌, ◌++◌, map, ◌==◌, arith, if◌then◌else◌,
}
use fabric_simulator.Helpers.Bounds.{All}
use fabric_simulator.Simulator.Concurrent.{Job, in_all}
use fabric_simulator.Simulator.Sums.{sum_of}

-- A weight of the jobs of one user.
abbrev pub of_user : ℕ → (Job → ℕ) → ℕ × Job → ℕ
of_user u w t = if t.0 == u then w t.1 else 0

unfoldable pub threads_of : ℕ → List Job → List (ℕ × Job)
threads_of u js = map (λ j. (u, j)) js

pub in_all-threads_of :
    (w : Job → ℕ) (u : ℕ) (js : List Job) → in_all w (threads_of u js) ≡ sum_of w js
unfolding sum_of threads_of
in_all-threads_of w u [] = refl
in_all-threads_of w u (j ∷ js) = ap (λ k. w j + k) (in_all-threads_of w u js)

pub own_threads :
    (w : Job → ℕ) (u : ℕ) (js : List Job) → sum_of (of_user u w) (threads_of u js) ≡ sum_of w js
unfolding sum_of threads_of
own_threads w u [] = refl
own_threads w u (j ∷ js) = ground (arith, own_threads w u js)

pub others_threads :
    (w : Job → ℕ) (u v : ℕ) (js : List Job) → u ≢ v → sum_of (of_user v w) (threads_of u js) ≡ 0
unfolding sum_of threads_of
others_threads w u v [] ne = refl
others_threads w u v (j ∷ js) ne = ground (arith, others_threads w u v js ne)

pub All-middle :
    {A : Type 0} (Q : A → Type 0) (xs ys zs : List A)
    → All Q (xs ++ (ys ++ zs))
    → All Q ys × All Q (xs ++ zs)
All-middle Q [] [] zs h = (tt, h)
All-middle Q [] (y ∷ ys) zs h = let (a, b) = All-middle Q [] ys zs h.1 in ((h.0, a), b)
All-middle Q (x ∷ xs) ys zs h = let (a, b) = All-middle Q xs ys zs h.1 in (a, (h.0, b))
