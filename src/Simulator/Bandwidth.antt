-- ===== src/Simulator/Bandwidth.antt =====
-- simulator/bandwidth.go: what a transfer over the network costs and how it is logged.
pub mod Log
pub mod InFlight
use Prim.Native.Nat.{max}
use mathlib.Core.Logic.{ite}
use fabric_simulator.Prelude.{
  ℕ, ◌+◌, ◌*◌, ◌%◌, ◌^◌, Option, none, some, List, [], ◌∷◌, ◌++◌, length, ◌==◌, if◌then◌else◌,
}
use fabric_simulator.Platform.{Platform}
use fabric_simulator.Exec.{Exec, ok, modify, gets, pure, ◌>>=◌, ◌>>◌}
use fabric_simulator.Params.{SystemParameters}
use fabric_simulator.Simulator.Types.{Party, Party-discrete, ObjectName, NetworkEvent, World}
use fabric_simulator.Simulator.Env.{now, sleep}

abbrev pub certificate_size : ℕ
certificate_size = 734

-- map[string]*sync.Mutex; a mutex is known by the order in which it was made
abbrev pub Connections : Type 0
Connections = List (Party × ℕ)

unfoldable pub find_lock : Party → Connections → Option ℕ
find_lock key [] = none
find_lock key ((k, lock) ∷ m) = ite (Party-discrete k key) (some lock) (find_lock key m)

unfoldable pub get_lock : Party → Connections → ℕ × Connections
get_lock key m = elim (find_lock key m) [
  | some lock ↦ (lock, m)
  | none ↦ (length m, m ++ (key, length m) ∷ [])
]

module _ (c : Platform) where
  -- time.Duration(1000 * (float64(size) / float64(bandwidth))) * time.Millisecond
  unfoldable pub get_wait_time : ℕ → ℕ → ℕ
  get_wait_time size bandwidth =
      c.float_trunc
        (c.float_mul (c.float_of 1000) (c.float_div (c.float_of size) (c.float_of bandwidth)))
      * 1000000

  -- Three goroutines sleep at once, each under its lock; on one lock the two local sleeps add up.
  unfoldable pub spin_wait : ℕ → ℕ → ℕ → ℕ → ℕ
  spin_wait from_lock to_lock local global =
      max (if from_lock == to_lock then local + local else local) global

module _ {c : Platform} (p : SystemParameters c) where
  unfoldable pub record_bandwidth : Party → Party → ObjectName → ℕ → Exec (World c) Unit
  unfolding get_lock get_wait_time spin_wait now sleep
  record_bandwidth from to object size = do
    connections ← gets (λ w. w.connections)
    let (from_lock, connections₁) = get_lock from connections
    let (to_lock, connections₂) = get_lock to connections₁
    modify (λ w. record w { connections = connections₂ })
    start ← now c
    sleep c (
        spin_wait c from_lock to_lock (get_wait_time c size p.bandwidth_local)
          (get_wait_time c size p.bandwidth_global))
    end ← now c
    modify (λ w. record w {
      network_log =
          w.network_log
          ++ record {
            from = from;
            to = to;
            object = object;
            size = size;
            start = start;
            end = end;
            global_bandwidth = p.bandwidth_global;
            local_bandwidth = p.bandwidth_local;
            id = w.network_event_id;
          }
            ∷ [];
      network_event_id = (w.network_event_id + 1) % 2 ^ 64;
    })
