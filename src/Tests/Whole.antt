-- ===== src/Tests/Whole.antt =====
-- The whole of simulator/ at a concrete input: one organization with two users.
use mathlib.Core.List.{Memᴰ}
use fabric_simulator.Prelude.{
  ℕ, zero, suc, ◌+◌, ◌≡◌, ◌<◌, refl, List, [], ◌∷◌, length, ==_iff, arith,
}
use fabric_simulator.Platform.{Bytes}
use fabric_simulator.Exec.{ok}
use fabric_simulator.Simulator.Types.{Network, World}
use fabric_simulator.Simulator.Honest.{HonestNetwork}
use fabric_simulator.Simulator.Network.{make_network}
use fabric_simulator.Simulator.Network.Enrolment.{Delegable}
use fabric_simulator.Simulator.Network.Stored.{AnyOrder}
use fabric_simulator.Simulator.Network.Made.{make_network_completes}
use fabric_simulator.Simulator.Simulation.{Turn}
use fabric_simulator.Simulator.Simulation.Members.{Members}
use fabric_simulator.Tests.Toy.{toy, parameters, start}

pub toy-Delegable : Delegable toy
toy-Delegable = record {
  credentials = λ x. refl;
  valid = λ prg sk nonce level. refl;
  from_root = λ prg prg' prg'' attributes ys.
      ((prg' + 1) ∷ (prg + 0) ∷ [], refl, (==_iff (prg' + 1) (prg' + 1)).1 refl);
  from_organization = λ held held_sk root ys holds prg prg' attributes.
      ((prg + 2) ∷ held, refl, (==_iff (prg + 2) (prg + 2)).1 refl);
}

abbrev no_digits : ℕ → Bytes
no_digits n = []

root_made : parameters.root_pk ≡ 4 + 0
root_made = omega arith

first_complete : (i : ℕ) → i < 1 → Memᴰ i (0 ∷ [])
first_complete zero h = Memᴰ.head refl
first_complete (suc i) h = absurd (omega arith)

one_organization : AnyOrder 1 (0 ∷ [])
one_organization = record {
  size = refl;
  small = (omega arith, tt);
  distinct = (tt, tt);
  complete = first_complete;
}

both_complete : (i : ℕ) → i < 2 → Memᴰ i (1 ∷ 0 ∷ [])
both_complete zero h = Memᴰ.tail (Memᴰ.head refl)
both_complete (suc zero) h = Memᴰ.head refl
both_complete (suc (suc i)) h = absurd (omega arith)

-- the second user is enrolled first
two_users : AnyOrder 2 (1 ∷ 0 ∷ [])
two_users = record {
  size = refl;
  small = (omega arith, (omega arith, tt));
  distinct = (((λ e. absurd (omega arith)), tt), (tt, tt));
  complete = both_complete;
}

abbrev turns : List Turn
turns =
    record { user = 1; ticks_before = 2; pause = 5; late = 0 }
    ∷ record { user = 0; ticks_before = 0; pause = 0; late = 0 }
    ∷ []

make_network_completes_example :
    (net : Network toy) × (w' : World toy) × (make_network parameters no_digits 6 4
        (0 ∷ [])
        (1 ∷ 0 ∷ [])
        start
      ≡ (ok net, w'))
    × (HonestNetwork parameters net × Members parameters 0 net.users × (length net.users ≡ 2))
    × (w'.epoch ≡ 1)
    × (w'.transactions ≡ [])
make_network_completes_example =
    make_network_completes parameters no_digits toy-Delegable (omega arith) (omega arith) 4
      root_made 6 (0 ∷ []) (1 ∷ 0 ∷ []) one_organization two_users start
