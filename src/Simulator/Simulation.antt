-- ===== src/Simulator/Simulation.antt =====
-- simulator/simulator.go: the run of the users and the audit after it. The goroutines of the users
-- take turns: a turn is one transaction of one user, and the schedule, of which nothing is known, lists
-- the turns in the order in which they are taken.
pub mod Members
pub mod Run
pub mod Whole
pub mod Audit
use fabric_simulator.Prelude.{ℕ, ◌+◌, Option, List, get_elem?, if◌then◌else◌}
use fabric_simulator.Platform.{Platform, Bytes}
use fabric_simulator.Exec.{
  Exec, audit_failed, index_out_of_range, nil_dereference, pure, gets, modify, check, require, when,
  ◌>>=◌, ◌>>◌, for_each, collect,
}
use fabric_simulator.Helpers.{random_string}
use fabric_simulator.Params.{SystemParameters}
use fabric_simulator.Simulator.Counter.{audit_decrypt}
use fabric_simulator.Simulator.Types.{Transaction, Network, World}
use fabric_simulator.Simulator.Env.{now, sleep, fresh_rand, event}
use fabric_simulator.Simulator.Revocation.{ticks, request_non_revocation}
use fabric_simulator.Simulator.User.{submit_transaction}
use fabric_simulator.Simulator.Network.{make_network}

-- The user whose turn it is, the ticks of the epoch timer before the turn, the nanoseconds of its
-- random sleep, and the ticks between its look at the epoch and the grant.
pub record Turn : Type 0 where
  pub user : ℕ
  pub ticks_before : ℕ
  pub pause : ℕ
  pub late : ℕ

module _ {c : Platform} (p : SystemParameters c) where
  -- The users get their first handles before they start; their `epoch` stays as it was.
  unfoldable pub request_handles : Network c → Exec (World c) (Network c)
  request_handles net =
      if p.revoke
      then (do
        users ← collect net.users (request_non_revocation p net 0)
        pure (record net { users = users }))
      else pure net

  -- `userObj` is a copy of the array's element: the user that the transaction leaves is dropped.
  unfoldable pub submit_random : Network c → Turn → Exec (World c) Unit
  submit_random net turn = do
    user ← require index_out_of_range (get_elem? net.users turn.user)
    sleep c turn.pause
    prg ← fresh_rand c
    submit_transaction p net (random_string c 16 prg).0 turn.late user >> pure tt

  unfoldable pub take_turn : Network c → Turn → Exec (World c) Unit
  take_turn net turn = do modify (ticks p turn.ticks_before); submit_random net turn

  -- The network with the users' first handles comes back.
  unfoldable pub run_users : Network c → List Turn → Exec (World c) (Network c)
  run_users net turns = do net' ← request_handles net; for_each turns (take_turn net'); pure net'

module _ {c : Platform} (net : Network c) where
  -- one turn of the audit's loop
  unfoldable pub audit_transaction : Transaction c → Exec (World c) Unit
  audit_transaction tx = do
    enc ← require nil_dereference tx.audit_enc
    event c audit_decrypt
    author ← require index_out_of_range (get_elem? net.users tx.proposal.author_id)
    check (c.pk_equal (c.auditing_decrypt enc net.auditor.sk) author.pk) audit_failed

  unfoldable pub audit : Exec (World c) Unit
  audit = do transactions ← gets (λ w. w.transactions); for_each transactions audit_transaction

module _ {c : Platform} (p : SystemParameters c) where
  unfoldable pub simulate : Network c → List Turn → Exec (World c) Unit
  simulate net turns = do net' ← run_users p net turns; when p.audit (audit net')

  -- Simulate as a whole. The orders are those in which the goroutines of the organizations and of the
  -- users finish in MakeNetwork.
  unfoldable pub run_simulation :
      (ℕ → Bytes) → c.Sk → List ℕ → List ℕ → List Turn → Exec (World c) Unit
  run_simulation show root_sk org_order user_order turns = do
    now c
    prg ← fresh_rand c
    net ← make_network p show prg root_sk org_order user_order
    simulate net turns
    now c
    pure tt
