-- ===== src/Distributed/Rpc.antt =====
-- makeRPCCall and makeRPCCallSync of distributed/distributed.go. A handler that ends its process, by
-- a panic or logger.Fatal, is a handler that halts: the process is gone, and the call has an error.
use fabric_simulator.Prelude.{ℕ, ◌+◌, Bool, true, false, Option, none, some, if◌then◌else◌}
use fabric_simulator.Platform.{Platform, Bytes}
use fabric_simulator.Exec.{
  Outcome, ok, halt, Exec, no_connection, not_running, pure, gets, modify, check, require, ◌>>=◌,
  ◌>>◌,
}
use fabric_simulator.Helpers
use fabric_simulator.Simulator.Peer.{bytes_equal}
use fabric_simulator.Distributed.Types.{RpcPeer, World}

module _ (c : Platform) where
  -- time.Now(): never earlier than the reading before.
  unfoldable pub clock_after : World c → ℕ
  clock_after w = w.clock + c.lapse w.clock_reads

  unfoldable pub now : Exec (World c) ℕ
  unfolding clock_after
  now w = (ok (clock_after w), record w { clock = clock_after w; clock_reads = w.clock_reads + 1 })

  unfoldable pub sleep : ℕ → Exec (World c) Unit
  sleep nanoseconds = modify (λ w. record w { clock = w.clock + nanoseconds })

  unfoldable pub fresh_rand : Exec (World c) c.Rand
  unfolding now
  fresh_rand = do nanoseconds ← now; pure (Helpers.new_rand c nanoseconds)

-- A process that can be called: whether it runs, and the world in which it has ended.
pub record Server (c : Platform) : Type 0 where
  pub is_up : World c → Bool
  pub ended : World c → World c

abbrev pub runs {ℓ} : {A : Type ℓ} → Option A → Bool
runs none = false
runs (some a) = true

abbrev pub or_zero {ℓ} : {A : Type ℓ} → A → Option A → A
or_zero zero_value none = zero_value
or_zero zero_value (some reply) = reply

module _ {c : Platform} where
  -- The peers after the one at `address` is replaced.
  unfoldable pub set_peer :
      Bytes → Option (RpcPeer c) → (Bytes → Option (RpcPeer c)) → Bytes → Option (RpcPeer c)
  set_peer address peer peers a = if bytes_equal a address then peer else peers a

  abbrev pub root_server : Server c
  root_server = record { is_up = λ w. runs w.root; ended = λ w. record w { root = none } }

  abbrev pub organization_server : Server c
  organization_server = record {
    is_up = λ w. runs w.organization;
    ended = λ w. record w { organization = none };
  }

  abbrev pub revocation_server : Server c
  revocation_server = record {
    is_up = λ w. runs w.revocation;
    ended = λ w. record w { revocation = none };
  }

  abbrev pub peer_server : Bytes → Server c
  peer_server address = record {
    is_up = λ w. runs (w.peers address);
    ended = λ w. record w { peers = set_peer address none w.peers };
  }

  -- `*peer` in a method of the peer at `address`, and an assignment to it.
  unfoldable pub receiver : Bytes → Exec (World c) (RpcPeer c)
  receiver address = do peer ← gets (λ w. w.peers address); require not_running peer

  unfoldable pub assign : Bytes → (RpcPeer c → RpcPeer c) → Exec (World c) Unit
  assign address f = do
    peer ← receiver address
    modify (λ w. record w { peers = set_peer address (some (f peer)) w.peers })

module _ {c : Platform} {A : Type 0} where
  abbrev pub answer : Server c → Outcome A × World c → Option A × World c
  answer server (ok reply, w) = (some reply, w)
  answer server (halt fault, w) = (none, server.ended w)

  -- What the caller gets of a handler: its reply, or `none` for the call's error.
  unfoldable pub serve : Server c → Exec (World c) A → Exec (World c) (Option A)
  serve server handler w = let (reply, w') = answer server (handler w) in (ok reply, w')

  unfoldable pub make_rpc_call : Server c → Exec (World c) A → Exec (World c) (Option A)
  make_rpc_call server handler = do
    up ← gets server.is_up
    check up no_connection
    serve server handler

  -- call.Error is not looked at: after an error the reply is the zero value that was passed in.
  unfoldable pub make_rpc_call_sync : Server c → A → Exec (World c) A → Exec (World c) A
  make_rpc_call_sync server zero_value handler = do
    reply ← make_rpc_call server handler
    pure (or_zero zero_value reply)
