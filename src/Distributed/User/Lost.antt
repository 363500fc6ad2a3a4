-- ===== src/Distributed/User/Lost.antt =====
-- A transaction that is lost.
use fabric_simulator.Prelude.{ℕ, ◌≡◌, false, ◌++◌, none, some, get_elem?, arith}
use fabric_simulator.Platform.{Platform, Bytes}
use fabric_simulator.Exec.{ok, halt, bad_identity, ◌>>=◌}
use fabric_simulator.Helpers.{codes, sha3, peer_by_hash}
use fabric_simulator.Params.{SystemParameters}
use fabric_simulator.Distributed.Wire.{Wire}
use fabric_simulator.Distributed.Types.{Transaction, RpcPeer, World}
use fabric_simulator.Distributed.Rpc.{set_peer, serve, make_rpc_call, make_rpc_call_sync}
use fabric_simulator.Distributed.Peer.{order}
use fabric_simulator.Distributed.Peer.Validation.{identified, validate_identity_lem}
use fabric_simulator.Distributed.User.{send_transaction}

module _ {c : Platform} (wire : Wire c) (p : SystemParameters c) (address : Bytes) (me : RpcPeer c)
    (tx : Transaction) (w : World c) (here : w.peers address ≡ some me)
    (unknown : identified wire p me tx.proposal ≡ false) where
  order_refused : order wire p address tx w ≡ (halt bad_identity, w)
  unfolding order identified ◌>>=◌
  order_refused =
      ground (arith, here, unknown, validate_identity_lem wire p address me tx.proposal w here)

  -- If the orderer refuses the author's identity, its process ends, no other process hears of the
  -- transaction, and the user goes on as after a success.
  pub send_transaction_lost :
      (message : Bytes) (orderer : ℕ)
      → peer_by_hash (sha3 c (message ++ codes "-order")) p.peers ≡ some orderer
      → get_elem? p.peer_rpc_addresses orderer ≡ some address
      → send_transaction wire p message tx w
        ≡ (ok tt, record w { peers = set_peer address none w.peers })
  unfolding send_transaction make_rpc_call_sync make_rpc_call serve ◌>>=◌
  send_transaction_lost message orderer chosen at = ground (arith, here, chosen, at, order_refused)
