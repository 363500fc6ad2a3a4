-- ===== src/Distributed/Roles.antt =====
-- distributed/distributed.go: which role a process takes, and what it does in it.
pub mod Auditor
use fabric_simulator.Prelude.{ℕ, Bool, Option, some, List, ltb, if◌then◌else◌}
use fabric_simulator.Platform.{Platform, Bytes}
use fabric_simulator.Exec.{Exec, call_failed, pure, modify, require, ◌>>=◌, ◌>>◌, for_each, collect}
use fabric_simulator.Params.{SystemParameters}
use fabric_simulator.Distributed.Wire.{Wire}
use fabric_simulator.Distributed.Types.{RpcRoot, RpcOrganization, RpcRevocation, RpcPeer, World}
use fabric_simulator.Distributed.Rpc.{fresh_rand, set_peer, root_server, peer_server, make_rpc_call}
use fabric_simulator.Distributed.Issuer.{get_nonce, make_rpc_root, make_rpc_organization}
use fabric_simulator.Distributed.Peer.{make_rpc_peer, audit}
use fabric_simulator.Distributed.Revocation.{make_rpc_revocation}
use fabric_simulator.Distributed.User.{make_user}

-- runRPCServer: from now on the methods of the entity can be called, at the address of its process.
pub data Entity (c : Platform) : Type 0 where
  root_entity : RpcRoot c → Entity c
  organization_entity : RpcOrganization c → Entity c
  peer_entity : RpcPeer c → Entity c
  revocation_entity : RpcRevocation c → Entity c

module _ {c : Platform} (address : Bytes) where
  unfoldable pub registered : Entity c → World c → World c
  registered (root_entity root) w = record w { root = some root }
  registered (organization_entity organization) w = record w { organization = some organization }
  registered (peer_entity peer) w = record w { peers = set_peer address (some peer) w.peers }
  registered (revocation_entity revocation) w = record w { revocation = some revocation }

  unfoldable pub run_rpc_server : Entity c → Exec (World c) Unit
  run_rpc_server entity = modify (registered entity)

-- runCredentialGeneration: the nonce is only logged.
unfoldable pub run_credential_generation : (c : Platform) → Exec (World c) Unit
run_credential_generation c = do nonce ← make_rpc_call root_server (get_nonce c); pure tt

-- An answer to the auditor is no error.
unfoldable pub require_answer : {c : Platform} → Option Bool → Exec (World c) Unit
require_answer answer = do reply ← require call_failed answer; pure tt

module _ {c : Platform} (wire : Wire c) (p : SystemParameters c) where
  -- The auditor: all calls are made before the first answer is looked at.
  unfoldable pub run_auditor : Exec (World c) Unit
  run_auditor = do
    answers ←
        collect p.peer_rpc_addresses (λ peer. make_rpc_call (peer_server peer) (audit wire p peer))
    for_each answers require_answer

-- `show` is the decimal formatting of the standard library, `address` where the process listens, and
-- `turns` the pauses of a user and the ticks of the authority's timer between its calls.
module _ {c : Platform} (wire : Wire c) (p : SystemParameters c) (show : ℕ → Bytes)
    (address : Bytes) (turns : List (ℕ × ℕ)) where
  -- Simulate: the first role that is set is taken.
  unfoldable pub simulate : c.Sk → c.Sk → Bool → ℕ → ℕ → ℕ → Bool → Bool → Exec (World c) Unit
  simulate root_sk audit_sk root organization peer user revocation auditor = do
    prg ← fresh_rand c
    if root
        then run_rpc_server address (root_entity (make_rpc_root wire p show root_sk))
        else if ltb 0 organization
        then (do
          rpc_org ← make_rpc_organization wire p show prg organization
          run_rpc_server address (organization_entity rpc_org))
        else if ltb 0 peer
        then (do
          rpc_peer ← make_rpc_peer wire p peer audit_sk
          run_rpc_server address (peer_entity rpc_peer))
        else if ltb 0 user
        then make_user wire p show prg user turns >> pure tt
        else if revocation
        then (do
          rpc_revocation ← make_rpc_revocation wire p
          run_rpc_server address (revocation_entity rpc_revocation))
        else if auditor
        then run_auditor wire p
        else pure tt
