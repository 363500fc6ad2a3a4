-- ===== src/Simulator/Revocation.antt =====
-- simulator/revocation.go: the revocation authority, and requestNonRevocation of simulator/user.go,
-- its client.
pub mod Epochs
use fabric_simulator.Prelude.{ℕ, zero, suc, ◌+◌, ◌*◌, Bool, some, if◌then◌else◌}
use fabric_simulator.Platform.{Platform}
use fabric_simulator.Exec.{Exec, pure, gets, modify, acquire, ◌>>=◌, ◌>>◌}
use fabric_simulator.Params.{SystemParameters}
use fabric_simulator.Simulator.Counter.{non_revoke_grant}
use fabric_simulator.Simulator.Types.{
  Party, ObjectName, KeysHolder, User, NonRevocationRequest, NonRevocationHandle, Network, World,
}
use fabric_simulator.Simulator.Env.{fresh_rand, event}
use fabric_simulator.Simulator.Bandwidth.{certificate_size, record_bandwidth}

unfoldable pub request_size : ℕ
request_size = 1 + 2 * 32 + certificate_size

unfoldable pub handle_size : ℕ
handle_size = 3 * (1 + 2 * 32) + 4 * 32

module _ {c : Platform} (p : SystemParameters c) where
  unfoldable pub make_revocation_authority : Exec (World c) (KeysHolder c)
  make_revocation_authority = do
    prg ← fresh_rand c
    let (sk, pk) = c.groth_generate prg p.ys.1
    pure (record { pk = pk; sk = sk })

  -- `run`, when the timer of the epoch fires (the network is set by then).
  unfoldable pub tick : World c → World c
  tick w = if p.revoke then record w { epoch = w.epoch + 1 } else w

  unfoldable pub ticks : ℕ → World c → World c
  unfolding tick
  ticks zero w = w
  ticks (suc n) w = ticks n (tick w)

  unfoldable pub grant : Network c → NonRevocationRequest c → Exec (World c) (NonRevocationHandle c)
  grant net nrr = do
    prg ← fresh_rand c
    epoch ← gets (λ w. w.epoch)
    let handle = c.sign_non_revoke prg net.revocation_authority.sk nrr.user_pk epoch p.ys.1
    event c non_revoke_grant
    record_bandwidth p Party.revocation_authority (Party.user nrr.user_id)
        ObjectName.non_revocation_handle handle_size
    pure (record { handle = handle })

  -- `run`, on a request.
  unfoldable pub receive_request :
      Network c → NonRevocationRequest c → Exec (World c) (NonRevocationHandle c)
  receive_request net nrr = do
    record_bandwidth p (Party.user nrr.user_id) Party.revocation_authority
        ObjectName.non_revocation_request request_size
    acquire p.concurrent_revocations
    grant net nrr

  -- The literal of the request leaves out `userID`, which is then 0. `late` ticks of the epoch timer
  -- come before the authority takes the request.
  unfoldable pub request_non_revocation : Network c → ℕ → User c → Exec (World c) (User c)
  request_non_revocation net late user = do
    modify (ticks late)
    nrh ← receive_request net (record { user_pk = user.revocation_pk; user_id = 0 })
    pure (record user { non_revocation_handler = some nrh.handle })
