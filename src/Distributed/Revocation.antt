-- ===== src/Distributed/Revocation.antt =====
-- distributed/revocation.go: the revocation authority's process.
use fabric_simulator.Prelude.{ℕ, zero, suc, ◌+◌}
use fabric_simulator.Platform.{Platform, Bytes}
use fabric_simulator.Exec.{Exec, not_running, pure, gets, require, ◌>>=◌}
use fabric_simulator.Params.{SystemParameters}
use fabric_simulator.Distributed.Wire.{Wire}
use fabric_simulator.Distributed.Types.{
  NonRevocationRequest, NonRevocationHandle, RpcRevocation, World,
}
use fabric_simulator.Distributed.Rpc.{fresh_rand}

module _ {c : Platform} where
  -- The timer of the authority's process. It runs whether or not revocation is in use.
  unfoldable pub tick : World c → World c
  tick w = record w { epoch = w.epoch + 1 }

  unfoldable pub ticks : ℕ → World c → World c
  unfolding tick
  ticks zero w = w
  ticks (suc n) w = ticks n (tick w)

  unfoldable pub receiver : Exec (World c) (RpcRevocation c)
  receiver = do authority ← gets (λ w. w.revocation); require not_running authority

  unfoldable pub get_epoch : Exec (World c) ℕ
  get_epoch = gets (λ w. w.epoch)

module _ {c : Platform} (wire : Wire c) where
  unfoldable pub get_pk : Exec (World c) Bytes
  get_pk = do authority ← receiver; pure (wire.point_to_bytes authority.pk)

  module _ (p : SystemParameters c) where
    unfoldable pub make_rpc_revocation : Exec (World c) (RpcRevocation c)
    make_rpc_revocation = do
      prg ← fresh_rand c
      let (sk, pk) = c.groth_generate prg p.ys.1
      pure (record { keys = record { pk = pk; sk = sk } })

    unfoldable pub process_nrr : NonRevocationRequest → Exec (World c) NonRevocationHandle
    process_nrr nrr = do
      prg ← fresh_rand c
      authority ← receiver
      epoch ← gets (λ w. w.epoch)
      let handle = c.sign_non_revoke prg authority.sk (wire.point_from_bytes nrr.pk) epoch p.ys.1
      pure (record { handle = wire.groth_to_bytes handle })
