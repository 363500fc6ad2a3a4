-- ===== src/Simulator/User/Epoch.antt =====
-- What the check of the epoch leaves a user with.
use mathlib.Core.Bool.{not}
use fabric_simulator.Prelude.{
  ℕ, ◌+◌, ◌≡◌, refl, some, ◌&&◌, ◌==◌, ltb, if◌then◌else◌, arith, Bool-cases, inl, inr,
}
use fabric_simulator.Platform.{Platform}
use fabric_simulator.Exec.{Outcome, ok, halt, no_permit, pure, continue, ◌>>=◌}
use fabric_simulator.Helpers.{new_rand}
use fabric_simulator.Params.{SystemParameters}
use fabric_simulator.Simulator.Types.{
  User, NonRevocationRequest, NonRevocationHandle, Network, World,
}
use fabric_simulator.Simulator.Env.{now, sleep, fresh_rand, event}
use fabric_simulator.Simulator.Bandwidth.{record_bandwidth}
use fabric_simulator.Simulator.Revocation.{ticks, grant, receive_request, request_non_revocation}
use fabric_simulator.Simulator.Revocation.Epochs.{ticks_lem}
use fabric_simulator.Simulator.User.{update_epoch}

module _ {c : Platform} (p : SystemParameters c) (net : Network c) where
  -- What a request gives, by the limit of the authority's semaphore.
  answered : {A : Type 0} → A → Outcome A
  answered a = if ltb 0 p.concurrent_revocations then ok a else halt no_permit

  receive_request_lem :
      (nrr : NonRevocationRequest c) (w : World c)
      → (prg : c.Rand) × ((receive_request p net nrr w).0
          ≡ answered (record {
            handle = c.sign_non_revoke prg net.revocation_authority.sk nrr.user_pk w.epoch p.ys.1;
          }))
  unfolding receive_request grant record_bandwidth now sleep fresh_rand event answered ◌>>=◌
  receive_request_lem nrr w = elim (Bool-cases (ltb 0 p.concurrent_revocations)) [
    | inl e ↦ rw e (_, refl)
    | inr e ↦ rw e (new_rand c 0, refl)
  ]

  with_handle : User c → NonRevocationHandle c → User c
  with_handle user nrh = record user { non_revocation_handler = some nrh.handle }

  continue_lem :
      (user : User c) (r : Outcome (NonRevocationHandle c) × World c) (nrh : NonRevocationHandle c)
      → r.0 ≡ answered nrh
      → (continue r.0
          (λ nrh. pure (record user { non_revocation_handler = some nrh.handle }))
          r.1).0
        ≡ answered (with_handle user nrh)
  unfolding with_handle answered pure
  continue_lem user (ok x, w) nrh e = ground (arith, e)
  continue_lem user (halt f, w) nrh e = ground (arith, e)

  request_non_revocation_lem :
      (late : ℕ) (user : User c) (w : World c)
      → (prg : c.Rand) × ((request_non_revocation p net late user w).0
          ≡ answered (record user {
            non_revocation_handler = some (
                c.sign_non_revoke prg net.revocation_authority.sk user.revocation_pk
                  (ticks p late w).epoch
                  p.ys.1);
          }))
  unfolding request_non_revocation with_handle ◌>>=◌
  request_non_revocation_lem late user w =
      let (prg, e) =
        receive_request_lem (record { user_pk = user.revocation_pk; user_id = 0 })
          (ticks p late w) in
      (
        prg,
        continue_lem user
            (receive_request p net (record { user_pk = user.revocation_pk; user_id = 0 })
              (ticks p late w))
            _ e,
      )

  -- What the check of the epoch gives. A user who is behind takes the epoch it read, but the handle is
  -- signed for the epoch of the grant, which is `late` further on; if the limit of concurrent
  -- revocations is 0, it waits for ever. A user who is not behind, and any user when nothing is
  -- revoked, is left alone.
  pub update_epoch_lem :
      (late : ℕ) (user : User c) (w : World c)
      → (prg : c.Rand) × ((update_epoch p net late user w).0 ≡ (
          if p.revoke && not (user.epoch == w.epoch)
          then (if ltb 0 p.concurrent_revocations
              then ok (record user {
                epoch = w.epoch;
                non_revocation_handler = some (
                    c.sign_non_revoke prg net.revocation_authority.sk user.revocation_pk
                      (w.epoch + late)
                      p.ys.1);
              })
              else halt no_permit)
          else ok user))
  unfolding update_epoch answered ◌>>=◌
  update_epoch_lem late user w =
      let (prg, e) = request_non_revocation_lem late (record user { epoch = w.epoch }) w in
      (prg, ground (arith, e, ticks_lem p late w))
