-- ===== src/Distributed/User/Stale.antt =====
-- The epoch that a transaction carries.
use fabric_simulator.Prelude.{
  ℕ, ℤ, pos, negsuc, is_nat, ◌≡◌, ◌≢◌, ◌∙◌, refl, ap, Bool, true, false, some, List, arith,
  if◌then◌else◌,
}
use fabric_simulator.Platform.{Platform, Bytes}
use fabric_simulator.Exec.{Exec, ok, >>=-eq-ok, ◌>>=◌}
use fabric_simulator.Exec.Ensures.{Ensures-bind, Ensures-any, Ensures-pure, Ensures-if}
use fabric_simulator.Params.{SystemParameters}
use fabric_simulator.Distributed.Wire.{Wire}
use fabric_simulator.Distributed.Wire.Laws.{Faithful}
use fabric_simulator.Distributed.Types.{
  TransactionProposal, Endorsement, Transaction, RpcPeer, User, World,
}
use fabric_simulator.Distributed.Rpc.{revocation_server, serve, make_rpc_call, make_rpc_call_sync}
use fabric_simulator.Distributed.Revocation.{get_epoch}
use fabric_simulator.Distributed.Peer.{validate}
use fabric_simulator.Distributed.Peer.Validation.{well_formed, validate_rpc_iff}
use fabric_simulator.Distributed.User.{update_nrh, prove_non_revocation, build_transaction}

module _ {S A : Type 0} where
  then_runs :
      (b : Bool) (m l : Exec S A) (s s' : S) (a : A)
      → b ≡ true
      → (if b then m else l) s ≡ (ok a, s')
      → m s ≡ (ok a, s')
  then_runs true m l s s' a on e = e
  then_runs false m l s s' a on e = cc

is_nat-eq : (z : ℤ) (n : ℕ) → is_nat z n ≡ true → z ≡ pos n
is_nat-eq (pos m) n h = ground arith
is_nat-eq (negsuc m) n h = cc

module _ {c : Platform} (wire : Wire c) (p : SystemParameters c) where
  read_epoch :
      (w w' : World c) (n : ℕ)
      → make_rpc_call_sync revocation_server 0 get_epoch w ≡ (ok n, w')
      → n ≡ w.epoch
  unfolding make_rpc_call_sync make_rpc_call serve get_epoch ◌>>=◌
  read_epoch w w' n e = ground arith

  update_nrh-epoch :
      (late : ℕ) (user user' : User c) (w w' : World c)
      → update_nrh wire p late user w ≡ (ok user', w')
      → user'.epoch ≡ pos w.epoch
  unfolding update_nrh
  update_nrh-epoch late user user' w w' e =
      let (n, w₁, read, rest) = >>=-eq-ok _ _ w e in
      (Ensures-if (λ (u : User c). u.epoch ≡ pos n) (is_nat user.epoch n) _ _
          (λ same. Ensures-pure _ user (is_nat-eq user.epoch n same))
          (λ behind. Ensures-bind _ (Ensures-any _) λ _ _. Ensures-bind _ (Ensures-any _) λ _ _.
            Ensures-bind _ (Ensures-any _)
              λ _ _. Ensures-bind _ (Ensures-any _) λ _ _. Ensures-pure _ _ refl)).at
        w₁ w' user' rest
      ∙ ap pos (read_epoch w w₁ n read)

  -- The proof is for the epoch of the user that comes back.
  abbrev pub ProvesEpoch : ℕ → c.Sk → Bytes → Type 0
  ProvesEpoch epoch sk_nym bytes =
      (prg : c.Rand) × (handle : c.GrothSignature) × (sk : c.Sk) × (bytes
        ≡ wire.revocation_proof_to_bytes
            (c.revocation_prove prg handle sk sk_nym epoch p.h p.ys.0).0)

  prove_non_revocation-ProvesEpoch :
      (prg : c.Rand) (late : ℕ) (user : User c) (sk_nym : c.Sk) (w w' : World c)
      (r : User c × Bytes × c.Rand)
      → p.revoke ≡ true
      → prove_non_revocation wire p prg late user sk_nym w ≡ (ok r, w')
      → ProvesEpoch (wire.big_of_int (pos w.epoch)) sk_nym r.1
  unfolding prove_non_revocation
  prove_non_revocation-ProvesEpoch prg late user sk_nym w w' r on e =
      let (user', w₁, updated, rest) = >>=-eq-ok _ _ w (then_runs p.revoke _ _ w w' r on e) in
      (Ensures-bind _ (Ensures-any _) λ handle _.
          Ensures-pure
            (λ (r : User c × Bytes × c.Rand).
              ProvesEpoch (wire.big_of_int (pos w.epoch)) sk_nym r.1)
            _
            (
              prg,
              handle,
              user'.creds.sk,
              ap
                  (λ z.
                    wire.revocation_proof_to_bytes
                      (c.revocation_prove prg handle user'.creds.sk sk_nym (wire.big_of_int z) p.h
                        p.ys.0).0)
                  (update_nrh-epoch late user user' w w₁ updated),
            )).at
        w₁ w' r rest

  build_transaction-ProvesEpoch :
      (prg : c.Rand) (late : ℕ) (user user' : User c) (proposal : TransactionProposal)
      (pk_nym : c.Pk) (sk_nym : c.Sk) (endorsements : List Endorsement) (tx : Transaction)
      (w w' : World c)
      → p.revoke ≡ true
      → build_transaction wire p prg late user proposal pk_nym sk_nym endorsements w
        ≡ (ok (user', tx), w')
      → (tx.epoch ≡ user.epoch)
        × ProvesEpoch (wire.big_of_int (pos w.epoch)) sk_nym tx.non_revocation_proof
  unfolding build_transaction
  build_transaction-ProvesEpoch prg late user user' proposal pk_nym sk_nym endorsements tx w w' on
        e =
      let (r, w₁, proved, rest) = >>=-eq-ok _ _ w e in
      (Ensures-bind _ (Ensures-any _) λ a _.
          Ensures-pure
            (λ (u : User c × Transaction).
              (u.1.epoch ≡ user.epoch)
              × ProvesEpoch (wire.big_of_int (pos w.epoch)) sk_nym u.1.non_revocation_proof)
            _ (refl, prove_non_revocation-ProvesEpoch _ late user sk_nym w w₁ r on proved)).at
        w₁ w' (user', tx) rest

  -- Proofs that are made for the one epoch, with the secret key of the pseudonym, do not verify for the
  -- other under these keys.
  abbrev pub BoundTo : ℕ → ℕ → c.Sk → c.Pk → c.Pk → Type 0
  BoundTo epoch other sk_nym pk_nym authority_pk =
      (prg : c.Rand) (handle : c.GrothSignature) (sk : c.Sk)
      → epoch ≢ other
      → c.revocation_verify (c.revocation_prove prg handle sk sk_nym epoch p.h p.ys.0).0 pk_nym
          other p.h authority_pk p.ys.1
        ≡ false

  -- If epochs are in use and the user's epoch is not the current one, then the transaction that the
  -- user builds carries the user's old epoch and a proof for the current one; and no peer accepts it
  -- for whose key of the authority such a proof does not verify in the old epoch.
  pub build_transaction_stale :
      Faithful wire
      → p.revoke ≡ true
      → (prg : c.Rand) (late : ℕ) (user user' : User c) (proposal : TransactionProposal)
        (pk_nym : c.Pk) (sk_nym : c.Sk) (endorsements : List Endorsement) (tx : Transaction)
        (w w' : World c)
      → wire.big_of_int (pos w.epoch) ≢ wire.big_of_int user.epoch
      → build_transaction wire p prg late user proposal pk_nym sk_nym endorsements w
        ≡ (ok (user', tx), w')
      → (self : Bytes) (me : RpcPeer c) (v : World c) → v.peers self ≡ some me
      → BoundTo
          (wire.big_of_int (pos w.epoch))
          (wire.big_of_int user.epoch)
          sk_nym
          (wire.point_from_bytes tx.proposal.pk_nym)
          me.revocation_pk
      → (tx.epoch ≡ user.epoch)
        × ProvesEpoch (wire.big_of_int (pos w.epoch)) sk_nym tx.non_revocation_proof
        × ((validate wire p self tx v).0 ≢ ok true)
  unfolding well_formed
  build_transaction_stale faithful on prg late user user' proposal pk_nym sk_nym endorsements tx w
        w' behind built self me v here bound =
      let (old, (prg₁, handle, sk, proof)) =
        build_transaction-ProvesEpoch prg late user user' proposal pk_nym sk_nym endorsements tx w
          w' on built in
      (
        old,
        (prg₁, handle, sk, proof),
        λ accepted. ground (
          arith,
          (validate_rpc_iff wire p self me tx v here).0 accepted,
          on,
          old,
          proof,
          faithful.revocation_proof
              (c.revocation_prove prg₁ handle sk sk_nym (wire.big_of_int (pos w.epoch)) p.h
                p.ys.0).0,
          bound prg₁ handle sk behind,
        ),
      )
