-- ===== src/Simulator/Costs/Transaction.antt =====
-- The crypto events that one transaction records, all parties together.
use fabric_simulator.Prelude.{
  ℕ, suc, ◌+◌, ◌*◌, ◌≡◌, ◌≢◌, refl, ap, sym, ◌∙◌, Bool, List, [], ◌∷◌, length, arith, if◌then◌else◌,
}
use fabric_simulator.Platform.{Platform, Bytes}
use fabric_simulator.Exec.{Exec, ok, pure, collect, >>=-eq-ok}
use fabric_simulator.Params.{SystemParameters}
use fabric_simulator.Simulator.Counter.{
  CryptoEvent, CryptoEvent-discrete, cred_prove, cred_verify, non_revoke_grant, non_revoke_prove,
  non_revoke_verify, audit_encrypt, audit_prove, audit_verify, sha3hash, sign_nym, verify_nym,
  sign_schnorr, verify_schnorr,
}
use fabric_simulator.Simulator.Counter.Counts.{hit, count}
use fabric_simulator.Simulator.Types.{
  User, TransactionProposal, Endorsement, Transaction, Network, World,
}
use fabric_simulator.Simulator.Costs.{
  Costs, Costs-eq, Costs-modify, Costs-pure, Costs-gets, Costs-require, Costs-if, Costs-event,
  Costs-now, Costs-fresh_rand, Costs-record_bandwidth, Costs-bind, Costs-bind_of, Costs-for_each,
  Costs-collect, Costs-check,
}
use fabric_simulator.Simulator.Costs.Handlers.{
  hit_ne, same_zero, one_endorsement_cost, order_cost, proposal_cost,
  make_transaction_proposal-Costs, check_endorsement-Costs, receive_endorsement-Costs,
  receive_ordering-Costs,
}
use fabric_simulator.Simulator.Revocation.{ticks, grant, receive_request, request_non_revocation}
use fabric_simulator.Simulator.Revocation.Epochs.{ticks_lem}
use fabric_simulator.Simulator.User.{
  select_endorsers, send_proposal, accept_endorsement, update_epoch, prove_non_revocation,
  prove_auditing, build_transaction, send_transaction, record_transaction, submit_transaction,
}
use fabric_simulator.Simulator.User.Endorsers.{length-select_endorsers}

same_length :
    {S B : Type 0} (xs : List B) (s : S) {ys : List B} {s' : S}
    → pure xs s ≡ (ok ys, s')
    → length xs ≡ length ys
unfolding pure
same_length xs s h = ground arith

-- As many results as there were turns.
length-collect :
    {S A B : Type 0} (xs : List A) (f : A → Exec S B) (s : S) {ys : List B} {s' : S}
    → collect xs f s ≡ (ok ys, s')
    → length ys ≡ length xs
unfolding collect
length-collect [] f s h = sym (same_length [] s h)
length-collect (x ∷ xs) f s h =
    let (y, s₁, _, rest) = >>=-eq-ok (f x) _ s h in
    let (ys, s₂, more, last) = >>=-eq-ok (collect xs f) _ s₁ rest in
    sym (same_length (y ∷ ys) s₂ last) ∙ ap suc (length-collect xs f s₁ more)

flag : Bool → ℕ → ℕ
flag b n = if b then n else 0

-- The sum over the parts of a transaction.
total : ℕ → ℕ → Bool → Bool → CryptoEvent → ℕ
total endorsements peers audit revoke e =
    2 * hit sha3hash e
    + proposal_cost e
    + endorsements * one_endorsement_cost e
    + endorsements * hit verify_schnorr e
    + (hit sign_nym e
        + flag revoke (hit non_revoke_prove e)
        + flag audit (hit audit_encrypt e + hit audit_prove e))
    + (hit sha3hash e + order_cost peers audit revoke e)

module _ {c : Platform} (p : SystemParameters c) (net : Network c) (e : CryptoEvent) where
  update_epoch-Costs :
      e ≢ non_revoke_grant → (late : ℕ) (user : User c) → Costs e 0 (update_epoch p net late user)
  unfolding update_epoch request_non_revocation receive_request grant
  update_epoch-Costs fixed late user = Costs-bind e (Costs-gets e _) λ epoch.
      Costs-eq e (same_zero _) (
        Costs-if e _
          (Costs-eq e (omega (arith, hit_ne non_revoke_grant e fixed)) (
            Costs-bind e (Costs-modify e (ticks p late) (λ w. rw (ticks_lem p late w))) λ _.
              Costs-bind e
                (Costs-bind e (Costs-record_bandwidth e _ _ _ _ _) λ _.
                  Costs-bind e (Costs-check e _ _) λ _. Costs-bind e (Costs-fresh_rand e) λ _.
                    Costs-bind e (Costs-gets e _) λ _.
                      Costs-bind e (Costs-event e _)
                        λ _. Costs-bind e (Costs-record_bandwidth e _ _ _ _ _) λ _. Costs-pure e _)
                λ _. Costs-pure e _))
          (Costs-pure e _))

  build_transaction-Costs :
      e ≢ non_revoke_grant
      → (prg : c.Rand) (late : ℕ) (user : User c) (proposal : TransactionProposal c) (pk_nym : c.Pk)
        (sk_nym : c.Sk) (endorsements : List (Endorsement c))
      → Costs e
          (hit sign_nym e
            + flag p.revoke (hit non_revoke_prove e)
            + flag p.audit (hit audit_encrypt e + hit audit_prove e))
          (build_transaction p net prg late user proposal pk_nym sk_nym endorsements)
  unfolding build_transaction prove_non_revocation prove_auditing flag
  build_transaction-Costs fixed prg late user proposal pk_nym sk_nym endorsements =
      Costs-eq e (ground arith) (
        Costs-bind e (update_epoch-Costs fixed late user) λ user'.
          Costs-bind e (Costs-event e _) λ _.
            Costs-bind e
              (Costs-if e p.revoke
                (Costs-bind e (Costs-require e _ _)
                  λ _. Costs-bind e (Costs-event e _) λ _. Costs-pure e _)
                (Costs-pure e _))
              λ _.
                Costs-bind e
                  (Costs-if e p.audit
                    (Costs-bind e (Costs-fresh_rand e) λ _.
                      Costs-bind e (Costs-event e _)
                        λ _. Costs-bind e (Costs-event e _) λ _. Costs-pure e _)
                    (Costs-pure e _))
                  λ _. Costs-pure e _)

  send_transaction-Costs :
      e ≢ cred_verify
      → (message : Bytes) (tx : Transaction c)
      → Costs e
          (hit sha3hash e + order_cost (length net.peers) p.audit p.revoke e)
          (send_transaction p net message tx)
  unfolding send_transaction
  send_transaction-Costs fixed message tx = Costs-eq e (omega arith) (
      Costs-bind e (Costs-require e _ _) λ _. Costs-bind e (Costs-event e _) λ _.
        Costs-bind e (Costs-require e _ _) λ peer. receive_ordering-Costs p e fixed net peer tx)

  send_proposal-Costs :
      e ≢ cred_verify
      → (proposal : TransactionProposal c) (endorser : ℕ)
      → Costs e (one_endorsement_cost e) (send_proposal p net proposal endorser)
  unfolding send_proposal
  send_proposal-Costs fixed proposal endorser =
      Costs-eq e (omega arith) (
        Costs-bind e (Costs-require e _ _)
          λ peer. receive_endorsement-Costs p e fixed peer proposal)

  accept_endorsement-Costs :
      (schnorr : c.Schnorr) (message : Bytes) (x : Endorsement c)
      → Costs e (hit verify_schnorr e) (accept_endorsement p net schnorr message x)
  unfolding accept_endorsement
  accept_endorsement-Costs schnorr message x =
      Costs-eq e (omega arith)
        (Costs-bind e (check_endorsement-Costs p e _ _ _ _) λ _. Costs-event e _)

  record_transaction-Costs : (tx : Transaction c) → Costs e 0 (record_transaction p net tx)
  unfolding record_transaction
  record_transaction-Costs tx = Costs-modify e _ (λ w. refl)

  submit_transaction-Costs :
      e ≢ cred_verify
      → e ≢ non_revoke_grant
      → (message : Bytes) (late : ℕ) (user : User c)
      → Costs e
          (total p.endorsements (length net.peers) p.audit p.revoke e)
          (submit_transaction p net message late user)
  unfolding submit_transaction total
  submit_transaction-Costs fixed fixed' message late user = Costs-eq e (omega arith) (
      Costs-bind e (Costs-now e) λ _. Costs-bind e (Costs-fresh_rand e) λ prg.
        Costs-bind e (Costs-event e _) λ _. Costs-bind e (Costs-require e _ _) λ endorser.
          Costs-bind e (Costs-event e _) λ _.
            Costs-bind e (make_transaction_proposal-Costs p e _ _) λ t.
              Costs-bind e (Costs-now e) λ _.
                Costs-bind_of e
                  (collect (select_endorsers endorser p.peers p.endorsements)
                    (send_proposal p net t.0))
                  _
                  (Costs-eq e
                    (ap (λ n. n * one_endorsement_cost e)
                      (length-select_endorsers endorser p.peers p.endorsements))
                    (Costs-collect e _ _ _ (send_proposal-Costs fixed t.0)))
                  λ w ys got.
                    Costs-bind e
                      (Costs-eq e
                        (ap (λ n. n * hit verify_schnorr e)
                          (length-collect _ _ w (λ i. (
                            got i,
                            (collect (select_endorsers endorser p.peers p.endorsements)
                                (send_proposal p net t.0) w).1,
                          ))
                            ∙ length-select_endorsers endorser p.peers p.endorsements))
                        (Costs-for_each e ys _ _ (accept_endorsement-Costs _ _)))
                      λ _. Costs-bind e (Costs-now e) λ _.
                        Costs-bind e (build_transaction-Costs fixed' _ late user _ _ _ _) λ u.
                          Costs-bind e (Costs-now e) λ _.
                            Costs-bind e (send_transaction-Costs fixed _ _) λ _.
                              Costs-bind e (Costs-now e) λ _. Costs-bind e (Costs-now e) λ _.
                                Costs-bind e (Costs-modify e _ (λ w. refl)) λ _.
                                  Costs-bind e (record_transaction-Costs _) λ _. Costs-pure e _)

-- What a transaction should record: an independent table.
pub transaction_cost : ℕ → ℕ → Bool → Bool → CryptoEvent → ℕ
transaction_cost endorsements peers audit revoke sha3hash = 4 + 2 * endorsements + peers
transaction_cost endorsements peers audit revoke cred_prove = 1
transaction_cost endorsements peers audit revoke sign_nym = 2
transaction_cost endorsements peers audit revoke verify_nym = endorsements + peers
transaction_cost endorsements peers audit revoke sign_schnorr = endorsements
transaction_cost endorsements peers audit revoke verify_schnorr = endorsements + peers
transaction_cost endorsements peers audit revoke audit_encrypt = if audit then 1 else 0
transaction_cost endorsements peers audit revoke audit_prove = if audit then 1 else 0
transaction_cost endorsements peers audit revoke audit_verify = if audit then peers else 0
transaction_cost endorsements peers audit revoke non_revoke_prove = if revoke then 1 else 0
transaction_cost endorsements peers audit revoke non_revoke_verify = if revoke then peers else 0
transaction_cost endorsements peers audit revoke _ = 0

total-eq-table :
    (E P : ℕ) (a r : Bool) (e : CryptoEvent)
    → e ≢ cred_verify
    → e ≢ non_revoke_grant
    → total E P a r e ≡ transaction_cost E P a r e
unfolding total transaction_cost proposal_cost one_endorsement_cost order_cost flag
    CryptoEvent-discrete
total-eq-table E P a r sha3hash h g = ground arith
total-eq-table E P a r cred_verify h g = absurd (h refl)
total-eq-table E P a r non_revoke_grant h g = absurd (g refl)
total-eq-table E P a r _ h g = ground arith

module _ {c : Platform} (p : SystemParameters c) (net : Network c) where
  -- A transaction that completes adds to the table exactly what the specification lists, for every
  -- event but two: verified credentials depend on the caches, granted handles on the epoch.
  pub count-submit_transaction :
      (e : CryptoEvent)
      → e ≢ cred_verify
      → e ≢ non_revoke_grant
      → (message : Bytes) (late : ℕ) (user user' : User c) (w : World c)
      → (submit_transaction p net message late user w).0 ≡ ok user'
      → count e (submit_transaction p net message late user w).1.crypto_events
        ≡ count e w.crypto_events
          + transaction_cost p.endorsements (length net.peers) p.audit p.revoke e
  count-submit_transaction e h g message late user user' w done =
      (submit_transaction-Costs p net e h g message late user).at w user' done
      ∙ ap (λ n. count e w.crypto_events + n)
          (total-eq-table p.endorsements (length net.peers) p.audit p.revoke e h g)
