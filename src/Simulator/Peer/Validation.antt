-- ===== src/Simulator/Peer/Validation.antt =====
-- When a peer accepts a transaction.
use mathlib.Core.Bool.{not}
use fabric_simulator.Prelude.{
  ℕ, ◌+◌, ◌≡◌, ◌↔◌, refl, Bool, true, false, ◌&&◌, ◌||◌, Option, none, some, List, [], ◌∷◌, length,
  get_elem?, arith, leb,
}
use fabric_simulator.Platform.{Platform, Bytes}
use fabric_simulator.Exec.{ok, ◌>>=◌, for_each}
use fabric_simulator.Helpers.{new_rand}
use fabric_simulator.Params.{SystemParameters}
use fabric_simulator.Simulator.Counter.{verify_nym, verify_schnorr, record_crypto_event}
use fabric_simulator.Simulator.Types.{
  Operation, verification, Peer, Endorsement, Transaction, Network, World,
}
use fabric_simulator.Simulator.Env.{clock_after, now, sleep, fresh_rand, event}
use fabric_simulator.Simulator.Proposal.{get_message}
use fabric_simulator.Simulator.Peer.{
  is_cached, check_endorsement, validate_identity, execute_chaincode, validate,
}
use fabric_simulator.Simulator.Peer.Identity.{key_of, verifies}

-- An optional proof is there and holds.
unfoldable pub holds : {A : Type 0} → Option A → (A → Bool) → Bool
holds none check = false
holds (some a) check = check a

module _ {c : Platform} where
  -- The endorser is a peer, and the signature is that peer's over the message.
  unfoldable pub valid_endorsement : List (Peer c) → c.Schnorr → Bytes → Endorsement c → Bool
  valid_endorsement peers schnorr message x = elim (get_elem? peers x.endorser) [
    | none ↦ false
    | some endorser ↦ c.schnorr_verify schnorr endorser.pk x.signature message
  ]

  unfoldable pub all_valid : List (Peer c) → c.Schnorr → Bytes → List (Endorsement c) → Bool
  unfolding valid_endorsement
  all_valid peers schnorr message [] = true
  all_valid peers schnorr message (x ∷ xs) =
      valid_endorsement peers schnorr message x && all_valid peers schnorr message xs

module _ {c : Platform} (p : SystemParameters c) where
  -- What a valid transaction is, from the parts of the transaction and the peer's cache.
  unfoldable pub accepts : Network c → Peer c → Transaction c → World c → Bool
  unfolding holds all_valid get_message
  accepts net peer tx w =
      let message = get_message tx.proposal in
      let schnorr = (c.make_schnorr (new_rand c (clock_after c w))).0 in
      let tp = tx.proposal in
      c.verify_nym tx.signature p.h tp.pk_nym message
      && (leb p.endorsements (length tx.endorsements)
          && (all_valid net.peers schnorr message tx.endorsements
              && ((is_cached (key_of p tp.author) (w.caches peer.id verification)
                    || verifies p tp.author tp.pk_nym tp.indices)
                  && ((not p.audit
                        || holds tx.audit_proof (λ proof.
                          holds tx.audit_enc
                            (λ enc. c.auditing_verify proof enc tp.pk_nym net.auditor.pk p.h)))
                      && (not p.revoke
                          || holds tx.non_revocation_proof (λ proof.
                            c.revocation_verify proof tp.pk_nym tx.epoch p.h
                              net.revocation_authority.pk p.ys.1))))))

  checks_lem :
      (peers : List (Peer c)) (schnorr : c.Schnorr) (message : Bytes) (xs : List (Endorsement c))
      (w : World c)
      → ((for_each xs (check_endorsement p peers schnorr message) w).1 ≡ w)
        × (((for_each xs (check_endorsement p peers schnorr message) w).0 ≡ ok tt)
            ↔ (all_valid peers schnorr message xs ≡ true))
  unfolding for_each check_endorsement all_valid ◌>>=◌
  checks_lem peers schnorr message [] w = (refl, (λ _. refl, λ _. refl))
  checks_lem peers schnorr message (x ∷ xs) w =
      ground (arith, checks_lem peers schnorr message xs w)

  validate_identity_iff :
      (id : ℕ) (proof : Bytes) (pk_nym : c.Pk) (indices : List (ℕ × ℕ × c.Attribute))
      (op : Operation) (w : World c)
      → ((validate_identity p id proof pk_nym indices op w).0 ≡ ok tt)
        ↔ ((is_cached (key_of p proof) (w.caches id op) || verifies p proof pk_nym indices) ≡ true)
  unfolding validate_identity event ◌>>=◌
  validate_identity_iff id proof pk_nym indices op w = ground arith

  module _ (net : Network c) (peer : Peer c) (tx : Transaction c) (w : World c) where
    -- the state in which the endorsements are checked, and the one in which the identity is
    abbrev checking : World c
    checking = record w {
      crypto_events = record_crypto_event verify_nym w.crypto_events;
      clock = clock_after c w;
      clock_reads = w.clock_reads + 1;
    }

    abbrev identifying : World c
    identifying = record checking {
      crypto_events = record_crypto_event verify_schnorr checking.crypto_events;
    }

    -- A peer accepts a transaction exactly when its signature verifies, it has as many endorsements
    -- as the policy asks for and each is by a peer and verifies, its author's identity is cached or
    -- verifies, and the proofs of auditing and of non-revocation, where they are asked for, are there
    -- and verify.
    pub validate_iff : ((validate p net peer tx w).0 ≡ ok tt) ↔ (accepts net peer tx w ≡ true)
    unfolding validate accepts execute_chaincode event fresh_rand sleep now ◌>>=◌
    validate_iff = ground (
      arith,
      checks_lem net.peers (c.make_schnorr (new_rand c (clock_after c w))).0
          (get_message tx.proposal) tx.endorsements checking,
      validate_identity_iff peer.id tx.proposal.author tx.proposal.pk_nym tx.proposal.indices
          verification identifying,
    )
