-- ===== src/Simulator/Peer/Identity.antt =====
-- The cache of identities.
use mathlib.Core.Path.{subst}
use fabric_simulator.Prelude.{
  ℕ, ◌≡◌, inl, inr, refl, ap, Bool, true, false, List, [], ◌∷◌, ◌++◌, arith, Bool-cases,
}
use fabric_simulator.Platform.{Platform, Bytes}
use fabric_simulator.Exec.{Outcome, ok, halt, bad_identity, ◌>>=◌}
use fabric_simulator.Helpers.{sha3}
use fabric_simulator.Params.{SystemParameters}
use fabric_simulator.Simulator.Counter.{sha3hash, cred_verify, record_crypto_event}
use fabric_simulator.Simulator.Types.{Operation, World}
use fabric_simulator.Simulator.Env.{event}
use fabric_simulator.Simulator.Peer.{cache_key, bytes_equal, is_cached, add_key, validate_identity}

pub bytes_equal_refl : (a : Bytes) → bytes_equal a a ≡ true
unfolding bytes_equal
bytes_equal_refl [] = refl
bytes_equal_refl (x ∷ xs) = ground (arith, bytes_equal_refl xs)

pub bytes_equal-eq : (a b : Bytes) → bytes_equal a b ≡ true → a ≡ b
unfolding bytes_equal
bytes_equal-eq [] [] h = refl
bytes_equal-eq (x ∷ xs) (y ∷ ys) h = ground (arith, bytes_equal-eq xs ys)
bytes_equal-eq [] (y ∷ ys) h = cc
bytes_equal-eq (x ∷ xs) [] h = cc

is_cached-append : (key : Bytes) (keys : List Bytes) → is_cached key (keys ++ key ∷ []) ≡ true
unfolding is_cached
is_cached-append key [] = ground (arith, bytes_equal_refl key)
is_cached-append key (k ∷ ks) = ground (arith, is_cached-append key ks)

is_cached-add_key :
    (caches : ℕ → Operation → List Bytes) (id : ℕ) (op : Operation) (key : Bytes)
    → is_cached key (add_key caches id op key id op) ≡ true
unfolding add_key
is_cached-add_key caches id op key = ground (arith, is_cached-append key (caches id op))

module _ {c : Platform} (p : SystemParameters c) where
  -- The key under which a proof is cached.
  abbrev pub key_of : Bytes → Bytes
  key_of proof = cache_key (sha3 c proof)

  abbrev pub verifies : Bytes → c.Pk → List (ℕ × ℕ × c.Attribute) → Bool
  verifies proof pk_nym indices =
      c.verify_proof (c.proof_from_bytes proof) p.root_pk p.ys p.h pk_nym indices

  abbrev pub hashed : World c → World c
  hashed w = record w { crypto_events = record_crypto_event sha3hash w.crypto_events }

  module _ (id : ℕ) (proof : Bytes) (pk_nym : c.Pk) (indices : List (ℕ × ℕ × c.Attribute))
      (op : Operation) (w : World c) where
    pub validate_identity_hit :
        is_cached (key_of proof) (w.caches id op) ≡ true
        → validate_identity p id proof pk_nym indices op w ≡ (ok tt, hashed w)
    unfolding validate_identity event ◌>>=◌
    validate_identity_hit h = rw h

    pub validate_identity_verified :
        is_cached (key_of proof) (w.caches id op) ≡ false
        → verifies proof pk_nym indices ≡ true
        → validate_identity p id proof pk_nym indices op w ≡ (
          ok tt,
          record (hashed w) {
            crypto_events = record_crypto_event cred_verify (hashed w).crypto_events;
            caches = add_key w.caches id op (key_of proof);
          },
        )
    unfolding validate_identity event ◌>>=◌
    validate_identity_verified h v = rw (h, v)

    pub validate_identity_refused :
        is_cached (key_of proof) (w.caches id op) ≡ false
        → verifies proof pk_nym indices ≡ false
        → validate_identity p id proof pk_nym indices op w ≡ (halt bad_identity, hashed w)
    unfolding validate_identity event ◌>>=◌
    validate_identity_refused h v = rw (h, v)

    abbrev result : Outcome (Unit {0}) × World c
    result = validate_identity p id proof pk_nym indices op w

    -- An accepted identity has its key in the cache afterwards.
    pub validate_identity-is_cached :
        result.0 ≡ ok tt → is_cached (key_of proof) (result.1.caches id op) ≡ true
    validate_identity-is_cached = elim (Bool-cases (is_cached (key_of proof) (w.caches id op))) [
      | inl hit ↦ rw (validate_identity_hit hit) (λ _. hit)
      | inr miss ↦ elim (Bool-cases (verifies proof pk_nym indices)) [
        | inl v ↦
            rw (validate_identity_verified miss v)
              (λ _. is_cached-add_key w.caches id op (key_of proof))
        | inr v ↦ rw (validate_identity_refused miss v) (λ r. cc)
      ]
    ]

  -- Once a peer accepted an identity, it accepts the same proof under any pseudonym and any disclosed
  -- attributes for the same operation, with one hash and no verification.
  pub validate_identity-again :
      (id : ℕ) (proof : Bytes) (pk_nym pk_nym' : c.Pk)
      (indices indices' : List (ℕ × ℕ × c.Attribute)) (op : Operation) (w w' : World c)
      → validate_identity p id proof pk_nym indices op w ≡ (ok tt, w')
      → validate_identity p id proof pk_nym' indices' op w' ≡ (ok tt, hashed w')
  validate_identity-again id proof pk_nym pk_nym' indices indices' op w w' e =
      validate_identity_hit id proof pk_nym' indices' op w' (
        subst (λ (v : World c). is_cached (key_of proof) (v.caches id op) ≡ true) (ap (λ r. r.1) e)
          (validate_identity-is_cached id proof pk_nym indices op w (ap (λ r. r.0) e)))
