-- ===== src/Simulator/Honest.antt =====
-- What the documented behaviour of the cryptography is, and a network in which everybody follows the
-- protocol.
pub mod Peers
pub mod Proposing
pub mod Building
pub mod Completes
use fabric_simulator.Prelude.{
  ℕ, ◌≡◌, ◌<◌, Bool, true, Option, none, some, List, [], ◌∷◌, length, get_elem?,
}
use fabric_simulator.Platform.{Platform, Bytes}
use fabric_simulator.Params.{SystemParameters}
use fabric_simulator.Simulator.Types.{User, Peer, Network}

-- What an honest party makes is accepted by an honest verifier.
pub record Complete (c : Platform) : Type 0 where
  pub nym :
      (prg prg' : c.Rand) (sk : c.Sk) (h : c.Base) (message : Bytes)
      → let (sk_nym, pk_nym, _) = c.generate_nym_keys prg sk h in
        c.verify_nym (c.sign_nym prg' pk_nym sk_nym sk h message).0 h pk_nym message ≡ true
  pub schnorr :
      (prg prg' prg'' : c.Rand) (message : Bytes)
      → let (sk, pk, _) = c.generate_keys prg 0 in
        c.schnorr_verify
          (c.make_schnorr prg').0
          pk
          (c.schnorr_sign (c.make_schnorr prg'').0 sk message)
          message
        ≡ true
  -- Credentials that hold for a secret key can be shown under any of its pseudonyms.
  pub shown :
      (prg prg' : c.Rand) (creds : c.Credentials) (sk : c.Sk) (root : c.Pk) (ys : c.YsRow × c.YsRow)
      (h : c.Base)
      → c.credentials_verify creds sk root ys ≡ true
      → let (sk_nym, pk_nym, _) = c.generate_nym_keys prg sk h in
        let indices : List (ℕ × ℕ × c.Attribute) = (1, 1, c.attribute_at creds 1 1) ∷ [] in
        (proof : c.Proof) × ((c.prove creds prg' sk root indices ys h sk_nym).0 ≡ some proof)
        × (c.verify_proof (c.proof_from_bytes (c.proof_to_bytes proof)) root ys h pk_nym indices
            ≡ true)
  pub audited :
      (prg prg₁ prg₂ prg₃ : c.Rand) (sk : c.Sk) (pk : c.Pk) (h : c.Base)
      → let (sk_nym, pk_nym, _) = c.generate_nym_keys prg sk h in
        let (auditor_sk, auditor_pk, _) = c.generate_keys prg₁ 2 in
        let (enc, r, _) = c.auditing_encrypt prg₂ auditor_pk pk in
        c.auditing_verify
          (c.auditing_prove prg₃ enc pk sk pk_nym sk_nym auditor_pk r h).0
          enc
          pk_nym
          auditor_pk
          h
        ≡ true
  -- The auditor's key opens an encryption to the key that was encrypted.
  pub opened :
      (prg prg₁ : c.Rand) (pk : c.Pk)
      → let (auditor_sk, auditor_pk, _) = c.generate_keys prg 2 in
        c.pk_equal (c.auditing_decrypt (c.auditing_encrypt prg₁ auditor_pk pk).0 auditor_sk) pk
        ≡ true
  -- A handle for an epoch proves non-revocation in that epoch.
  pub unrevoked :
      (prg prg₁ prg₂ prg₃ : c.Rand) (sk : c.Sk) (epoch : ℕ) (h : c.Base) (ys : c.YsRow × c.YsRow)
      → let (sk_nym, pk_nym, _) = c.generate_nym_keys prg sk h in
        let (authority_sk, authority_pk) = c.groth_generate prg₁ ys.1 in
        let handle = c.sign_non_revoke prg₂ authority_sk (c.ecp_mul sk) epoch ys.1 in
        c.revocation_verify
          (c.revocation_prove prg₃ handle sk sk_nym epoch h ys.0).0
          pk_nym
          epoch
          h
          authority_pk
          ys.1
        ≡ true

module _ {c : Platform} (p : SystemParameters c) where
  -- Every semaphore that is used admits a handler; the authority's is used under revocation alone.
  pub record SomePermits : Type 0 where
    pub endorsing : 0 < p.concurrent_endorsements
    pub validating : 0 < p.concurrent_validations
    pub granting : p.revoke ≡ true → 0 < p.concurrent_revocations

  -- A peer as MakePeer makes it.
  pub record HonestPeer (peer : Peer c) : Type 0 where
    pub prg : c.Rand
    pub sk_made : peer.sk ≡ (c.generate_keys prg 0).0
    pub pk_made : peer.pk ≡ (c.generate_keys prg 0).1

  pub record HonestNetwork (net : Network c) : Type 0 where
    pub some_peers : 0 < p.peers
    pub some_endorsements : 0 < p.endorsements
    pub peer_count : length net.peers ≡ p.peers
    pub peer_at :
        (i : ℕ)
        → i < p.peers
        → (peer : Peer c) × (get_elem? net.peers i ≡ some peer) × (peer.id ≡ i) × HonestPeer peer
    pub auditor_prg : c.Rand
    pub auditor_sk_made : net.auditor.sk ≡ (c.generate_keys auditor_prg 2).0
    pub auditor_pk_made : net.auditor.pk ≡ (c.generate_keys auditor_prg 2).1
    pub authority_prg : c.Rand
    pub authority_sk_made : net.revocation_authority.sk ≡ (c.groth_generate authority_prg p.ys.1).0
    pub authority_pk_made : net.revocation_authority.pk ≡ (c.groth_generate authority_prg p.ys.1).1

  -- A user with its own credentials; a handle, if it has one for the epoch, is the authority's.
  pub record HonestUser (net : Network c) (epoch : ℕ) (user : User c) : Type 0 where
    pub credentials_hold : c.credentials_verify user.credentials user.sk p.root_pk p.ys ≡ true
    pub revocation_key : user.revocation_pk ≡ c.ecp_mul user.sk
    pub handle_current :
        user.epoch ≡ epoch
        → (prg : c.Rand) × (user.non_revocation_handler
            ≡ some (
                c.sign_non_revoke prg net.revocation_authority.sk (c.ecp_mul user.sk) epoch p.ys.1))
