-- ===== src/Simulator/Honest/Proposing.antt =====
-- An honest user makes a valid proposal, and honest peers endorse it.
use mathlib.Core.Path.{subst}
use fabric_simulator.Prelude.{ℕ, ◌≡◌, ◌<◌, refl, sym, some, List, get_elem?}
use fabric_simulator.Platform.{Platform, Bytes}
use fabric_simulator.Exec.Returns.{Returns, Any, Returns-pure, Returns-require, Returns-bind}
use fabric_simulator.Params.{SystemParameters}
use fabric_simulator.Simulator.Types.{User, TransactionProposal, Endorsement, Transaction, Network}
use fabric_simulator.Simulator.Proposal.{get_message, make_transaction_proposal, indices_of}
use fabric_simulator.Simulator.User.{send_proposal, accept_endorsement}
use fabric_simulator.Simulator.Honest.{Complete, HonestNetwork, HonestUser}
use fabric_simulator.Simulator.Honest.Peers.{
  InEpoch, event-Returns, fresh_rand-Returns, ValidProposal, GoodEndorsement,
  check_endorsement-Returns, receive_endorsement-Returns,
}

module _ {c : Platform} (laws : Complete c) (p : SystemParameters c) (net : Network c)
    (honest : HonestNetwork p net) (k : ℕ) (l : List (Transaction c)) (user : User c)
    (member : HonestUser p net k user) where
  -- A proposal of this user under a pseudonym of its own.
  pub record Own (t : TransactionProposal c × c.Pk × c.Sk) : Type 0 where
    pub prg : c.Rand
    pub sk_made : t.2 ≡ (c.generate_nym_keys prg user.sk p.h).0
    pub pk_made : t.1 ≡ (c.generate_nym_keys prg user.sk p.h).1
    pub by_user : t.0.author_id ≡ user.id
    pub same_pk : t.0.pk_nym ≡ t.1
    pub valid : ValidProposal p net t.0

  pub make_transaction_proposal-Returns :
      (hash : Bytes) → Returns (InEpoch k l) (make_transaction_proposal p hash user) Own
  unfolding make_transaction_proposal indices_of get_message
  make_transaction_proposal-Returns hash = Returns-bind Any (fresh_rand-Returns k l) λ prg _.
      let (proof, proved, verified) =
        laws.shown prg (c.generate_nym_keys prg user.sk p.h).2 user.credentials user.sk p.root_pk
          p.ys p.h member.credentials_hold in
      Returns-bind Any (event-Returns k l _) λ _ _.
        Returns-bind (λ x. x ≡ proof) (Returns-require _ _ proof proved)
          λ x e. Returns-bind Any (event-Returns k l _) λ _ _. Returns-pure Own _ (record {
            prg = prg;
            sk_made = refl;
            pk_made = refl;
            by_user = refl;
            same_pk = refl;
            valid = record { signed = laws.nym prg _ user.sk p.h _; identified = rw e verified };
          })

  pub send_proposal-Returns :
      (proposal : TransactionProposal c) (endorser : ℕ)
      → 0 < p.concurrent_endorsements
      → ValidProposal p net proposal
      → endorser < p.peers
      → Returns
          (InEpoch k l)
          (send_proposal p net proposal endorser)
          (GoodEndorsement p net (get_message proposal))
  unfolding send_proposal
  send_proposal-Returns proposal endorser some_permit valid lt =
      let (peer, at, same, good) = honest.peer_at endorser lt in
      Returns-bind (λ x. x ≡ peer) (Returns-require _ _ peer at)
        λ x e. rw e (
          receive_endorsement-Returns p net k l laws peer proposal some_permit
            (subst (λ i. get_elem? net.peers i ≡ some peer) (sym same) at) good valid)

  pub accept_endorsement-Returns :
      (prg : c.Rand) (message : Bytes) (x : Endorsement c)
      → GoodEndorsement p net message x
      → Returns (InEpoch k l) (accept_endorsement p net (c.make_schnorr prg).0 message x) Any
  unfolding accept_endorsement
  accept_endorsement-Returns prg message x g =
      Returns-bind Any (check_endorsement-Returns p net k l prg message x g)
        λ _ _. event-Returns k l _
