-- ===== src/Simulator/Proposal.antt =====
-- simulator/proposal.go: how a user makes a proposal, and the bytes that are signed.
pub mod Message
use fabric_simulator.Prelude.{ℕ, ◌+◌, ◌*◌, ◌%◌, Option, none, some, List, [], ◌∷◌, ◌++◌, length}
use fabric_simulator.Platform.{Platform, Bytes}
use fabric_simulator.Exec.{Exec, Fault, no_proof, pure, require, ◌>>=◌, ◌>>◌}
use fabric_simulator.Helpers.{codes}
use fabric_simulator.Params.{SystemParameters}
use fabric_simulator.Simulator.Counter.{cred_prove, sign_nym}
use fabric_simulator.Simulator.Types.{User, TransactionProposal, World}
use fabric_simulator.Simulator.Env.{fresh_rand, event}

abbrev pub chaincode : Bytes
chaincode = codes "chaincode: hash | policy: write"

-- The signature is not part of the message; the author's id is cut to a byte.
unfoldable pub message_of : Bytes → Bytes → ℕ → Bytes → Bytes
message_of hash code author_id author = hash ++ (code ++ (author_id % 256) ∷ author)

module _ {c : Platform} where
  unfoldable pub get_message : TransactionProposal c → Bytes
  unfolding message_of
  get_message tp = message_of tp.hash tp.chaincode tp.author_id tp.author

  unfoldable pub proposal_size : TransactionProposal c → ℕ
  proposal_size tp =
      length tp.hash
      + length tp.chaincode
      + length (c.nym_signature_to_bytes tp.signature)
      + length tp.author
      + 4 * 32
      + 4 * 32
      + 2 * 4

  -- The disclosed attribute of a user's credentials.
  unfoldable pub indices_of : User c → List (ℕ × ℕ × c.Attribute)
  indices_of user = (1, 1, c.attribute_at user.credentials 1 1) ∷ []

module _ {c : Platform} (p : SystemParameters c) where
  -- The proposal, with the pseudonym's public and secret key.
  unfoldable pub make_transaction_proposal :
      Bytes → User c → Exec (World c) (TransactionProposal c × c.Pk × c.Sk)
  make_transaction_proposal hash user = do
    prg ← fresh_rand c
    let (sk_nym, pk_nym, prg₁) = c.generate_nym_keys prg user.sk p.h
    let indices = indices_of user
    let (proof?, prg₂) = c.prove user.credentials prg₁ user.sk p.root_pk indices p.ys p.h sk_nym
    event c cred_prove
    proof ← require no_proof proof?
    let author = c.proof_to_bytes proof
    let message = message_of hash chaincode user.id author
    let signature = (c.sign_nym prg₂ pk_nym sk_nym user.sk p.h message).0
    event c sign_nym
    pure (
      record {
        hash = hash;
        author_id = user.id;
        chaincode = chaincode;
        signature = signature;
        author = author;
        pk_nym = pk_nym;
        indices = indices;
      },
      pk_nym,
      sk_nym,
    )
