-- ===== src/Distributed/Proposal.antt =====
-- distributed/user.go: MakeTransactionProposal and getMessage.
use fabric_simulator.Prelude.{◌%◌, [], ◌∷◌, ◌++◌}
use fabric_simulator.Platform.{Platform, Bytes}
use fabric_simulator.Exec.{Exec, no_proof, pure, require, ◌>>=◌}
use fabric_simulator.Helpers.{codes}
use fabric_simulator.Params.{SystemParameters}
use fabric_simulator.Distributed.Wire.{Wire}
use fabric_simulator.Distributed.Types.{TransactionProposal, User, World}
use fabric_simulator.Distributed.Rpc.{fresh_rand}

unfoldable pub get_message : TransactionProposal → Bytes
get_message tp = tp.hash ++ (tp.chaincode ++ (tp.author_id % 256) ∷ tp.author)

module _ {c : Platform} (wire : Wire c) (p : SystemParameters c) where
  -- The literal has no signature yet; the message does not read it.
  unfoldable pub make_transaction_proposal :
      Bytes → User c → Exec (World c) (TransactionProposal × c.Pk × c.Sk)
  make_transaction_proposal hash user = do
    prg ← fresh_rand c
    let (sk_nym, pk_nym, prg₁) = c.generate_nym_keys prg user.creds.sk p.h
    let attribute = c.attribute_at user.creds.credentials 1 1
    let (proof?, prg₂) =
        c.prove user.creds.credentials prg₁ user.creds.sk p.root_pk ((1, 1, attribute) ∷ []) p.ys
          p.h sk_nym
    proof ← require no_proof proof?
    let tp : TransactionProposal = record {
      chaincode = codes "chaincode: hash | policy: write";
      author_id = user.creds.id;
      hash = hash;
      author = c.proof_to_bytes proof;
      pk_nym = wire.point_to_bytes pk_nym;
      index_value = wire.attribute_to_bytes attribute;
      signature = [];
    }
    let signature = (c.sign_nym prg₂ pk_nym sk_nym user.creds.sk p.h (get_message tp)).0
    pure (record tp { signature = c.nym_signature_to_bytes signature }, pk_nym, sk_nym)
