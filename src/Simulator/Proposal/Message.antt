-- ===== src/Simulator/Proposal/Message.antt =====
-- What the signed bytes of a proposal determine.
use mathlib.Core.Path.{ap₂}
use fabric_simulator.Prelude.{◌%◌, ◌≡◌, refl, ap, ◌↔◌, List, [], ◌∷◌, ◌++◌, length, arith}
use fabric_simulator.Platform.{Platform}
use fabric_simulator.Simulator.Types.{TransactionProposal}
use fabric_simulator.Simulator.Proposal.{get_message}

module _ {ℓ} {A : Type ℓ} {x y : A} {xs ys : List A} (e : x ∷ xs ≡ y ∷ ys) where
  head_eq : x ≡ y
  head_eq = cc

  tail_eq : xs ≡ ys
  tail_eq = cc

append-injective {ℓ} :
    {A : Type ℓ} (xs ys : List A) {us vs : List A}
    → length xs ≡ length ys
    → xs ++ us ≡ ys ++ vs
    → (xs ≡ ys) × (us ≡ vs)
append-injective [] [] l e = (refl, e)
append-injective [] (y ∷ ys) l e = absurd (omega arith)
append-injective (x ∷ xs) [] l e = absurd (omega arith)
append-injective (x ∷ xs) (y ∷ ys) l e =
    let (p, q) = append-injective xs ys (omega arith) (tail_eq e) in (ap₂ ◌∷◌ (head_eq e) p, q)

-- Two proposals of one chaincode whose hashes have one length have the same signed bytes exactly when
-- hash and author proof agree, and the author ids agree modulo 256.
pub get_message_iff :
    {c : Platform} (a b : TransactionProposal c)
    → length a.hash ≡ length b.hash
    → a.chaincode ≡ b.chaincode
    → (get_message a ≡ get_message b)
      ↔ ((a.hash ≡ b.hash) × (a.author_id % 256 ≡ b.author_id % 256) × (a.author ≡ b.author))
unfolding get_message
get_message_iff a b l same = (
  λ e.
      let (hash, rest) = append-injective a.hash b.hash l e in
      let (_, tail) = append-injective a.chaincode b.chaincode (ap length same) rest in
      (hash, cc, cc),
  λ e. cc,
)
