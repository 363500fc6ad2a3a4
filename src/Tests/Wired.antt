-- ===== src/Tests/Wired.antt =====
-- A marshalling for the transparent platform, and processes of distributed/ on it: two peers and a
-- revocation authority.
use fabric_simulator.Prelude.{
  ℕ, ◌+◌, refl, pos, negsuc, Option, none, some, List, [], ◌∷◌, ◌==◌, if◌then◌else◌,
}
use fabric_simulator.Platform.{Bytes}
use fabric_simulator.Helpers.{codes}
use fabric_simulator.Params.{SystemParameters}
use fabric_simulator.Distributed.Wire.{Wire}
use fabric_simulator.Distributed.Wire.Laws.{Faithful}
use fabric_simulator.Distributed.Types.{
  TransactionProposal, Endorsement, Transaction, RpcPeer, User, World,
}
use fabric_simulator.Tests.Toy.{toy, parameters}

abbrev head : Bytes → ℕ
head [] = 0
head (x ∷ xs) = x

abbrev pub wire : Wire toy
wire = record {
  point_to_bytes = λ x. x ∷ [];
  point_from_bytes = head;
  attribute_to_bytes = λ x. x ∷ [];
  attribute_from_bytes = head;
  nym_signature_from_bytes = head;
  schnorr_to_bytes = λ x. x ∷ [];
  schnorr_from_bytes = head;
  groth_to_bytes = λ x. x ∷ [];
  groth_from_bytes = head;
  revocation_proof_to_bytes = λ x. x ∷ [];
  revocation_proof_from_bytes = head;
  encryption_to_bytes = λ x. x ∷ [];
  encryption_from_bytes = head;
  auditing_proof_to_bytes = λ x. x ∷ [];
  auditing_proof_from_bytes = head;
  cred_request_from_bytes = head;
  cred_request_pk = λ x. x;
  groth_verify = λ prg ys authority_pk signature pk epoch. signature == epoch;
  big_of_int = λ z. elim z [ pos n ↦ n | negsuc n ↦ 1000 + n ];
}

pub wire-Faithful : Faithful wire
wire-Faithful = record {
  point = λ x. refl;
  attribute = λ x. refl;
  nym_signature = λ x. refl;
  schnorr = λ x. refl;
  groth = λ x. refl;
  revocation_proof = λ x. refl;
  encryption = λ x. refl;
  auditing_proof = λ x. refl;
  big = λ n. refl;
}

abbrev pub first_address : Bytes
first_address = 80 ∷ []

abbrev pub second_address : Bytes
second_address = 81 ∷ []

abbrev pub wired : SystemParameters toy
wired = record parameters {
  audit_pk = 12;
  peer_rpc_addresses = first_address ∷ second_address ∷ [];
}

abbrev pub peer_holding : List Transaction → ℕ → ℕ → RpcPeer toy
peer_holding transactions key id = record {
  keys = record { pk = key; sk = key };
  id = id;
  cache = [];
  revocation_pk = 30;
  audit_sk = 12;
  transactions = transactions;
}

abbrev pub peers_holding : List Transaction → Bytes → Option (RpcPeer toy)
peers_holding transactions [] = none
peers_holding transactions (x ∷ xs) =
    if x == 80
    then some (peer_holding transactions 20 0)
    else if x == 81
    then some (peer_holding transactions 21 1)
    else none

abbrev pub start : World toy
start = record {
  clock = 0;
  clock_reads = 0;
  root = none;
  organization = none;
  revocation = some (record { keys = record { pk = 30; sk = 30 } });
  epoch = 1;
  peers = peers_holding [];
}

abbrev pub alice : User toy
alice = record {
  creds = record { keys = record { pk = 40; sk = 40 }; credentials = 40 ∷ []; id = 0 };
  epoch = negsuc 0;
  nrh = none;
  revocation_authority_pk = 30;
  revocation_pk = 40;
}

abbrev pub proposal : TransactionProposal
proposal = record {
  hash = 7 ∷ [];
  author_id = 0;
  chaincode = codes "chaincode: hash | policy: write";
  signature = 9 ∷ [];
  author = 9 ∷ [];
  pk_nym = 9 ∷ [];
  index_value = 2 ∷ [];
}

abbrev pub endorsement_by : ℕ → ℕ → Endorsement
endorsement_by id key = record { signature = key ∷ []; pk = key ∷ []; id = id }

abbrev pub tx : Transaction
tx = record {
  signature = 9 ∷ [];
  proposal = proposal;
  audit_proof = 40 ∷ [];
  audit_enc = 40 ∷ [];
  endorsements = endorsement_by 1 21 ∷ endorsement_by 0 20 ∷ [];
  non_revocation_proof = 1 ∷ [];
  epoch = pos 1;
  author_pk = 40 ∷ [];
}

abbrev pub first : RpcPeer toy
first = peer_holding [] 20 0
