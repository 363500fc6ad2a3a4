-- ===== src/Tests.antt =====
-- The theorems at concrete inputs, on the transparent platform of `Toy`.
mod Toy
mod Wired
mod Whole
mod Processes
mod Services
mod Concurrency
mod Delivered
use mathlib.Core.List.{Perm, Permᴰ}
use fabric_simulator.Prelude.{
  ℕ, zero, suc, ◌+◌, ◌*◌, ◌%◌, ◌^◌, ◌≤◌, ◌<◌, ◌≡◌, ◌≢◌, ◌↔◌, refl, sym, ap, Bool, true, false, ◌&&◌,
  Option, none, some, List, [], ◌∷◌, ◌++◌, length, get_elem?, arith, ◌==◌, if◌then◌else◌,
}
use fabric_simulator.Platform.{Bytes}
use fabric_simulator.Exec.{Outcome, ok, halt}
use fabric_simulator.Helpers.{codes, peer_by_hash, random_string, char_at}
use fabric_simulator.Helpers.Bounds.{All, IsAlphanumeric, peer_by_hash-lt, random_string_lem}
use fabric_simulator.Simulator.Counter.{CryptoEvent, sha3hash, sign_nym, verify_nym, lookup}
use fabric_simulator.Simulator.Counter.Counts.{count}
use fabric_simulator.Simulator.Types.{
  Party, Operation, endorsing, verification, User, TransactionProposal, Endorsement, Transaction,
  World,
}
use fabric_simulator.Simulator.Bandwidth.{find_lock, get_lock}
use fabric_simulator.Simulator.Bandwidth.Log.{OwnLocks, get_lock_lem}
use fabric_simulator.Simulator.Proposal.{get_message, chaincode}
use fabric_simulator.Simulator.Proposal.Message.{get_message_iff}
use fabric_simulator.Simulator.Peer.{validate, validate_identity, is_cached, cache_key}
use fabric_simulator.Simulator.Peer.Identity.{
  hashed, validate_identity-again, validate_identity_verified,
}
use fabric_simulator.Simulator.Peer.Validation.{accepts, validate_iff}
use fabric_simulator.Simulator.User.{select_endorsers, update_epoch, submit_transaction}
use fabric_simulator.Simulator.User.Endorsers.{IsDistinct, select_endorsers_lem}
use fabric_simulator.Simulator.User.Epoch.{update_epoch_lem}
use fabric_simulator.Simulator.User.Permits.{submit_transaction-permits}
use fabric_simulator.Simulator.Network.{store_users}
use fabric_simulator.Simulator.Network.Users.{Stored, store_users_lem}
use fabric_simulator.Simulator.Invariants.{
  CachesSound, LogNumbered, LocksOwn, submit_transaction-CachesSound,
  submit_transaction-LogNumbered, submit_transaction-LocksOwn,
}
use fabric_simulator.Simulator.Costs.Transaction.{transaction_cost, count-submit_transaction}
use fabric_simulator.Simulator.Honest.Peers.{ValidTransaction}
use fabric_simulator.Simulator.Honest.Completes.{submit_transaction_completes}
use fabric_simulator.Simulator.Simulation.{Turn, audit}
use fabric_simulator.Simulator.Simulation.Audit.{all_name_authors, audit_iff}
use Toy.{
  toy, toy_complete, parameters, user_with, network, start, toy_network, toy_permits, toy_user,
}

abbrev text : Bytes
text = codes "pay"

abbrev alice : User toy
alice = user_with 40 0

-- users

abbrev turns : List Turn
turns =
    record { user = 1; ticks_before = 2; pause = 5; late = 0 }
    ∷ record { user = 0; ticks_before = 0; pause = 0; late = 0 }
    ∷ []

submit_transaction_completes_example :
    (user' : User toy) × (w' : World toy) × (submit_transaction parameters network text 0 alice
        start
      ≡ (ok user', w'))
    × (w'.epoch ≡ 1)
    × ((tx : Transaction toy) × ValidTransaction parameters network tx
        × (w'.transactions ≡ tx ∷ []))
submit_transaction_completes_example =
    submit_transaction_completes toy_complete parameters toy_permits network toy_network alice start
      toy_user text

submit_transaction-permits_example : (0 < 3) × (0 < 10)
submit_transaction-permits_example =
    submit_transaction-permits parameters network text 0 alice
      submit_transaction_completes_example.0 start submit_transaction_completes_example.1
      (omega arith) (omega arith) submit_transaction_completes_example.2

-- the same transaction, and what it records
abbrev submitted : Outcome (User toy) × World toy
submitted = submit_transaction parameters network text 0 alice start

count-submit_transaction_example :
    count sha3hash submitted.1.crypto_events
    ≡ count sha3hash start.crypto_events + transaction_cost 2 2 true true sha3hash
count-submit_transaction_example =
    count-submit_transaction parameters network sha3hash (λ e. cc) (λ e. cc) text 0 alice
      submit_transaction_completes_example.0 start
      (ap (λ r. r.0) submit_transaction_completes_example.2)

start-CachesSound : CachesSound parameters start
unfolding is_cached
start-CachesSound id op key h = cc

submit_transaction-CachesSound_example : CachesSound parameters submitted.1
submit_transaction-CachesSound_example =
    submit_transaction-CachesSound parameters network text 0 alice start start-CachesSound

start-LogNumbered : LogNumbered parameters start
start-LogNumbered = record { numbered = tt; next = refl }

submit_transaction-LogNumbered_example : LogNumbered parameters submitted.1
submit_transaction-LogNumbered_example =
    submit_transaction-LogNumbered parameters network text 0 alice start start-LogNumbered

no_locks : OwnLocks []
unfolding find_lock
no_locks = record { known = λ key lock e. cc; own = λ key other lock e f. cc }

submit_transaction-LocksOwn_example : LocksOwn parameters submitted.1
submit_transaction-LocksOwn_example =
    submit_transaction-LocksOwn parameters network text 0 alice start no_locks

update_epoch_lem_example :
    (prg : ℕ) × ((update_epoch parameters network 3 alice start).0
      ≡ ok (record alice { epoch = 1; non_revocation_handler = some 4 }))
update_epoch_lem_example = update_epoch_lem parameters network 3 alice start

select_endorsers_lem_example :
    (length (select_endorsers 5 3 2) ≡ 2)
    × All (λ x. x < 3) (select_endorsers 5 3 2)
    × (IsDistinct (select_endorsers 5 3 2) ↔ (2 ≤ 3))
select_endorsers_lem_example = select_endorsers_lem 5 3 2 (omega arith)

-- peers

abbrev proposal : TransactionProposal toy
proposal = record {
  hash = 7 ∷ [];
  author_id = 0;
  chaincode = chaincode;
  signature = 9;
  author = 9 ∷ [];
  pk_nym = 9;
  indices = [];
}

abbrev endorsement_by : ℕ → ℕ → Endorsement toy
endorsement_by endorser signature = record { signature = signature; endorser = endorser }

abbrev tx : Transaction toy
tx = record {
  signature = 9;
  proposal = proposal;
  audit_proof = some 40;
  audit_enc = some 40;
  endorsements = endorsement_by 1 21 ∷ endorsement_by 0 20 ∷ [];
  non_revocation_proof = some 1;
  epoch = 1;
  orderer = 0;
}

validate_iff_example :
    ((validate parameters network (Toy.peer_with 20 0) tx start).0 ≡ ok tt)
    ↔ (accepts parameters network (Toy.peer_with 20 0) tx start ≡ true)
validate_iff_example = validate_iff parameters network (Toy.peer_with 20 0) tx start

abbrev accepted : Outcome (Unit {0}) × World toy
accepted = validate_identity parameters 0 (9 ∷ []) 9 [] endorsing start

accepted_lem : accepted ≡ (ok tt, accepted.1)
unfolding is_cached
accepted_lem =
    ap (λ o. (o, accepted.1))
      (ap (λ r. r.0)
        (validate_identity_verified parameters 0 (9 ∷ []) 9 [] endorsing start refl refl))

-- a peer that accepted the identity under the pseudonym 9 accepts the proof under the pseudonym 8
validate_identity-again_example :
    validate_identity parameters 0 (9 ∷ []) 8 ((1, 1, 5) ∷ []) endorsing accepted.1
    ≡ (ok tt, hashed parameters accepted.1)
validate_identity-again_example =
    validate_identity-again parameters 0 (9 ∷ []) 9 8 [] ((1, 1, 5) ∷ []) endorsing start accepted.1
      accepted_lem

-- the audit

abbrev audited : World toy
audited = record start { transactions = tx ∷ [] }

audit_iff_example :
    ((audit network audited).0 ≡ ok tt) ↔ (all_name_authors network (tx ∷ []) ≡ true)
audit_iff_example = audit_iff network audited

-- the maps and lists

abbrev connections : List (Party × ℕ)
connections = (get_lock (Party.user 0) []).1

own_connections : OwnLocks connections
own_connections = (get_lock_lem (Party.user 0) [] no_locks).0

get_lock_lem_example :
    OwnLocks (get_lock (Party.peer 0) connections).1
    × (find_lock (Party.peer 0) (get_lock (Party.peer 0) connections).1
        ≡ some (get_lock (Party.peer 0) connections).0)
    × ((other : Party)
        → other ≢ Party.peer 0
        → find_lock other (get_lock (Party.peer 0) connections).1 ≡ find_lock other connections)
get_lock_lem_example = get_lock_lem (Party.peer 0) connections own_connections

-- the second user arrives before the first
store_users_lem_example :
    (final : List (Option (User toy))) × (store_users
        (none ∷ none ∷ [])
        (user_with 41 1 ∷ user_with 40 0 ∷ [])
      ≡ some final)
    × Stored (none ∷ none ∷ []) final (user_with 41 1 ∷ user_with 40 0 ∷ [])
store_users_lem_example =
    store_users_lem 2 (user_with 41 1 ∷ user_with 40 0 ∷ []) (none ∷ none ∷ []) refl
      (omega arith, (omega arith, tt)) (((λ e. absurd (omega arith)), tt), (tt, tt))

-- the ids 0 and 256 are one id to the message
get_message_iff_example :
    (get_message proposal ≡ get_message (record proposal { author_id = 256 })) ↔ (
      (proposal.hash ≡ proposal.hash) × (0 % 256 ≡ 256 % 256) × (proposal.author ≡ proposal.author))
get_message_iff_example = get_message_iff proposal (record proposal { author_id = 256 }) refl refl

-- helpers

random_string_lem_example :
    (length (random_string toy 16 77).0 ≡ 16) × All IsAlphanumeric (random_string toy 16 77).0
random_string_lem_example = random_string_lem toy 16 77
