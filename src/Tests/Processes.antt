-- ===== src/Tests/Processes.antt =====
-- The theorems on the processes of distributed/ at concrete inputs.
use fabric_simulator.Prelude.{
  ℕ, ◌+◌, ◌≡◌, ◌≢◌, ◌↔◌, refl, sym, pos, negsuc, true, false, none, some, List, [], ◌∷◌, ◌++◌,
  ==_iff, arith,
}
use fabric_simulator.Platform.{Bytes}
use fabric_simulator.Exec.{Outcome, ok, ◌>>=◌}
use fabric_simulator.Helpers.{codes}
use fabric_simulator.Distributed.Types.{Transaction, RpcOrganization, RpcPeer, User, World}
use mathlib.Core.Path.{subst}
use fabric_simulator.Helpers.{of_big_endian, peer_by_hash, sha3}
use fabric_simulator.Helpers.Bounds.{All}
use fabric_simulator.Simulator.Peer.{bytes_equal, is_cached}
use fabric_simulator.Simulator.Peer as SimulatedPeer
use fabric_simulator.Simulator.Proposal as SimulatedProposal
use fabric_simulator.Distributed.Rpc.{
  set_peer, fresh_rand, serve, make_rpc_call, make_rpc_call_sync,
}
use fabric_simulator.Distributed.Revocation as Authority
use fabric_simulator.Distributed.Proposal.{get_message, make_transaction_proposal}
use fabric_simulator.Distributed.Peer.{validate}
use fabric_simulator.Distributed.Peer.Validation.{
  signed_endorsement, all_signed, well_formed, identified, accepts, recorded, validate_rpc_iff,
  validate-recorded,
}
use fabric_simulator.Distributed.Peer.Forged.{Forger, forge, validate-forged}
use fabric_simulator.Distributed.User.{
  update_nrh, prove_non_revocation, prove_auditing, build_transaction, send_transaction,
  submit_transaction,
}
use fabric_simulator.Distributed.User.Lost.{send_transaction_lost}
use fabric_simulator.Distributed.User.Stale.{BoundTo, ProvesEpoch, build_transaction_stale}
use fabric_simulator.Distributed.Decoded.{decoded_transaction}
use fabric_simulator.Distributed.Decoded.Proposals.{
  decoded_outcome, make_transaction_proposal-decoded,
}
use fabric_simulator.Distributed.Decoded.Validation.{NamesPeer, Agree, validate-decoded}
use fabric_simulator.Distributed.Ledger.{LedgersSound}
use fabric_simulator.Distributed.Ledger.Transactions.{submit_transaction-LedgersSound}
use fabric_simulator.Distributed.Roles.{run_auditor}
use fabric_simulator.Distributed.Issuer.{make_rpc_root, make_rpc_organization}
use fabric_simulator.Distributed.Issuer.Enrolment.{Delegates, make_rpc_organization_completes}
use fabric_simulator.Distributed.Roles.Auditor.{all_open, Auditable, Cleared, run_auditor_completes}
use fabric_simulator.Tests.Toy as Toy
use fabric_simulator.Tests.Toy.{toy, toy_complete, parameters}
use fabric_simulator.Tests.Wired.{
  wire, wire-Faithful, first_address, wired, peer_holding, peers_holding, start, alice, proposal,
  tx, first,
}

-- validation

validate_rpc_iff_example :
    ((validate wire wired first_address tx start).0 ≡ ok true)
    ↔ (accepts wire wired first_address first tx start refl ≡ true)
validate_rpc_iff_example = validate_rpc_iff wire wired first_address first tx start refl

tx_good : accepts wire wired first_address first tx start refl ≡ true
unfolding well_formed all_signed signed_endorsement identified is_cached
tx_good = refl

validate-recorded_example :
    (validate wire wired first_address tx start).1.peers first_address
    ≡ some (recorded wire wired first_address first tx start refl)
validate-recorded_example = validate-recorded wire wired first_address first tx start refl tx_good

-- two endorsements of one forger, who claims to be peer 7
abbrev forgers : List (Forger toy)
forgers = (90, 5, 7) ∷ (90, 6, 7) ∷ []

validate-forged_example :
    (validate wire wired first_address
      (record tx {
        endorsements =
            forge wire wired (get_message proposal) (90, 5, 7)
            ∷ forge wire wired (get_message proposal) (90, 6, 7)
            ∷ [];
      })
      start).0
    ≡ ok true
validate-forged_example =
    validate-forged wire wired toy_complete wire-Faithful first_address first tx forgers start refl
      (omega arith) (validate_rpc_iff_example.1 tx_good)

-- a transaction that is lost: its proof is for another pseudonym

abbrev text : Bytes
text = codes "pay"

abbrev strange : Transaction
strange = record tx { proposal = record proposal { pk_nym = 8 ∷ [] } }

strange_unknown : identified wire wired first strange.proposal ≡ false
unfolding identified is_cached
strange_unknown = refl

orderer_lem : peer_by_hash (sha3 toy (text ++ codes "-order")) wired.peers ≡ some 0
unfolding peer_by_hash sha3 of_big_endian
orderer_lem = refl

send_transaction_lost_example :
    send_transaction wire wired text strange start
    ≡ (ok tt, record start { peers = set_peer first_address none start.peers })
send_transaction_lost_example =
    send_transaction_lost wire wired first_address first strange start refl strange_unknown text 0
      orderer_lem refl

-- proposals and transactions, decoded

make_transaction_proposal-decoded_example :
    decoded_outcome wire wired (make_transaction_proposal wire wired (7 ∷ []) alice start).0
    ≡ (SimulatedProposal.make_transaction_proposal wired (7 ∷ []) (Toy.user_with 40 0) Toy.start).0
make_transaction_proposal-decoded_example =
    make_transaction_proposal-decoded wire wired wire-Faithful (7 ∷ []) alice (Toy.user_with 40 0)
      start Toy.start refl refl refl

agreement : Agree wire wired Toy.network (Toy.peer_with 20 0) Toy.start first start
agreement = record {
  auditor = refl;
  authority = refl;
  cache = refl;
  clock = refl;
  clock_reads = refl;
}

named : All (NamesPeer wire wired Toy.network) tx.endorsements
unfolding NamesPeer
named = ((Toy.peer_with 21 1, refl, refl), ((Toy.peer_with 20 0, refl, refl), tt))

validate-decoded_example : ((validate wire wired first_address tx start).0 ≡ ok true) ↔ (
    (SimulatedPeer.validate wired Toy.network
      (Toy.peer_with 20 0)
      (decoded_transaction wire wired tx)
      Toy.start).0
    ≡ ok tt)
validate-decoded_example =
    validate-decoded wire wired Toy.network (Toy.peer_with 20 0) Toy.start first_address first start
      tx refl agreement named

-- the ledgers

empty_ledger :
    (address : Bytes) (peer : RpcPeer toy)
    → start.peers address ≡ some peer
    → (peer.revocation_pk ≡ 30) × (peer.transactions ≡ [])
empty_ledger [] peer e = cc
empty_ledger (x ∷ xs) peer e = ground (arith, e)

start-LedgersSound : LedgersSound wire wired 30 start
start-LedgersSound address peer e = record {
  same_authority = (empty_ledger address peer e).0;
  all_well_formed = subst (All _) (sym (empty_ledger address peer e).1) tt;
}

submit_transaction-LedgersSound_example :
    LedgersSound wire wired 30 (submit_transaction wire wired text 0 alice start).1
submit_transaction-LedgersSound_example =
    submit_transaction-LedgersSound wire wired 30 text 0 alice start start-LedgersSound

abbrev audited : World toy
audited = record start { peers = peers_holding (tx ∷ []) }

audited_opens : All (Auditable wire wired audited) wired.peer_rpc_addresses
unfolding all_open
audited_opens = (
  record { peer = peer_holding (tx ∷ []) 20 0; running = refl; opens = refl },
  (record { peer = peer_holding (tx ∷ []) 21 1; running = refl; opens = refl }, tt),
)

run_auditor_completes_example :
    (w' : World toy) × (run_auditor wire wired audited ≡ (ok tt, w'))
    × All (Cleared wire wired w') wired.peer_rpc_addresses
run_auditor_completes_example = run_auditor_completes wire wired audited audited_opens

-- a transaction built by a user who has no handle yet

bound : BoundTo wire wired 1 (wire.big_of_int (negsuc 0)) 9 9 first.revocation_pk
bound prg handle sk different = ground (arith, different)

abbrev new_user : User toy
new_user = record alice { epoch = pos 1; nrh = some 1 }

abbrev stale : Transaction
stale = record tx { epoch = negsuc 0 }

abbrev built : Outcome (User toy × Transaction) × World toy
built = build_transaction wire wired 5 0 alice proposal 9 9 tx.endorsements start

built_lem : built ≡ (ok (new_user, stale), built.1)
unfolding build_transaction prove_non_revocation update_nrh prove_auditing make_rpc_call_sync
    make_rpc_call serve fresh_rand Authority.ticks Authority.get_epoch Authority.process_nrr
    Authority.receiver ◌>>=◌
built_lem = refl

build_transaction_stale_example :
    (stale.epoch ≡ alice.epoch)
    × ProvesEpoch wire wired 1 9 stale.non_revocation_proof
    × ((validate wire wired first_address stale start).0 ≢ ok true)
build_transaction_stale_example =
    build_transaction_stale wire wired wire-Faithful refl 5 0 alice new_user proposal 9 9
      tx.endorsements stale start built.1 (λ e. absurd (omega arith)) built_lem first_address first
      start refl bound

-- the enrolment of an organization; the root's generator is 4

pub delegates : Delegates wire
delegates = record {
  request = λ x. refl;
  credentials = λ x. refl;
  valid = λ prg sk nonce level. refl;
  names = λ prg prg' nonce level. refl;
  from_root = λ prg prg' prg'' attributes ys.
      ((prg' + 1) ∷ (prg + 0) ∷ [], refl, (==_iff (prg' + 1) (prg' + 1)).1 refl);
}

abbrev pub no_digits : ℕ → Bytes
no_digits n = []

abbrev with_root : World toy
with_root = record start { root = some (make_rpc_root wire wired no_digits 4) }

root_made : wired.root_pk ≡ 4 + 0
root_made = omega arith

make_rpc_organization_completes_example :
    (org : RpcOrganization toy) × (w' : World toy) × (make_rpc_organization wire wired no_digits 50
        3 with_root
      ≡ (ok org, w'))
    × (org.id ≡ 3)
    × (toy.credentials_verify org.credentials org.sk 4 wired.ys ≡ true)
    × (w'.root ≡ with_root.root)
make_rpc_organization_completes_example =
    make_rpc_organization_completes wire wired no_digits delegates 4 root_made 50 3 with_root refl
