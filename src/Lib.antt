-- ===== src/Lib.antt =====
-- fabric-simulator: a simulation of a permissioned blockchain whose users stay anonymous. A user
-- proves its credentials under a fresh pseudonym, has its proposal endorsed by some peers, and sends
-- the transaction to an orderer, which passes it to all peers for validation. Handles for the current
-- epoch stand for revocation, and encryptions of the author's key for auditing.
--
-- The parts and their files (paths from the repository's root):
--   Helpers         helpers/helpers.go: RandomBytes, PeerByHash, Sha3, RandomString, RandomULong,
--                   NewRand, NewRandSeed
--   Params          helpers/sysparams.go: SystemParameters, MakeSystemParameters
--   Platform        what the dac library, the amcl package and Go's clock and math/rand provide: a
--                   record of types and operations, an argument of every definition that uses it
--   Exec            state, results and faults: a Go panic that nobody recovers is a `halt`
--   Simulator/Counter     simulator/counter.go: recordCryptoEvent, recordTransactionTimingInfo
--   Simulator/Counter/InFlight  simulator/counter.go: calls of recordCryptoEvent that are in flight
--                         together, as a step relation
--   Simulator/Types       the structs of simulator/*.go
--   Simulator/Env         the clock, sleeping and fresh generators
--   Simulator/Bandwidth   simulator/bandwidth.go: recordBandwidth
--   Simulator/Proposal    simulator/proposal.go: MakeTransactionProposal, getMessage, size
--   Simulator/Peer        simulator/peer.go: run, endorse, order, validate, validateIdentity
--   Simulator/Revocation  simulator/revocation.go: run, grant; and requestNonRevocation of
--                         simulator/user.go
--   Simulator/User        simulator/user.go: submitTransaction, in the blocks it consists of
--   Simulator/Network     simulator/network.go: MakeNetwork, the bodies of the goroutines that make
--                         organizations and users, and the loops that collect their results
--   Simulator/Simulation  simulator/simulator.go: Simulate, with its audit
--   Simulator/Stats       simulator/simulator.go: printStats
--   Simulator/Concurrent  simulator/peer.go, user.go, revocation.go, simulator.go, network.go: the
--                         goroutines, what they wait for and their shut-down, as a step relation
--   Simulator/Bandwidth/InFlight  simulator/bandwidth.go: calls of recordBandwidth that are in flight
--                         together, as a step relation
--   Distributed/Wire        the marshalling that the dac library provides, a record like Platform
--   Distributed/Types       distributed/definitions.go and the structs beside it
--   Distributed/Rpc         distributed/distributed.go: makeRPCCall, makeRPCCallSync
--   Distributed/Roles       distributed/distributed.go: Simulate, runRPCServer, the auditor
--   Distributed/Issuer      distributed/root.go and distributed/organization.go
--   Distributed/Revocation  distributed/revocation.go
--   Distributed/Peer        distributed/peer.go: Endorse, Order, Validate, Audit, validateIdentity
--   Distributed/Proposal    distributed/user.go: MakeTransactionProposal, getMessage
--   Distributed/User        distributed/user.go: MakeUser, submitTransaction, updateNRH
--   Revocation              revocation/: the web service, and its client as a step relation
--   Main                    main/main.go: the flags, the parameters and the actions of the commands
-- The proofs stand in the child modules of these, and in
--   Simulator/Sums                           weights summed over users, threads and calls
--   Simulator/Closed, Simulator/Invariants   what all handlers keep
--   Simulator/Costs                          how many events each handler records
--   Simulator/Honest                         the laws of the cryptography, and honest parties
--   Distributed/Decoded                      what the wire carries, as the simulator's data
--   Distributed/Ledger                       what stands in the ledgers of the peers
--   Distributed/Honest                       processes that all run and follow the protocol
--   Tests                                    every theorem at a concrete input, on a platform in
--                                            which keys and signatures are numbers
--
-- State. What is fixed once the network is made is `Network`; what the handlers change is `World`:
-- the clock, the table of events, the timings, the log with its counter and its locks, the caches of
-- the peers, the epoch and the recorded transactions. A handler is a function from a world to an
-- outcome and a world; sending over a channel and waiting for the answer is a call. The peers have
-- their channels served one message at a time, in the order of the sender's loop: a handler gives its
-- permit back before the next one acquires, so that a semaphore matters only if its limit is 0. Then
-- Acquire waits for ever, and the outcome of the block is the fault `no_permit`.
--
-- In distributed/ each process has a state of its own: `World` holds those of the root, the
-- organization, the revocation authority, and of the peer at each address. An RPC is a call of the
-- handler on that state. A handler that ends its process, by a panic or logger.Fatal, leaves `none`
-- for it and gives the caller an error; dialing a process that is not there ends the caller. Where the
-- source makes several calls and then waits for the answers, all handlers run first, in the order of
-- the calls, and then the answers are looked at. The name `show` in Issuer is Go's formatting of `%d`.
--
-- Concurrency. Where goroutines finish in an unknown order, the order is an argument of which nothing
-- is assumed: the arrival of organizations and users, the schedule of the users' turns, and the ticks of the epoch timer between a user's look at the epoch and the grant
-- (`late`). A transaction is one turn. No definition needs fuel: every loop is over a list or a count.
--
-- What the goroutines of simulator/ wait for is a model of its own, Simulator/Concurrent: a state has
-- for each user the place in submitTransaction where it stands and the answers in its buffered
-- channels, and a list of the threads that work for it: a message that a loop holds while it acquires a
-- semaphore, a running handler, the peers that an orderer has still to send to. A send over a channel
-- without buffer is a step that both sides take; any step that is enabled may be next. The messages
-- have no contents there, a handler does not fail, and its answer and the release of its permit are one
-- step; endorsers and orderer are those that the hash of the message gives. recordBandwidth, which the
-- loops call, is Simulator/Bandwidth/InFlight: each of three goroutines locks its mutex, sleeps and
-- unlocks. Simulator/Counter/InFlight does the same for the mutex of recordCryptoEvent. All these
-- relations count their steps. Network.stop, which ends the loops, is Simulator/Concurrent/Stop: steps over the same states and the number of loops that are stopped.
--
-- Numbers are natural numbers; the counter of the log wraps at 2^64, the author's id in a message at
-- 2^8; the total of the timings is an int64 that wraps. The sleeps are integers of nanoseconds, over the platform's floating-point operations.
--
-- In revocation/ the requests in flight are a list, and every order of answers is a path of `Steps`.
--
-- Not modelled: concurrent handlers of one process of distributed/, the listening socket, the log file
-- and logging but for the choice of its level; the contents of messages and the caches of the peers
-- while goroutines interleave within a transaction; and the tools, which are in other languages.
pub mod Prelude
pub mod Platform
pub mod Helpers
pub mod Params
pub mod Exec
pub mod Simulator
pub mod Distributed
pub mod Revocation
pub mod Main
pub mod Tests
