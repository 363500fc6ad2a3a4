-- ===== src/Simulator.antt =====
-- simulator/: the whole network in one process.
pub mod Sums
pub mod Counter
pub mod Types
pub mod Env
pub mod Bandwidth
pub mod Proposal
pub mod Peer
pub mod Revocation
pub mod User
pub mod Network
pub mod Simulation
pub mod Stats
pub mod Closed
pub mod Concurrent
pub mod Invariants
pub mod Costs
pub mod Honest
