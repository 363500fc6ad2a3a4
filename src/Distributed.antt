-- ===== src/Distributed.antt =====
-- distributed/: the same protocol between processes that call each other over net/rpc.
pub mod Wire
pub mod Types
pub mod Rpc
pub mod Proposal
pub mod Peer
pub mod Issuer
pub mod Revocation
pub mod User
pub mod Decoded
pub mod Ledger
pub mod Roles
pub mod Honest
