-- ===== src/Distributed/Types.antt =====
-- The data of distributed/*.go: what goes over the wire, and what each process keeps.
use fabric_simulator.Prelude.{ℕ, ℤ, Option, List}
use fabric_simulator.Platform.{Platform, Bytes}
use fabric_simulator.Simulator.Types.{KeysHolder, CredentialsHolder}

pub record CredRequest : Type 0 where
  pub request : Bytes
  pub id : ℕ

pub record Credentials : Type 0 where
  pub creds : Bytes

pub record NonRevocationRequest : Type 0 where
  pub pk : Bytes

pub record NonRevocationHandle : Type 0 where
  pub handle : Bytes

pub record TransactionProposal : Type 0 where
  pub hash : Bytes
  pub author_id : ℕ
  pub chaincode : Bytes
  pub signature : Bytes
  pub author : Bytes
  pub pk_nym : Bytes
  pub index_value : Bytes

pub record Endorsement : Type 0 where
  pub signature : Bytes
  pub pk : Bytes
  pub id : ℕ

pub record Transaction : Type 0 where
  pub signature : Bytes
  pub proposal : TransactionProposal
  pub audit_proof : Bytes
  pub audit_enc : Bytes
  pub endorsements : List Endorsement
  pub non_revocation_proof : Bytes
  pub epoch : ℤ
  pub author_pk : Bytes

module _ (c : Platform) where
  pub record RpcRoot : Type 0 where
    pub creds : CredentialsHolder c
    pub starter : Bytes

  pub record RpcOrganization : Type 0 where
    pub holder : CredentialsHolder c
    pub open holder use *

  pub record RpcRevocation : Type 0 where
    pub keys : KeysHolder c
    pub open keys use *

  pub record RpcPeer : Type 0 where
    pub keys : KeysHolder c
    pub open keys use *
    pub id : ℕ
    pub cache : List Bytes
    pub revocation_pk : c.Pk
    pub audit_sk : c.Sk
    pub transactions : List Transaction

  -- `none` is the zero handle of a new user.
  pub record User : Type 0 where
    pub creds : CredentialsHolder c
    pub epoch : ℤ
    pub nrh : Option c.GrothSignature
    pub revocation_authority_pk : c.Pk
    pub revocation_pk : c.Pk

  -- All processes and the clock. A process that does not run, or has ended, is `none`; a peer is
  -- found at the address it listens at, the other three at the addresses that the parameters name.
  -- `epoch` is the variable of the revocation authority's process.
  pub record World : Type 0 where
    pub clock : ℕ
    pub clock_reads : ℕ
    pub root : Option RpcRoot
    pub organization : Option RpcOrganization
    pub revocation : Option RpcRevocation
    pub epoch : ℕ
    pub peers : Bytes → Option RpcPeer
