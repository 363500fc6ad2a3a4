-- ===== src/Simulator/Types.antt =====
-- The data of simulator/*.go. A channel is no field here: what passes over it is an argument or a
-- result of the functions at its ends.
use fabric_simulator.Prelude.{ℕ, Option, List}
use fabric_simulator.Platform.{Platform, Bytes}
use fabric_simulator.Simulator.Counter.{Counters, TransactionTimingInfo}

-- The ends of a connection. The source keys its maps by the text "kind-id", one for each of these.
pub data Party : Type 0 where
  root revocation_authority : Party
  org user peer : ℕ → Party

unfoldable pub Party-discrete : Discrete Party
Party-discrete = hlevel native.Mathlib.Decide.ℕ_discrete

-- The texts that the `name` methods return.
pub data ObjectName : Type 0 where
  credentials cred_request nonce transaction_proposal endorsement transaction : ObjectName
  non_revocation_request non_revocation_handle : ObjectName

pub record NetworkEvent : Type 0 where
  pub from : Party
  pub to : Party
  pub object : ObjectName
  pub size : ℕ
  pub start : ℕ
  pub end : ℕ
  pub global_bandwidth : ℕ
  pub local_bandwidth : ℕ
  pub id : ℕ

-- type operation int
pub data Operation : Type 0 where
  endorsing ordering verification : Operation

unfoldable pub Operation-discrete : Discrete Operation
Operation-discrete = hlevel

module _ (c : Platform) where
  pub record KeysHolder : Type 0 where
    pub pk : c.Pk
    pub sk : c.Sk

  pub record CredentialsHolder : Type 0 where
    pub keys : KeysHolder
    pub open keys use *
    pub credentials : c.Credentials
    pub id : ℕ

  pub record Organization : Type 0 where
    pub holder : CredentialsHolder
    pub open holder use *

  -- The Poisson distribution only sets how long a user sleeps.
  pub record User : Type 0 where
    pub holder : CredentialsHolder
    pub open holder use *
    pub non_revocation_handler : Option c.GrothSignature
    pub revocation_pk : c.Pk
    pub epoch : ℕ
    pub org : ℕ

  -- The map `cache` is shared by all copies of a `Peer`, so it stands in `World`.
  pub record Peer : Type 0 where
    pub keys : KeysHolder
    pub open keys use *
    pub id : ℕ

  pub record TransactionProposal : Type 0 where
    pub hash : Bytes
    pub author_id : ℕ
    pub chaincode : Bytes
    pub signature : c.NymSignature
    pub author : Bytes
    pub pk_nym : c.Pk
    pub indices : List (ℕ × ℕ × c.Attribute)

  pub record Endorsement : Type 0 where
    pub signature : c.SchnorrSignature
    pub endorser : ℕ

  -- `none` stands for the zero value of a struct that was not filled in.
  pub record Transaction : Type 0 where
    pub signature : c.NymSignature
    pub proposal : TransactionProposal
    pub audit_proof : Option c.AuditingProof
    pub audit_enc : Option c.AuditingEncryption
    pub endorsements : List Endorsement
    pub non_revocation_proof : Option c.RevocationProof
    pub epoch : ℕ
    pub orderer : ℕ

  pub record NonRevocationRequest : Type 0 where
    pub user_pk : c.Pk
    pub user_id : ℕ

  pub record NonRevocationHandle : Type 0 where
    pub handle : c.GrothSignature

  -- The part of `Network` that nothing changes once it is made.
  pub record Network : Type 0 where
    pub root : CredentialsHolder
    pub auditor : KeysHolder
    pub organizations : List Organization
    pub users : List User
    pub peers : List Peer
    pub revocation_authority : KeysHolder

  -- What the handlers change: the rest of `Network` and `ExecutionParameters`, the bandwidth log
  -- with its counter and its map of connections, the caches of the peers, and the clock.
  pub record World : Type 0 where
    pub clock : ℕ
    pub clock_reads : ℕ
    pub crypto_events : Counters
    pub transaction_timings : List TransactionTimingInfo
    pub network_log : List NetworkEvent
    pub network_event_id : ℕ
    pub connections : List (Party × ℕ)
    pub caches : ℕ → Operation → List Bytes
    pub epoch : ℕ
    pub transactions : List Transaction
