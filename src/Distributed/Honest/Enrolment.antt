-- ===== src/Distributed/Honest/Enrolment.antt =====
-- The process of a user: its enrolment with the organization, and then its transactions.
use fabric_simulator.Prelude.{ℕ, ◌≡◌, true, some, List}
use fabric_simulator.Platform.{Platform, Bytes}
use fabric_simulator.Exec.Returns.{Returns}
use fabric_simulator.Params.{SystemParameters}
use fabric_simulator.Simulator.Honest.{Complete}
use fabric_simulator.Simulator.Network.Enrolment.{Delegable}
use fabric_simulator.Distributed.Wire.{Wire}
use fabric_simulator.Distributed.Wire.Laws.{Faithful}
use fabric_simulator.Distributed.Types.{Transaction, RpcOrganization, User, World}
use fabric_simulator.Distributed.Issuer.Enrolment.{Delegates}
use fabric_simulator.Distributed.Honest.{Up}
use fabric_simulator.Distributed.Honest.Orders.{IsDistinct}
use fabric_simulator.Distributed.Honest.Users.{authority_pk}
use fabric_simulator.Distributed.Honest.Completes.{Configured}

module _ {c : Platform} (p : SystemParameters c) where
  -- A user that has enrolled with the given id: its credentials hold for its keys.
  abbrev pub Enrolled : ℕ → User c → Type 0
  Enrolled id user =
      (user.creds.id ≡ id)
      × (c.credentials_verify user.creds.credentials user.creds.sk p.root_pk p.ys ≡ true)

  -- All peers run, with the authority and the organization.
  abbrev pub Ready : c.Pk → ℕ → (Bytes → List Transaction) → RpcOrganization c → World c → Type 0
  Ready authority k ledgers org w = Up p authority ledgers k w × (w.organization ≡ some org)

module _ {c : Platform} (wire : Wire c) (p : SystemParameters c) (made_with : c.Rand) (k : ℕ)
    (configured : Configured p) (laws : Complete c) (faithful : Faithful wire)
    (distinct : IsDistinct p.peer_rpc_addresses) (delegates : Delegates wire)
    (delegable : Delegable c) (show : ℕ → Bytes) (ledgers : Bytes → List Transaction)
    (org : RpcOrganization c)
    (enrolled : c.credentials_verify org.credentials org.sk p.root_pk p.ys ≡ true) where
  abbrev Prepared : World c → Type 0
  Prepared = Ready p (authority_pk wire p made_with k) k ledgers org
