-- ===== src/Tests/Delivered.antt =====
-- A transaction in a network of two honest peers, on the transparent platform.
use fabric_simulator.Prelude.{ℕ, pos, false, some, List, [], ◌∷◌}
use fabric_simulator.Platform.{Bytes}
use fabric_simulator.Distributed.Types.{Transaction, RpcOrganization, User, World}
use fabric_simulator.Params.{SystemParameters}
use fabric_simulator.Tests.Toy.{toy}
use fabric_simulator.Tests.Wired.{wired, start}

abbrev member : User toy
member = record {
  creds = record { keys = record { pk = 40; sk = 40 }; credentials = 40 ∷ []; id = 0 };
  epoch = pos 1;
  nrh = some 1;
  revocation_authority_pk = 30;
  revocation_pk = 40;
}

no_ledgers : Bytes → List Transaction
no_ledgers a = []

-- without revocation, with an organization: a user that submits twice

abbrev unrevoked : SystemParameters toy
unrevoked = record wired { revoke = false }

abbrev org : RpcOrganization toy
org = record { holder = record { keys = record { pk = 6; sk = 6 }; credentials = 6 ∷ []; id = 0 } }

abbrev with_org : World toy
with_org = record start { organization = some org }

abbrev turns : List (ℕ × ℕ)
turns = (0, 0) ∷ (7, 2) ∷ []
