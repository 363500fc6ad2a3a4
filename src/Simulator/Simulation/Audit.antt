-- ===== src/Simulator/Simulation/Audit.antt =====
-- When the audit succeeds.
use fabric_simulator.Prelude.{
  ◌≡◌, ◌↔◌, refl, Bool, true, false, ◌&&◌, Option, none, some, List, [], ◌∷◌, get_elem?, arith,
}
use fabric_simulator.Platform.{Platform}
use fabric_simulator.Exec.{ok, ◌>>=◌, for_each}
use fabric_simulator.Simulator.Counter.{audit_decrypt, record_crypto_event}
use fabric_simulator.Simulator.Types.{User, Transaction, Network, World}
use fabric_simulator.Simulator.Env.{event}
use fabric_simulator.Simulator.Simulation.{audit_transaction, audit}

module _ {c : Platform} (net : Network c) where
  unfoldable pub names_author : Option c.AuditingEncryption → Option (User c) → Bool
  names_author none author = false
  names_author (some enc) none = false
  names_author (some enc) (some author) =
      c.pk_equal (c.auditing_decrypt enc net.auditor.sk) author.pk

  -- Each transaction carries an encryption, and the auditor's key opens it to the key of the author
  -- that the transaction names.
  unfoldable pub all_name_authors : List (Transaction c) → Bool
  unfolding names_author
  all_name_authors [] = true
  all_name_authors (tx ∷ txs) =
      names_author tx.audit_enc (get_elem? net.users tx.proposal.author_id) && all_name_authors txs

  audits_lem :
      (txs : List (Transaction c)) (w : World c)
      → ((for_each txs (audit_transaction net) w).0 ≡ ok tt) ↔ (all_name_authors txs ≡ true)
  unfolding for_each audit_transaction all_name_authors event ◌>>=◌
  audits_lem [] w = (λ _. refl, λ _. refl)
  audits_lem (tx ∷ txs) w = ground (
    arith,
    audits_lem txs (record w { crypto_events = record_crypto_event audit_decrypt w.crypto_events }),
  )

  -- The audit succeeds exactly when every recorded transaction opens to the key of its author.
  pub audit_iff :
      (w : World c) → ((audit net w).0 ≡ ok tt) ↔ (all_name_authors w.transactions ≡ true)
  unfolding audit ◌>>=◌
  audit_iff w = audits_lem w.transactions w
