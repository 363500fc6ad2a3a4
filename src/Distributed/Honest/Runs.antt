-- ===== src/Distributed/Honest/Runs.antt =====
-- All the transactions of a user.
use mathlib.Core.List.{append_assoc, append-nil}
use fabric_simulator.Prelude.{
  ℕ, suc, ◌≡◌, ◌∙◌, refl, ap, sym, true, List, [], ◌∷◌, ◌++◌, length, ltb,
}
use fabric_simulator.Platform.{Platform, Bytes}
use fabric_simulator.Exec.{◌>>=◌}
use fabric_simulator.Exec.Returns.{Any, Returns-when, Reaches, Reaches-bind, Reaches-then}
use fabric_simulator.Helpers.{random_string}
use fabric_simulator.Helpers.Bounds.{All}
use fabric_simulator.Params.{SystemParameters}
use fabric_simulator.Simulator.Honest.{Complete}
use fabric_simulator.Distributed.Wire.{Wire}
use fabric_simulator.Distributed.Wire.Laws.{Faithful}
use fabric_simulator.Distributed.Types.{Transaction, User, World}
use fabric_simulator.Distributed.User.{run_transactions}
use fabric_simulator.Distributed.Honest.{listed, Up, sleep-Returns, fresh_rand-Returns}
use fabric_simulator.Distributed.Honest.Peers.{ValidTransaction}
use fabric_simulator.Distributed.Honest.Orders.{
  with_transactions, with_transactions-once, IsDistinct,
}
use fabric_simulator.Distributed.Honest.Users.{authority_pk, HonestUser}
use fabric_simulator.Distributed.Honest.Completes.{Configured, submit_transaction-Reaches}

module _ {c : Platform} (wire : Wire c) (p : SystemParameters c) (made_with : c.Rand) (k : ℕ) where
  -- As many valid transactions as there were turns stand at the end of every ledger.
  pub record Delivered (ledgers : Bytes → List Transaction) (turns : ℕ) (w : World c) : Type 0 where
    pub txs : List Transaction
    pub one_each : length txs ≡ turns
    pub all_valid : All (ValidTransaction wire p (authority_pk wire p made_with k)) txs
    pub after : Bytes → List Transaction
    pub up : Up p (authority_pk wire p made_with k) after k w
    pub at_the_end : (a : Bytes) → listed a p.peer_rpc_addresses ≡ true → after a ≡ ledgers a ++ txs

module _ {c : Platform} (wire : Wire c) (p : SystemParameters c) (made_with : c.Rand) (k : ℕ)
    (configured : Configured p) (laws : Complete c) (faithful : Faithful wire)
    (distinct : IsDistinct p.peer_rpc_addresses) where
  abbrev authority : c.Pk
  authority = authority_pk wire p made_with k

  -- One more in front of those of the later turns.
  Delivered-first :
      (ledgers : Bytes → List Transaction) (tx : Transaction) (turns : ℕ) (w : World c)
      → ValidTransaction wire p authority tx
      → Delivered wire p made_with k (with_transactions p.peer_rpc_addresses tx ledgers) turns w
      → Delivered wire p made_with k ledgers (suc turns) w
  Delivered-first ledgers tx turns w valid h = record {
    txs = tx ∷ h.txs;
    one_each = ap suc h.one_each;
    all_valid = (valid, h.all_valid);
    after = h.after;
    up = h.up;
    at_the_end = λ a l.
        h.at_the_end a l
        ∙ ap (λ txs. txs ++ h.txs)
            (with_transactions-once p.peer_rpc_addresses tx ledgers a distinct l)
        ∙ append_assoc (ledgers a) (tx ∷ []) h.txs;
  }

  -- The later turns, from where one turn has left the user and the world.
  later-Reaches :
      (turns : List (ℕ × ℕ)) (user : User c) (ledgers : Bytes → List Transaction)
      → ((tx : Transaction)
          → Reaches
              (Up p authority (with_transactions p.peer_rpc_addresses tx ledgers) k)
              (run_transactions wire p turns user)
              (λ u w.
                (u ≡ user)
                × Delivered wire p made_with k
                    (with_transactions p.peer_rpc_addresses tx ledgers)
                    (length turns)
                    w))
      → (u : User c)
      → Reaches
          (λ w.
            (u ≡ user)
            × (tx : Transaction) × ValidTransaction wire p authority tx
            × Up p authority (with_transactions p.peer_rpc_addresses tx ledgers) k w)
          (run_transactions wire p turns u)
          (λ v w. (v ≡ user) × Delivered wire p made_with k ledgers (suc (length turns)) w)
  later-Reaches turns user ledgers rest u = record {
    at = λ w (same, tx, valid, up).
        let (v, w', e, (q, h)) = (rest tx).at w up in
        (
          v,
          w',
          ap (λ x. run_transactions wire p turns x w) same ∙ e,
          (q, Delivered-first ledgers tx (length turns) w' valid h),
        );
  }

  pub run_transactions-Reaches :
      (turns : List (ℕ × ℕ)) (ledgers : Bytes → List Transaction) (user : User c)
      → HonestUser wire p made_with k user
      → Reaches
          (Up p authority ledgers k)
          (run_transactions wire p turns user)
          (λ u w. (u ≡ user) × Delivered wire p made_with k ledgers (length turns) w)
  unfolding run_transactions ◌>>=◌
  run_transactions-Reaches [] ledgers user member = record {
    at = λ w h. (
      user,
      w,
      refl,
      (
        refl,
        record {
          txs = [];
          one_each = refl;
          all_valid = tt;
          after = ledgers;
          up = h;
          at_the_end = λ a l. sym (append-nil (ledgers a));
        },
      ),
    );
  }
  run_transactions-Reaches ((pause, late) ∷ turns) ledgers user member =
      Reaches-bind Any
        (Returns-when (ltb 0 p.frequency) _ (λ _. sleep-Returns p authority ledgers k _))
        λ _ _. Reaches-bind Any (fresh_rand-Returns p authority ledgers k) λ prg _.
          Reaches-then _
            (submit_transaction-Reaches wire p made_with k configured laws faithful ledgers user
              member (random_string c 16 prg).0 late)
            (later-Reaches turns user ledgers (λ tx.
              run_transactions-Reaches turns (with_transactions p.peer_rpc_addresses tx ledgers)
                user member))
