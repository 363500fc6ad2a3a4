-- ===== src/Simulator/Concurrent/Accounts/Moves.antt =====
-- Each move keeps the accounts of its user.
use mathlib.Core.Path.{subst}
use fabric_simulator.Prelude.{
  some, sym, ◌∙◌, ℕ, zero, suc, ◌+◌, ◌≡◌, ◌≤◌, ◌<◌, refl, ap, true, false, List, [], ◌∷◌, length,
  arith,
}
use fabric_simulator.Platform.{Platform, Bytes}
use fabric_simulator.Helpers.Bounds.{All, peer_by_hash-lt}
use fabric_simulator.Helpers.{peer_by_hash}
use fabric_simulator.Params.{SystemParameters}
use fabric_simulator.Simulator.User.Endorsers.{length-select_endorsers, select_endorsers_lem}
use fabric_simulator.Simulator.Concurrent.{
  unstarted, asking, awaiting, idle, proposing, collecting, submitting, confirming, Client, Job,
  start_order, State, peers_from, Move, launch, start, propose, proposed, collect, collected,
  request, submit, confirm, complete, admit_proposal, endorse, deliver, ordered, admit_transaction,
  validate, admit_request, grant,
}
use fabric_simulator.Simulator.Sums.{sum_of}
use fabric_simulator.Simulator.Concurrent.Accounts.{
  endorsements_of, confirmations_of, handles_of, Place, Within, Fits, Fits-same, at_phase, to_phase,
  launched_phase,
}

pub length-peers_from : (i n : ℕ) → length (peers_from i n) ≡ n
unfolding peers_from
length-peers_from i zero = refl
length-peers_from i (suc n) = ap suc (length-peers_from (suc i) n)

module _ {c : Platform} (p : SystemParameters c) where
  peers_from-lt : (i n : ℕ) → i + n ≤ p.peers → All (λ q. q < p.peers) (peers_from i n)
  unfolding peers_from
  peers_from-lt i zero h = tt
  peers_from-lt i (suc n) h = (omega arith, peers_from-lt (suc i) n (omega arith))

  chosen_lt :
      0 < p.peers
      → (orderer : ℕ) (hash : Bytes) → peer_by_hash hash p.peers ≡ some orderer
      → orderer < p.peers
  chosen_lt some_peer orderer hash chosen =
      let (o, e, lt) = peer_by_hash-lt hash p.peers some_peer in
      omega (arith, some-eq (sym chosen ∙ e), lt)
    where
      some-eq : {a b : ℕ} → some a ≡ some b → a ≡ b
      some-eq h = cc

  module _ (some_peer : 0 < p.peers) {s : State} {u : ℕ} where
    pub Move-Fits :
        {gone new : List Job} {k : Client} (e v g m : ℕ)
        → Move p s u gone k new
        → Fits p
            (s.users u)
            (sum_of endorsements_of gone + e)
            (sum_of confirmations_of gone + v)
            (sum_of handles_of gone + g)
            m
        → Fits p k
            (sum_of endorsements_of new + e)
            (sum_of confirmations_of new + v)
            (sum_of handles_of new + g)
            m
    unfolding sum_of
    Move-Fits e v g m (launch ph turn) h =
        launched_phase p (s.users u) p.revoke (at_phase p unstarted h ph)
    Move-Fits e v g m (start msg rest first ph todo hash) h =
        let a = at_phase p idle h ph in
        record {
          endorsements =
              omega (arith, a.endorsements, length-select_endorsers first p.peers p.endorsements);
          confirmations = a.confirmations;
          handles = a.handles;
          place = (select_endorsers_lem first p.peers p.endorsements some_peer).1;
          counted = omega (arith, a.counted, ap length todo);
        }
    Move-Fits e v g m (propose q qs ph free) h =
        let a = at_phase p (proposing (q ∷ qs)) h ph in
        record {
          endorsements = omega (arith, a.endorsements);
          confirmations = omega (arith, a.confirmations);
          handles = omega (arith, a.handles);
          place = a.place.1;
          counted = omega (arith, a.counted);
        }
    Move-Fits e v g m (proposed ph) h =
        let a = at_phase p (proposing []) h ph in
        record {
          endorsements = omega (arith, a.endorsements);
          confirmations = omega (arith, a.confirmations);
          handles = omega (arith, a.handles);
          place = omega arith;
          counted = omega (arith, a.counted);
        }
    Move-Fits e v g m (collect i n ph more full) h =
        let a = at_phase p (collecting i) h ph in
        record {
          endorsements = omega (arith, a.endorsements, full);
          confirmations = omega (arith, a.confirmations, full);
          handles = omega (arith, a.handles);
          place = more;
          counted = omega (arith, a.counted, full);
        }
    Move-Fits e v g m (collected true ph no_revoke) h =
        to_phase p (s.users u) (collecting p.endorsements) (asking false)
          (at_phase p (collecting p.endorsements) h ph) (omega arith) refl refl tt refl
    Move-Fits e v g m (collected false ph no_revoke) h =
        to_phase p (s.users u) (collecting p.endorsements) submitting
          (at_phase p (collecting p.endorsements) h ph) (omega arith) refl refl tt refl
    Move-Fits e v g m (request b ph free) h =
        let a = at_phase p (asking b) h ph in
        to_phase p (s.users u) (asking b) (awaiting b) a refl refl (omega arith) tt refl
    Move-Fits e v g m (submit orderer ph hash free) h =
        let a = at_phase p (submitting) h ph in
        record {
          endorsements = omega (arith, a.endorsements, length-peers_from 0 p.peers);
          confirmations = omega (arith, a.confirmations, length-peers_from 0 p.peers);
          handles = omega (arith, a.handles);
          place = omega arith;
          counted = omega (arith, a.counted, length-peers_from 0 p.peers);
        }
    Move-Fits e v g m (confirm i n ph more full) h =
        let a = at_phase p (confirming i) h ph in
        record {
          endorsements = omega (arith, a.endorsements, full);
          confirmations = omega (arith, a.confirmations, full);
          handles = omega (arith, a.handles);
          place = more;
          counted = omega (arith, a.counted, full);
        }
    Move-Fits e v g m (complete ph) h =
        let a = at_phase p (confirming p.peers) h ph in
        record {
          endorsements = omega (arith, a.endorsements);
          confirmations = omega (arith, a.confirmations);
          handles = omega (arith, a.handles);
          place = tt;
          counted = omega (arith, a.counted);
        }
    Move-Fits e v g m (admit_proposal q room) h =
        Fits-same p (omega arith) (omega arith) (omega arith) h
    Move-Fits e v g m (endorse q room) h = record {
      endorsements = omega (arith, h.endorsements);
      confirmations = omega (arith, h.confirmations);
      handles = omega (arith, h.handles);
      place = h.place;
      counted = h.counted;
    }
    Move-Fits e v g m (start_order q qs) h = Fits-same p (omega arith) (omega arith) (omega arith) h
    Move-Fits e v g m (deliver q qs free) h =
        Fits-same p (omega arith) (omega arith) (omega arith) h
    Move-Fits e v g m ordered h = Fits-same p (omega arith) (omega arith) (omega arith) h
    Move-Fits e v g m (admit_transaction q room) h =
        Fits-same p (omega arith) (omega arith) (omega arith) h
    Move-Fits e v g m (validate q room) h = record {
      endorsements = omega (arith, h.endorsements);
      confirmations = omega (arith, h.confirmations);
      handles = omega (arith, h.handles);
      place = h.place;
      counted = h.counted;
    }
    Move-Fits e v g m (admit_request room) h =
        Fits-same p (omega arith) (omega arith) (omega arith) h
    Move-Fits e v g m (grant true ph) h =
        to_phase p (s.users u) (awaiting true) idle (at_phase p (awaiting true) h ph) refl refl
          (omega arith) tt refl
    Move-Fits e v g m (grant false ph) h =
        to_phase p (s.users u) (awaiting false) submitting (at_phase p (awaiting false) h ph) refl
          refl (omega arith) tt refl

    -- The jobs that a move starts name peers only.
    pub Move-Within :
        {gone new : List Job} {k : Client}
        → Move p s u gone k new
        → Place p (s.users u).phase
        → All (Within p) gone
        → All (Within p) new
    Move-Within (launch ph turn) h w = tt
    Move-Within (start msg rest first ph todo hash) h w = tt
    Move-Within (propose q qs ph free) h w = ((subst (Place p) ph h).0, tt)
    Move-Within (proposed ph) h w = tt
    Move-Within (collect i n ph more full) h w = tt
    Move-Within (collected seen ph no_revoke) h w = tt
    Move-Within (request b ph free) h w = (tt, tt)
    Move-Within (submit orderer ph hash free) h w = (
      (
        chosen_lt some_peer orderer _ hash,
        peers_from-lt 0 p.peers (omega arith),
        length-peers_from 0 p.peers,
      ),
      tt,
    )
    Move-Within (start_order q qs) h w = (w.0.1, tt)
    Move-Within (confirm i n ph more full) h w = tt
    Move-Within (complete ph) h w = tt
    Move-Within (admit_proposal q room) h w = w
    Move-Within (endorse q room) h w = tt
    Move-Within (deliver q qs free) h w = (w.0.1, (w.0.0, tt))
    Move-Within ordered h w = tt
    Move-Within (admit_transaction q room) h w = w
    Move-Within (validate q room) h w = tt
    Move-Within (admit_request room) h w = w
    Move-Within (grant b ph) h w = tt
