-- ===== src/Simulator/Concurrent/Accounts.antt =====
-- What a user waits for and what is on its way to it: the accounts of one user, kept by each move.
pub mod Moves
use mathlib.Core.Path.{subst}
use fabric_simulator.Prelude.{
  some, sym, ◌∙◌, ℕ, zero, suc, ◌+◌, ◌-◌, ◌≡◌, ◌≤◌, ◌<◌, refl, ap, Bool, true, false, List, [], ◌∷◌,
  length, arith, if◌then◌else◌,
}
use fabric_simulator.Platform.{Platform, Bytes}
use fabric_simulator.Helpers.Bounds.{All, peer_by_hash-lt}
use fabric_simulator.Helpers.{peer_by_hash}
use fabric_simulator.Params.{SystemParameters}
use fabric_simulator.Simulator.User.Endorsers.{length-select_endorsers, select_endorsers_lem}
use fabric_simulator.Simulator.Concurrent.{
  Phase, unstarted, asking, awaiting, idle, proposing, collecting, submitting, confirming, Client,
  Job, holds_proposal, endorses, holds_order, orders, start_order, holds_transaction, validates,
  holds_request, grants, State, peers_from, Move, launch, start, propose, proposed, collect,
  collected, request, submit, confirm, complete, admit_proposal, endorse, deliver, ordered,
  admit_transaction, validate, admit_request, grant,
}
use fabric_simulator.Simulator.Sums.{sum_of}

-- The answers that a job is still to bring, of each kind.
abbrev pub endorsements_of : Job → ℕ
endorsements_of (holds_proposal q) = 1
endorsements_of (endorses q) = 1
endorsements_of _ = 0

abbrev pub confirmations_of : Job → ℕ
confirmations_of (holds_order q qs) = length qs
confirmations_of (orders qs) = length qs
confirmations_of (holds_transaction q) = 1
confirmations_of (validates q) = 1
confirmations_of _ = 0

abbrev pub handles_of : Job → ℕ
handles_of holds_request = 1
handles_of grants = 1
handles_of _ = 0

abbrev pub unsent : Phase → ℕ
unsent (proposing es) = length es
unsent _ = 0

abbrev pub ungranted : Phase → ℕ
ungranted (awaiting b) = 1
ungranted _ = 0

-- Whether a transaction is on its way.
abbrev pub busy : Phase → ℕ
busy unstarted = 0
busy idle = 0
busy (asking b) = if b then 0 else 1
busy (awaiting b) = if b then 0 else 1
busy _ = 1

module _ {c : Platform} (p : SystemParameters c) where
  -- The answers of each kind that the user has still to take.
  abbrev pub uncollected : Phase → ℕ
  uncollected (proposing es) = p.endorsements
  uncollected (collecting i) = p.endorsements - i
  uncollected _ = 0

  abbrev pub unconfirmed : Phase → ℕ
  unconfirmed (confirming i) = p.peers - i
  unconfirmed _ = 0

  abbrev pub Place : Phase → Type 0
  Place (proposing es) = All (λ e. e < p.peers) es
  Place (collecting i) = i ≤ p.endorsements
  Place (confirming i) = i ≤ p.peers
  Place _ = Unit

  -- The peers that a job names are peers.
  abbrev pub Within : Job → Type 0
  Within (holds_proposal q) = q < p.peers
  Within (endorses q) = q < p.peers
  Within (holds_order q qs) = (q < p.peers) × All (λ r. r < p.peers) qs × (length qs ≡ p.peers)
  Within (orders qs) = All (λ q. q < p.peers) qs
  Within (holds_transaction q) = q < p.peers
  Within (validates q) = q < p.peers
  Within _ = Unit

  -- The accounts of a user, of which `e` endorsements, `v` confirmations and `g` handles are on their
  -- way, and which had `m` messages.
  pub record Fits (k : Client) (e v g m : ℕ) : Type 0 where
    pub endorsements : e + k.endorsed + unsent k.phase ≡ uncollected k.phase
    pub confirmations : v + k.confirmed ≡ unconfirmed k.phase
    pub handles : g ≡ ungranted k.phase
    pub place : Place k.phase
    pub counted : k.recorded + length k.todo + busy k.phase ≡ m

  pub Fits-same :
      {k : Client} {e v g e' v' g' m : ℕ}
      → e ≡ e'
      → v ≡ v'
      → g ≡ g'
      → Fits k e v g m
      → Fits k e' v' g' m
  Fits-same same_e same_v same_g h = record {
    endorsements = omega (arith, h.endorsements);
    confirmations = omega (arith, h.confirmations);
    handles = omega (arith, h.handles);
    place = h.place;
    counted = h.counted;
  }

  -- The accounts with the phase written out.
  pub at_phase :
      {k : Client} {e v g m : ℕ} (x : Phase)
      → Fits k e v g m
      → k.phase ≡ x
      → Fits (record k { phase = x }) e v g m
  at_phase x h ph = record {
    endorsements = rw (← ph) h.endorsements;
    confirmations = rw (← ph) h.confirmations;
    handles = rw (← ph) h.handles;
    place = subst Place ph h.place;
    counted = rw (← ph) h.counted;
  }

  -- From a phase to another in which the user waits for as much.
  pub to_phase :
      (k : Client) {e v g g' m : ℕ} (x y : Phase)
      → Fits (record k { phase = x }) e v g m
      → unsent y + uncollected x ≡ unsent x + uncollected y
      → unconfirmed x ≡ unconfirmed y
      → g + ungranted y ≡ g' + ungranted x
      → Place y
      → busy x ≡ busy y
      → Fits (record k { phase = y }) e v g' m
  to_phase k x y h e₁ e₂ e₃ pl e₄ = record {
    endorsements = omega (arith, h.endorsements);
    confirmations = omega (arith, h.confirmations);
    handles = omega (arith, h.handles);
    place = pl;
    counted = omega (arith, h.counted);
  }

  pub launched_phase :
      (k : Client) {e v g m : ℕ} (revoke : Bool)
      → Fits (record k { phase = unstarted }) e v g m
      → Fits (record k { phase = if revoke then asking true else idle }) e v g m
  launched_phase k true h = to_phase k unstarted (asking true) h refl refl refl tt refl
  launched_phase k false h = to_phase k unstarted idle h refl refl refl tt refl
