-- ===== src/Simulator/Concurrent.antt =====
-- simulator/: the goroutines of a simulation and what they wait for: a channel without buffer until
-- the other side is at its select, a semaphore until it has a permit, a user until its answers are
-- there. What a message holds does not matter here, but for who gets it. The timer of the epoch never
-- waits; whether a user sees a new epoch is left open.
pub mod Threads
pub mod Caps
pub mod Accounts
pub mod Invariant
pub mod Work
pub mod Handlers
pub mod Progress
pub mod Stop
use fabric_simulator.Prelude.{
  ℕ, zero, suc, ◌+◌, ◌-◌, ◌*◌, ◌≡◌, ◌<◌, ◌⊎◌, Bool, true, false, some, List, [], ◌∷◌, ◌++◌, map,
  length, ◌==◌, if◌then◌else◌,
}
use fabric_simulator.Platform.{Platform, Bytes}
use fabric_simulator.Helpers.{codes, sha3, peer_by_hash}
use fabric_simulator.Params.{SystemParameters}
use fabric_simulator.Simulator.User.{select_endorsers}
use fabric_simulator.Simulator.Sums.{sum_of, update}

-- Where the goroutine of a user is. `asking` and `awaiting` are requestNonRevocation before and after
-- its send; the flag tells the first handle, which the main goroutine asks for in the user's name.
pub data Phase : Type 0 where
  unstarted : Phase
  asking : Bool → Phase
  awaiting : Bool → Phase
  idle : Phase
  proposing : List ℕ → Phase
  collecting : ℕ → Phase
  submitting : Phase
  confirming : ℕ → Phase

-- A user: the messages it has still to submit, the one it submits, what stands in the buffers of
-- proposal.doneChannel and tx.doneChannel, and how many of its transactions are recorded.
pub record Client : Type 0 where
  pub phase : Phase
  pub todo : List Bytes
  pub message : Bytes
  pub endorsed : ℕ
  pub confirmed : ℕ
  pub recorded : ℕ

-- What is done for a user elsewhere: a message that the loop of a peer, or of the authority, holds
-- while it acquires the semaphore, a running handler, or the peers that an orderer has still to send to.
pub data Job : Type 0 where
  holds_proposal : ℕ → Job
  endorses : ℕ → Job
  holds_order : ℕ → List ℕ → Job
  orders : List ℕ → Job
  holds_transaction : ℕ → Job
  validates : ℕ → Job
  holds_request : Job
  grants : Job

pub record State : Type 0 where
  pub users : ℕ → Client
  pub threads : List (ℕ × Job)

abbrev pub at : ℕ → ℕ → ℕ
at q x = if x == q then 1 else 0

-- The messages that the loop of peer `q` holds: above 0 it is not at its select.
abbrev pub held : ℕ → Job → ℕ
held q (holds_proposal x) = at q x
held q (holds_order x qs) = at q x
held q (holds_transaction x) = at q x
held q _ = 0

-- The permits of each semaphore that are taken.
abbrev pub endorsing : ℕ → Job → ℕ
endorsing q (endorses x) = at q x
endorsing q _ = 0

abbrev pub validating : ℕ → Job → ℕ
validating q (validates x) = at q x
validating q _ = 0

abbrev pub held_request : Job → ℕ
held_request holds_request = 1
held_request _ = 0

abbrev pub granting : Job → ℕ
granting grants = 1
granting _ = 0

-- A weight of jobs, over all threads.
abbrev pub in_all : (Job → ℕ) → List (ℕ × Job) → ℕ
in_all w = sum_of (λ t. w t.1)

unfoldable pub launched : Phase → Bool
launched unstarted = false
launched (asking b) = if b then false else true
launched (awaiting b) = if b then false else true
launched _ = true

-- `range execParams.network.peers`, from the given place on
unfoldable pub peers_from : ℕ → ℕ → List ℕ
peers_from i zero = []
peers_from i (suc left) = i ∷ peers_from (suc i) left

module _ {c : Platform} (p : SystemParameters c) where
  -- One step for user `u`: the jobs it ends, the user after it, and the jobs it starts.
  pub data Move (s : State) (u : ℕ) : List Job → Client → List Job → Type 0 where
    -- The main goroutine launches the users in turn.
    launch :
        (s.users u).phase ≡ unstarted
        → (u ≡ 0) ⊎ ((before : ℕ) × (u ≡ suc before) × (launched (s.users before).phase ≡ true))
        → Move s u [] (record (s.users u) { phase = if p.revoke then asking true else idle }) []
    -- submitTransaction
    start :
        (m : Bytes) (rest : List Bytes) (first : ℕ)
        → (s.users u).phase ≡ idle
        → (s.users u).todo ≡ m ∷ rest
        → peer_by_hash (sha3 c m) p.peers ≡ some first
        → Move s u []
            (record (s.users u) {
              phase = proposing (select_endorsers first p.peers p.endorsements);
              todo = rest;
              message = m;
              endorsed = 0;
            })
            []
    propose :
        (e : ℕ) (es : List ℕ)
        → (s.users u).phase ≡ proposing (e ∷ es)
        → in_all (held e) s.threads ≡ 0
        → Move s u [] (record (s.users u) { phase = proposing es }) (holds_proposal e ∷ [])
    proposed :
        (s.users u).phase ≡ proposing []
        → Move s u [] (record (s.users u) { phase = collecting 0 }) []
    collect :
        (i n : ℕ)
        → (s.users u).phase ≡ collecting i
        → i < p.endorsements
        → (s.users u).endorsed ≡ suc n
        → Move s u [] (record (s.users u) { phase = collecting (suc i); endorsed = n }) []
    -- All endorsements are there; `seen` tells whether the epoch is another.
    collected :
        (seen : Bool)
        → (s.users u).phase ≡ collecting p.endorsements
        → (p.revoke ≡ false → seen ≡ false)
        → Move s u [] (record (s.users u) { phase = if seen then asking false else submitting }) []
    request :
        (b : Bool)
        → (s.users u).phase ≡ asking b
        → in_all held_request s.threads ≡ 0
        → Move s u [] (record (s.users u) { phase = awaiting b }) (holds_request ∷ [])
    submit :
        (orderer : ℕ)
        → (s.users u).phase ≡ submitting
        → peer_by_hash (sha3 c ((s.users u).message ++ codes "-order")) p.peers ≡ some orderer
        → in_all (held orderer) s.threads ≡ 0
        → Move s u []
            (record (s.users u) { phase = confirming 0; confirmed = 0 })
            (holds_order orderer (peers_from 0 p.peers) ∷ [])
    confirm :
        (i n : ℕ)
        → (s.users u).phase ≡ confirming i
        → i < p.peers
        → (s.users u).confirmed ≡ suc n
        → Move s u [] (record (s.users u) { phase = confirming (suc i); confirmed = n }) []
    complete :
        (s.users u).phase ≡ confirming p.peers
        → Move s u [] (record (s.users u) { phase = idle; recorded = suc (s.users u).recorded }) []
    -- The loop of a peer gets its permit; a handler sends its answer and gives the permit back.
    admit_proposal :
        (q : ℕ)
        → in_all (endorsing q) s.threads < p.concurrent_endorsements
        → Move s u (holds_proposal q ∷ []) (s.users u) (endorses q ∷ [])
    endorse :
        (q : ℕ)
        → (s.users u).endorsed < p.endorsements
        → Move s u (endorses q ∷ []) (record (s.users u) { endorsed = suc (s.users u).endorsed }) []
    -- The loop of the orderer has recorded the transfer, and starts the handler.
    start_order :
        (q : ℕ) (qs : List ℕ) → Move s u (holds_order q qs ∷ []) (s.users u) (orders qs ∷ [])
    deliver :
        (q : ℕ) (qs : List ℕ)
        → in_all (held q) s.threads ≡ 0
        → Move s u (orders (q ∷ qs) ∷ []) (s.users u) (orders qs ∷ holds_transaction q ∷ [])
    ordered : Move s u (orders [] ∷ []) (s.users u) []
    admit_transaction :
        (q : ℕ)
        → in_all (validating q) s.threads < p.concurrent_validations
        → Move s u (holds_transaction q ∷ []) (s.users u) (validates q ∷ [])
    validate :
        (q : ℕ)
        → (s.users u).confirmed < p.peers
        → Move s u
            (validates q ∷ [])
            (record (s.users u) { confirmed = suc (s.users u).confirmed })
            []
    -- The authority; the grant is received by the user as it is sent.
    admit_request :
        in_all granting s.threads < p.concurrent_revocations
        → Move s u (holds_request ∷ []) (s.users u) (grants ∷ [])
    grant :
        (b : Bool)
        → (s.users u).phase ≡ awaiting b
        → Move s u (grants ∷ []) (record (s.users u) { phase = if b then idle else submitting }) []

  pub data Step (n : ℕ) : State → State → Type 0 where
    moves :
        (s : State) (u : ℕ) (before after : List (ℕ × Job)) (gone new : List Job) (k : Client)
        → u < n
        → s.threads ≡ before ++ (map (λ j. (u, j)) gone ++ after)
        → Move s u gone k new
        → Step n s (record {
          users = update s.users u k;
          threads = map (λ j. (u, j)) new ++ (before ++ after);
        })

  -- `Steps n s t k`: `k` steps lead from `s` to `t`.
  pub data Steps (n : ℕ) : State → State → ℕ → Type 0 where
    here : (s : State) → Steps n s s 0
    then_step : (s t v : State) (k : ℕ) → Steps n s t k → Step n t v → Steps n s v (suc k)

-- MakeNetwork is done; user `u` is to submit the messages `messages u`.
abbrev pub at_start : (ℕ → List Bytes) → State
at_start messages = record {
  users = λ u. record {
    phase = unstarted;
    todo = messages u;
    message = [];
    endorsed = 0;
    confirmed = 0;
    recorded = 0;
  };
  threads = [];
}

-- wgUser.Wait() returns, and no peer has work left.
abbrev pub Finished : (ℕ → List Bytes) → ℕ → State → Type 0
Finished messages n s =
    (s.threads ≡ [])
    × ((u : ℕ)
        → u < n
        → ((s.users u).phase ≡ idle)
          × ((s.users u).todo ≡ [])
          × ((s.users u).recorded ≡ length (messages u)))
