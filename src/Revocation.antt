-- ===== src/Revocation.antt =====
-- revocation/: the revocation authority as a web service, and the client that asks it for handles.
-- Requests are in flight together; a run of the client is a path of the step relation below.
pub mod Requests
use mathlib.Core.Bool.{not}
use fabric_simulator.Prelude.{
  ℕ, zero, suc, ◌+◌, ◌≡◌, ◌≤◌, ◌<◌, Bool, true, false, Option, none, some, List, [], ◌∷◌, ◌++◌, map,
  length, get_elem?, if◌then◌else◌,
}
use fabric_simulator.Platform.{Platform, Bytes}
use fabric_simulator.Exec.{Fault, Outcome, ok, halt, bad_handle, bad_point, index_out_of_range}
use fabric_simulator.Distributed.Wire.{Wire}

-- generateAuthority's results but for `groth`, of which the client uses only Verify.
pub record Authority (c : Platform) : Type 0 where
  pub ys : c.YsRow
  pub sk : c.Sk
  pub pk : c.Pk
  pub epoch : ℕ
  pub made_with : c.Rand

-- StartRequests: the loop's variable, the requests in flight, those that are done, the signatures in
-- the channel, and whether a goroutine has ended the process.
pub record Progress : Type 0 where
  pub next : ℕ
  pub flying : List ℕ
  pub completed : List ℕ
  pub signatures : List (Bytes × ℕ)
  pub crashed : Bool

abbrev pub nothing_yet : Progress
nothing_yet = record { next = 0; flying = []; completed = []; signatures = []; crashed = false }

module _ (c : Platform) where
  unfoldable pub generate_authority : Authority c
  generate_authority =
      let (ys, prg) = c.generate_ys true 10 (c.seed_rand (19 ∷ [])) in
      let (sk, pk) = c.groth_generate prg ys in
      record { ys = ys; sk = sk; pk = pk; epoch = 5; made_with = prg }

  -- The client's keys: `n` of them, from one generator.
  unfoldable pub client_keys : ℕ → c.Rand → List c.Pk
  client_keys zero prg = []
  client_keys (suc n) prg = let (sk, pk, prg') = c.generate_keys prg 1 in pk ∷ client_keys n prg'

  unfoldable pub pks : ℕ → List c.Pk
  pks runs = client_keys runs (c.seed_rand (20 ∷ []))

-- `point_ok` tells whether dac.PointFromBytes returns no error.
module _ {c : Platform} (wire : Wire c) (point_ok : Bytes → Bool) where
  -- What is written to a request with the given body; a panic ends the handler alone.
  unfoldable pub handle_revocation_request : Authority c → Bytes → Outcome Bytes
  handle_revocation_request a body =
      if point_ok body
      then ok (
          wire.groth_to_bytes (
            c.sign_non_revoke (c.seed_rand (21 ∷ [])) a.sk (wire.point_from_bytes body) a.epoch
              a.ys))
      else halt bad_point

  module _ (runs : ℕ) where
    -- http.Post of the i-th key
    unfoldable pub post : ℕ → Outcome Bytes
    post i = elim (get_elem? (pks c runs) i) [
      | none ↦ halt index_out_of_range
      | some pk ↦ handle_revocation_request (generate_authority c) (wire.point_to_bytes pk)
    ]

    module _ (concurrent : ℕ) (trust : Bool) where
      -- The loop acquires the semaphore and starts the next goroutine; a goroutine gets its answer.
      pub data Step : Progress → Progress → Type 0 where
        launch :
            (s : Progress)
            → s.crashed ≡ false
            → s.next < runs
            → length s.flying < concurrent
            → Step s (record s { next = suc s.next; flying = s.next ∷ s.flying })
        answered :
            (s : Progress) (before after : List ℕ) (i : ℕ) (body : Bytes)
            → s.crashed ≡ false
            → s.flying ≡ before ++ i ∷ after
            → post i ≡ ok body
            → Step s (record s {
              flying = before ++ after;
              completed = i ∷ s.completed;
              signatures = if trust then s.signatures else s.signatures ++ (body, i) ∷ [];
            })
        refused :
            (s : Progress) (before after : List ℕ) (i : ℕ) (e : Fault)
            → s.crashed ≡ false
            → s.flying ≡ before ++ i ∷ after
            → post i ≡ halt e
            → Step s (record s { crashed = true })

      pub data Steps : Progress → Progress → Type 0 where
        here : (s : Progress) → Steps s s
        then_step : (s t u : Progress) → Steps s t → Step t u → Steps s u

      -- wgRequest.Wait() returns.
      abbrev pub Finished : Progress → Type 0
      Finished s = (s.crashed ≡ false) × (s.next ≡ runs) × (s.flying ≡ [])

module _ {c : Platform} (wire : Wire c) (runs : ℕ) where
  -- The second loop: every signature in the channel is verified under its key.
  unfoldable pub verified : Bytes × ℕ → Bool
  verified signature = elim (get_elem? (pks c runs) signature.1) [
    | none ↦ false
    | some pk ↦
        let a = generate_authority c in
        wire.groth_verify a.made_with a.ys a.pk (wire.groth_from_bytes signature.0) pk a.epoch
  ]

  unfoldable pub verify_all : List (Bytes × ℕ) → Outcome (Unit {0})
  verify_all [] = ok tt
  verify_all (signature ∷ signatures) =
      let rest = verify_all signatures in if verified signature then rest else halt bad_handle

  unfoldable pub finish : Bool → Progress → Outcome (Unit {0})
  finish trust s = if trust then ok tt else verify_all s.signatures
