-- ===== src/Revocation/Requests.antt =====
-- What every run of the client does.
pub mod Times
use mathlib.Core.Bool.{not}
use mathlib.Core.Path.{subst}
use fabric_simulator.Prelude.{
  ℕ, zero, suc, ◌+◌, ◌-◌, ◌*◌, ◌≡◌, ◌≢◌, ◌≤◌, ◌<◌, refl, sym, ap, ◌∙◌, Bool, true, false,
  Bool-cases, Option, none, some, Option-cases, List, [], ◌∷◌, ◌++◌, map, length, get_elem?,
  get_elem?_within, map-append, ltb, ◌==◌, arith, if◌then◌else◌,
}
use fabric_simulator.Platform.{Platform, Bytes}
use fabric_simulator.Exec.{Fault, Outcome, ok, halt}
use fabric_simulator.Helpers.Bounds.{All, All-append}
use Times.{times, times-append, times-remove, length-remove, All-remove}
use fabric_simulator.Distributed.Wire.{Wire}
use fabric_simulator.Distributed.Wire.Laws.{Faithful}
use fabric_simulator.Revocation.{
  Authority, generate_authority, handle_revocation_request, client_keys, Progress, nothing_yet, pks,
  post, Step, launch, answered, refused, Steps, here, then_step, Finished, verified,
}

-- The documented behaviour of the library: a marshalled point is a point, and a signature of the
-- authority verifies.
pub record Signs {c : Platform} (wire : Wire c) (point_ok : Bytes → Bool) : Type 0 where
  pub points : (x : c.Pk) → point_ok (wire.point_to_bytes x) ≡ true
  pub verifies :
      (prg prg' : c.Rand) (ys : c.YsRow) (pk : c.Pk) (epoch : ℕ)
      → wire.groth_verify prg ys
          (c.groth_generate prg ys).1
          (c.sign_non_revoke prg' (c.groth_generate prg ys).0 pk epoch ys)
          pk
          epoch
        ≡ true

length-client_keys : (c : Platform) (n : ℕ) (prg : c.Rand) → length (client_keys c n prg) ≡ n
unfolding client_keys
length-client_keys c zero prg = refl
length-client_keys c (suc n) prg = ap suc (length-client_keys c n _)

module _ {c : Platform} (wire : Wire c) (runs concurrent : ℕ) (trust : Bool) where
  -- What holds all along: no goroutine has failed, at most `concurrent` requests are in flight,
  -- each request that was started is in flight or done, once, each that is done has its signature in
  -- the channel unless the client trusts the server, and what is in the channel verifies.
  pub record Sound (s : Progress) : Type 0 where
    pub alive : s.crashed ≡ false
    pub few : length s.flying ≤ concurrent
    pub bounded : s.next ≤ runs
    pub in_range : All (λ i. i < runs) s.flying
    pub once : (i : ℕ) → times i s.flying + times i s.completed ≡ (if ltb i s.next then 1 else 0)
    pub good : All (λ sig. verified wire runs sig ≡ true) s.signatures
    pub delivered :
        (i : ℕ)
        → times i (map (λ sig. sig.1) s.signatures) ≡ (if trust then 0 else times i s.completed)

  module _ (point_ok : Bytes → Bool) (faithful : Faithful wire) (signs : Signs wire point_ok) where
    key_lem : (i : ℕ) → i < runs → (pk : c.Pk) × (get_elem? (pks c runs) i ≡ some pk)
    unfolding pks
    key_lem i h =
        get_elem?_within (pks c runs) i
          (omega (arith, length-client_keys c runs (c.seed_rand (20 ∷ []))))

    post-some :
        (i : ℕ) (pk : c.Pk)
        → get_elem? (pks c runs) i ≡ some pk
        → (body : Bytes) × (post wire point_ok runs i ≡ ok body)
          × (verified wire runs (body, i) ≡ true)
    unfolding post verified handle_revocation_request generate_authority
    post-some i pk e =
        let a = generate_authority c in
        let signature = c.sign_non_revoke (c.seed_rand (21 ∷ [])) a.sk pk a.epoch a.ys in
        (
          wire.groth_to_bytes signature,
          rw (post, e, signs.points pk, faithful.point pk) refl,
          rw (verified, e, faithful.groth signature) (signs.verifies _ _ _ pk 5),
        )

    -- A request in flight is answered with a signature that verifies.
    post_lem :
        (i : ℕ)
        → i < runs
        → (body : Bytes) × (post wire point_ok runs i ≡ ok body)
          × (verified wire runs (body, i) ≡ true)
    post_lem i h = let (pk, e) = key_lem i h in post-some i pk e

    sent_good :
        (b : Bool) (sent : List (Bytes × ℕ)) (new : Bytes × ℕ)
        → All (λ sig. verified wire runs sig ≡ true) sent
        → verified wire runs new ≡ true
        → All (λ sig. verified wire runs sig ≡ true) (if b then sent else sent ++ new ∷ [])
    sent_good true sent new h g = h
    sent_good false sent new h g = All-append _ sent (new ∷ []) h (g, tt)

    sent_times :
        (b : Bool) (j : ℕ) (sent : List (Bytes × ℕ)) (new : Bytes × ℕ) (completed : List ℕ)
        → times j (map (λ sig. sig.1) sent) ≡ (if b then 0 else times j completed)
        → times j (map (λ sig. sig.1) (if b then sent else sent ++ new ∷ []))
          ≡ (if b then 0 else times j (new.1 ∷ completed))
    unfolding times
    sent_times true j sent new completed h = h
    sent_times false j sent new completed h =
        rw
          (
            map-append (λ (sig : Bytes × ℕ). sig.1) sent (new ∷ []),
            times-append j (map (λ sig. sig.1) sent) (new.1 ∷ []),
          )
          (ground (arith, h))

    launch-Sound :
        (s : Progress)
        → s.next < runs
        → length s.flying < concurrent
        → Sound s
        → Sound (record s { next = suc s.next; flying = s.next ∷ s.flying })
    unfolding times
    launch-Sound s h l sound = record {
      alive = sound.alive;
      few = omega arith;
      bounded = omega arith;
      in_range = (h, sound.in_range);
      once = λ i. ground (arith, sound.once i);
      good = sound.good;
      delivered = sound.delivered;
    }

    answered-Sound :
        (s : Progress) (before after : List ℕ) (i : ℕ) (body : Bytes)
        → s.flying ≡ before ++ i ∷ after
        → post wire point_ok runs i ≡ ok body
        → Sound s
        → Sound (record s {
          flying = before ++ after;
          completed = i ∷ s.completed;
          signatures = if trust then s.signatures else s.signatures ++ (body, i) ∷ [];
        })
    unfolding times
    answered-Sound s before after i body e replied sound =
        let (i_range, rest) =
          All-remove (λ j. j < runs) before after i
            (subst (All (λ j. j < runs)) e sound.in_range) in
        let (body', replied', verifies) = post_lem i i_range in
        let same = ok-eq (sym replied' ∙ replied) in
        let checks = subst (λ b. verified wire runs (b, i) ≡ true) same verifies in
        record {
          alive = sound.alive;
          few = omega (arith, length-remove i before after, ap length e, sound.few);
          bounded = sound.bounded;
          in_range = rest;
          once = λ j. ground (arith, sound.once j, ap (times j) e, times-remove j i before after);
          good = sent_good trust s.signatures (body, i) sound.good checks;
          delivered =
              λ j. sent_times trust j s.signatures (body, i) s.completed (sound.delivered j);
        }
      where
        ok-eq : {a b : Bytes} → ok a ≡ ok b → a ≡ b
        ok-eq h = cc

    Step-Sound : {s t : Progress} → Step wire point_ok runs concurrent trust s t → Sound s → Sound t
    Step-Sound (launch s alive h l) sound = launch-Sound s h l sound
    Step-Sound (answered s before after i body alive e replied) sound =
        answered-Sound s before after i body e replied sound
    Step-Sound (refused s before after i fault alive e replied) sound =
        let (i_range, rest) =
          All-remove (λ j. j < runs) before after i
            (subst (All (λ j. j < runs)) e sound.in_range) in
        let (body, replied', verifies) = post_lem i i_range in
        absurd (never (sym replied' ∙ replied))
      where
        never : {a : Bytes} {f : Fault} → ok a ≢ halt f
        never h = cc

    start-Sound : Sound nothing_yet
    unfolding times
    start-Sound = record {
      alive = refl;
      few = omega arith;
      bounded = omega arith;
      in_range = tt;
      once = λ i. ground arith;
      good = tt;
      delivered = λ i. ground (arith, Bool-cases trust);
    }

    Steps-Sound :
        {s t : Progress} → Steps wire point_ok runs concurrent trust s t → Sound s → Sound t
    Steps-Sound (here s) h = h
    Steps-Sound (then_step s t u steps step) h = Step-Sound step (Steps-Sound steps h)

    Completes : Progress → Type 0
    Completes s =
        (t : Progress) × Steps wire point_ok runs concurrent trust s t
        × Finished wire point_ok runs concurrent trust t

    -- The work that is left: two steps for a request that is not started, one for one in flight.
    abbrev work : Progress → ℕ
    work s = (runs - s.next) * 2 + length s.flying

    -- If the wire is faithful and the library verifies the authority's signatures, then in every run no
    -- goroutine fails, at most `concurrent` requests are in flight, each started request is in flight
    -- or done, once, and every signature in the channel verifies.
    pub Steps-start-Sound :
        (s : Progress) → Steps wire point_ok runs concurrent trust nothing_yet s → Sound s
    Steps-start-Sound s steps = Steps-Sound steps start-Sound
