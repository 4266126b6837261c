-- ===== src/EndToEnd/Polling.antt =====
-- How `_poll_until_synced` of examples/end_to_end.py ends.
use native.Mathlib.Decide.{ℕ_discrete}
use python_fleet_telemetry.Prelude.{
  ℕ, zero, suc, ◌+◌, ◌*◌, ◌≤◌, ◌<◌, ◌≡◌, refl, ◌∙◌, ◌⊎◌, inl, inr, arith, true, false, some,
  Bool-cases, leb,
}
use python_fleet_telemetry.Errors.{ok, raise, Result-cases}
use python_fleet_telemetry.Text.Decimal.{ℤ, pos, negsuc}
use python_fleet_telemetry.EndToEnd.Settings.{Settings, Outcome, exits, fails, returns}
use python_fleet_telemetry.EndToEnd.Push.{
  Fleet, World, did_not_sync, synced, asked, slept, deadline_at, second, poll, poll_until_synced,
}

-- The nanoseconds of a timeout; one below zero has none.
abbrev pub timeout : ℤ → ℕ
timeout (pos n) = n * second
timeout (negsuc n) = 0

module _ (fleet : Fleet) (deadline : ℕ) where
  -- How the loop ends after the attempt `n`, at the time `now`.
  abbrev pub Ended : Outcome (Unit {0}) → ℕ → ℕ → Type 0
  Ended (returns _) n now = synced (fleet.config_get n) ≡ ok true
  Ended (exits m) n now = (synced (fleet.config_get n) ≡ ok false) × (deadline ≤ now)
  Ended (fails e) n now = (synced (fleet.config_get n) ≡ raise e) ⊎ (fleet.sleep n ≡ raise e)

  -- From `w` the loop ends after at most `bound` attempts, none of which but the last one says
  -- `synced`.
  pub record Polled (fuel bound : ℕ) (w : World) : Type 0 where
    pub outcome : Outcome (Unit {0})
    pub world : World
    pub runs : poll fleet fuel deadline w ≡ some (outcome, world)
    pub ended : Ended outcome world.attempts world.now
    pub some_attempt : w.attempts < world.attempts
    pub bounded : world.attempts ≤ w.attempts + bound
    pub not_before :
        (k : ℕ) → w.attempts < k → k < world.attempts → synced (fleet.config_get k) ≡ ok false

  module _ (least : ℕ) (waits : (n t : ℕ) → fleet.sleep n ≡ ok t → least ≤ t) where
    -- The first attempt is the last one.
    at_once :
        (f : ℕ) (w : World) (o : Outcome (Unit {0}))
        → poll fleet (suc f) deadline w ≡ some (o, asked fleet w)
        → Ended o (suc w.attempts) (w.now + fleet.asking (suc w.attempts))
        → Polled (suc f) (suc f) w
    at_once f w o runs ended = record {
      outcome = o;
      world = asked fleet w;
      runs = runs;
      ended = ended;
      some_attempt = omega arith;
      bounded = omega arith;
      not_before = λ k p q. absurd (omega arith);
    }

    -- The loop goes on after an attempt that does not say `synced`.
    goes_on :
        (f t : ℕ) (w : World)
        → poll fleet (suc f) deadline w ≡ poll fleet f deadline (slept fleet t (asked fleet w))
        → synced (fleet.config_get (suc w.attempts)) ≡ ok false
        → Polled f f (slept fleet t (asked fleet w))
        → Polled (suc f) (suc f) w
    goes_on f t w step no_ p = record {
      outcome = p.outcome;
      world = p.world;
      runs = step ∙ p.runs;
      ended = p.ended;
      some_attempt = omega (arith, p.some_attempt);
      bounded = omega (arith, p.bounded);
      not_before = λ k above below. elim (ℕ_discrete k (suc w.attempts)) [
        | yes e ↦ rw e no_
        | no ne ↦ p.not_before k (ground arith) below
      ];
    }

    -- After an attempt that returns `false` the loop stops at the deadline, and otherwise sleeps.
    said_no :
        (f : ℕ) (w : World)
        → synced (fleet.config_get (suc w.attempts)) ≡ ok false
        → ((t : ℕ)
            → w.now + fleet.asking (suc w.attempts) < deadline
            → fleet.sleep (suc w.attempts) ≡ ok t
            → Polled f f (slept fleet t (asked fleet w)))
        → Polled (suc f) (suc f) w
    unfolding poll
    said_no f w said rest =
        elim (Bool-cases (leb deadline (w.now + fleet.asking (suc w.attempts)))) [
          | inl late ↦
              at_once f w (exits did_not_sync) (rw (poll, said, late) refl) (said, ground arith)
          | inr early ↦ elim (Result-cases (fleet.sleep (suc w.attempts))) [
            | inr (e, broken) ↦
                at_once f w (fails e) (rw (poll, said, early, broken) refl) (inr broken)
            | inl (t, woke) ↦
                goes_on f t w (rw (poll, said, early, woke) refl) said (rest t (ground arith) woke)
          ]
        ]

    one_attempt :
        (f : ℕ) (w : World)
        → ((t : ℕ)
            → w.now + fleet.asking (suc w.attempts) < deadline
            → fleet.sleep (suc w.attempts) ≡ ok t
            → Polled f f (slept fleet t (asked fleet w)))
        → Polled (suc f) (suc f) w
    unfolding poll
    one_attempt f w rest = elim (Result-cases (synced (fleet.config_get (suc w.attempts)))) [
      | inr (e, failed) ↦ at_once f w (fails e) (rw (poll, failed) refl) (inl failed)
      | inl (true, said) ↦ at_once f w (returns tt) (rw (poll, said) refl) said
      | inl (false, said) ↦ said_no f w said rest
    ]

    pub poll-Polled : (f : ℕ) (w : World) → deadline ≤ w.now + f * least → Polled (suc f) (suc f) w
    poll-Polled zero w h = one_attempt zero w (λ t early woke. absurd (omega arith))
    poll-Polled (suc g) w h = one_attempt (suc g) w λ t early woke.
        poll-Polled g (slept fleet t (asked fleet w)) (omega (arith, waits (suc w.attempts) t woke))

-- `_poll_until_synced`, where a sleep that returns has taken at least `least`, and `rounds` of
-- these cover the timeout (any number does for a timeout that is not positive): it ends after at
-- least one and at most `rounds + 1` attempts. It returns only if its last attempt said `synced`,
-- and exits only if that said no and the deadline has passed; any other exception is the one of the
-- last attempt or of the sleep after it. No attempt before the last one said `synced`.
pub poll_until_synced-Polled :
    (fleet : Fleet) (least rounds : ℕ)
    → ((n t : ℕ) → fleet.sleep n ≡ ok t → least ≤ t)
    → (settings : Settings) (w : World) → timeout settings.sync_timeout ≤ rounds * least
    → (o : Outcome (Unit {0})) × (w' : World) × (poll_until_synced fleet (suc rounds) settings w
        ≡ some (o, w'))
      × Ended fleet (deadline_at w.now settings.sync_timeout) o w'.attempts w'.now
      × (0 < w'.attempts)
      × (w'.attempts ≤ suc rounds)
      × ((k : ℕ) → 0 < k → k < w'.attempts → synced (fleet.config_get k) ≡ ok false)
unfolding poll_until_synced
poll_until_synced-Polled fleet least rounds waits settings w h =
    let p =
      poll-Polled fleet (deadline_at w.now settings.sync_timeout) least waits rounds
        (record w { attempts = 0 }) (covered settings.sync_timeout h) in
    (p.outcome, p.world, p.runs, p.ended, p.some_attempt, omega (arith, p.bounded), p.not_before)
  where
    covered : (n : ℤ) → timeout n ≤ rounds * least → deadline_at w.now n ≤ w.now + rounds * least
    covered (pos n) h = omega arith
    covered (negsuc n) h = omega arith
