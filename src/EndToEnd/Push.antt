-- ===== src/EndToEnd/Push.antt =====
-- examples/end_to_end.py: `_push_config` and `_poll_until_synced`.
use python_fleet_telemetry.Prelude.{
  ℕ, zero, suc, ◌+◌, ◌-◌, ◌*◌, Bool, true, false, Option, none, some, List, ◌∷◌, Str, codes, leb,
  if◌then◌else◌,
}
use python_fleet_telemetry.Errors.{Error, Result, ok, raise, other, is_exception, ◌>>=◌}
use python_fleet_telemetry.Text.Decimal.{ℤ, pos, negsuc}
use python_fleet_telemetry.EndToEnd.Settings.{Settings, Outcome, exits, fails, returns}
use python_fleet_telemetry.EndToEnd.Config.{Json, object, Members, end, truthy, get}

-- What `tesla_fleet_api` and `asyncio.sleep` answer: `config_get` and `sleep` by the number of the
-- attempt, the first one 1, with the nanoseconds that they take.
pub record Fleet : Type 0 where
  pub wake_up : Result (Unit {0})
  pub config_create : Json → Result (Unit {0})
  pub config_get : ℕ → Result Json
  pub asking : ℕ → ℕ
  pub sleep : ℕ → Result ℕ

pub data Request : Type 0 where
  waking asks : Request
  creating : Json → Request

-- `time.monotonic()` in nanoseconds, the attempts of the poll, and the requests to the API so far,
-- the last one first.
pub record World : Type 0 where
  pub now : ℕ
  pub attempts : ℕ
  pub requests : List Request

-- `AttributeError`
abbrev pub attribute_error : Error
attribute_error = other 1

-- `result.get("response", {}) or {}`, of which `get` is called next
abbrev pub members_or : Json → Result Members
members_or (object ms) = ok ms
members_or v = if truthy v then raise attribute_error else ok end

abbrev pub response_or : Option Json → Result Members
response_or none = ok end
response_or (some v) = members_or v

unfoldable pub response : Result Json → Result Members
response (raise e) = if is_exception e then ok end else raise e
response (ok (object ms)) = response_or (get ms (codes "response"))
response (ok v) = raise attribute_error

abbrev pub truthy_or_none : Option Json → Bool
truthy_or_none none = false
truthy_or_none (some v) = truthy v

-- whether an answer says `synced`
unfoldable pub synced : Result Json → Result Bool
unfolding response
synced answer = response answer >>= λ ms. ok (truthy_or_none (get ms (codes "synced")))

abbrev pub did_not_sync : Str
did_not_sync = codes "error: config did not sync"

abbrev pub second : ℕ
second = 1000000000

-- `time.monotonic() + sync_timeout`. A deadline before 0 has passed just as 0 has.
abbrev pub deadline_at : ℕ → ℤ → ℕ
deadline_at now (pos n) = now + n * second
deadline_at now (negsuc n) = now - suc n * second

module _ (fleet : Fleet) where
  -- one call of `fleet_telemetry_config_get`
  abbrev pub asked : World → World
  asked w = record {
    now = w.now + fleet.asking (suc w.attempts);
    attempts = suc w.attempts;
    requests = asks ∷ w.requests;
  }

  abbrev pub slept : ℕ → World → World
  slept t w = record w { now = w.now + t }

  -- The loop; `none` is out of fuel.
  unfoldable pub poll : ℕ → ℕ → World → Option (Outcome (Unit {0}) × World)
  unfolding synced
  poll zero deadline w = none
  poll (suc fuel) deadline w =
      let w' = asked w in
      elim (synced (fleet.config_get w'.attempts)) [
        | raise e ↦ some (fails e, w')
        | ok done ↦ elim done [
          | true ↦ some (returns tt, w')
          | false ↦ elim (leb deadline w'.now) [
            | true ↦ some (exits did_not_sync, w')
            | false ↦ elim (fleet.sleep w'.attempts) [
              | raise e ↦ some (fails e, w')
              | ok t ↦ poll fuel deadline (slept t w')
            ]
          ]
        ]
      ]

  -- `_poll_until_synced`
  unfoldable pub poll_until_synced : ℕ → Settings → World → Option (Outcome (Unit {0}) × World)
  poll_until_synced fuel settings w =
      poll fuel (deadline_at w.now settings.sync_timeout) (record w { attempts = 0 })

  -- the wake-up, whose exceptions are logged
  abbrev pub woken : Result (Unit {0}) → Outcome (Unit {0})
  woken (ok _) = returns tt
  woken (raise e) = if is_exception e then returns tt else fails e

  abbrev pub created : Result (Unit {0}) → Outcome (Unit {0})
  created (ok _) = returns tt
  created (raise e) =
      if is_exception e then exits (codes "error: fleet_telemetry_config push failed") else fails e

  abbrev pub requesting : Request → World → World
  requesting r w = record w { requests = r ∷ w.requests }

  -- The rest of a function, which an outcome other than a value skips.
  abbrev pub after :
      Outcome (Unit {0})
      → World
      → (World → Option (Outcome (Unit {0}) × World))
      → Option (Outcome (Unit {0}) × World)
  after (exits message) w next = some (exits message, w)
  after (fails e) w next = some (fails e, w)
  after (returns _) w next = next w

  -- `_push_config`
  unfoldable pub push_config : ℕ → Settings → Json → World → Option (Outcome (Unit {0}) × World)
  unfolding poll_until_synced
  push_config fuel settings body w = after (woken fleet.wake_up) (requesting waking w) λ w'.
      after (created (fleet.config_create body)) (requesting (creating body) w')
        λ w''. poll_until_synced fuel settings w''
