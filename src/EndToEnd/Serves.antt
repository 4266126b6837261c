-- ===== src/EndToEnd/Serves.antt =====
-- When `_run` goes on to `_serve`.
use python_fleet_telemetry.Prelude.{
  ℕ, zero, suc, ◌+◌, ◌≡◌, refl, ap, subst, Option, none, some, true, false, Str, inl, inr,
  Bool-cases, leb,
}
use python_fleet_telemetry.Errors.{Result, ok, raise, Result-cases, is_exception}
use python_fleet_telemetry.Crypto.{Crypto}
use python_fleet_telemetry.Certs.Disk.{Disk, System}
use python_fleet_telemetry.EndToEnd.Settings.{
  Settings, Outcome, exits, fails, returns, Environ, load_settings,
}
use python_fleet_telemetry.EndToEnd.Config.{Json}
use python_fleet_telemetry.EndToEnd.Push.{
  Fleet, World, synced, asked, slept, did_not_sync, poll, poll_until_synced, created, woken,
  requesting, after, creating, waking, push_config,
}
use python_fleet_telemetry.EndToEnd.Run.{
  serving, Ran, served, with_settings, with_ca, certificates, run,
}
use python_fleet_telemetry.EndToEnd.Pushed.{body_of}

module _ (fleet : Fleet) where
  -- The poll returns only after an attempt that says `synced`.
  poll-synced :
      (fuel deadline : ℕ) (w w' : World)
      → poll fleet fuel deadline w ≡ some (returns tt, w')
      → synced (fleet.config_get w'.attempts) ≡ ok true
  unfolding poll
  poll-synced zero deadline w w' h = absurd cc
  poll-synced (suc fuel) deadline w w' h =
      elim (Result-cases (synced (fleet.config_get (suc w.attempts)))) [
        | inr (e, failed) ↦
            let stopped : some (fails e, asked fleet w) ≡ some (returns tt, w') =
              rw (failed, poll) at h in
            absurd cc
        | inl (true, said) ↦
            let stopped : some (returns tt, asked fleet w) ≡ some (returns tt, w') =
              rw (said, poll) at h in
            let same : asked fleet w ≡ w' = cc in rw (← same) said
        | inl (false, said) ↦
            elim (Bool-cases (leb deadline (w.now + fleet.asking (suc w.attempts)))) [
              | inl late ↦
                  let stopped : some (exits did_not_sync, asked fleet w) ≡ some (returns tt, w') =
                    rw (said, late, poll) at h in
                  absurd cc
              | inr early ↦ elim (Result-cases (fleet.sleep (suc w.attempts))) [
                | inr (e, broken) ↦
                    let stopped : some (fails e, asked fleet w) ≡ some (returns tt, w') =
                      rw (said, early, broken, poll) at h in
                    absurd cc
                | inl (t, woke) ↦
                    let goes_on : poll fleet fuel deadline (slept fleet t (asked fleet w))
                        ≡ some (returns tt, w') =
                      rw (said, early, woke, poll) at h in
                    poll-synced fuel deadline (slept fleet t (asked fleet w)) w' goes_on
              ]
            ]
      ]

  after-returns :
      (o : Outcome (Unit {0})) (w : World) (next : World → Option (Outcome (Unit {0}) × World))
      (w' : World)
      → after fleet o w next ≡ some (returns tt, w')
      → (o ≡ returns tt) × (next w ≡ some (returns tt, w'))
  after-returns (exits m) w next w' h = absurd cc
  after-returns (fails e) w next w' h = absurd cc
  after-returns (returns tt) w next w' h = (refl, h)

  created-returns : (r : Result (Unit {0})) → created fleet r ≡ returns tt → r ≡ ok tt
  created-returns (ok tt) h = refl
  created-returns (raise e) h = elim (Bool-cases (is_exception e)) [
    | inl yes_ ↦ let stopped : exits _ ≡ returns tt = rw yes_ at h in absurd cc
    | inr no_ ↦ let stopped : fails e ≡ returns tt = rw no_ at h in absurd cc
  ]

  push_config-synced :
      (fuel : ℕ) (s : Settings) (body : Json) (w w' : World)
      → push_config fleet fuel s body w ≡ some (returns tt, w')
      → (fleet.config_create body ≡ ok tt) × (synced (fleet.config_get w'.attempts) ≡ ok true)
  unfolding push_config poll_until_synced
  push_config-synced fuel s body w w' h =
      let (_, h1) = after-returns (woken fleet fleet.wake_up) (requesting fleet waking w) _ w' h in
      let (made, h2) =
        after-returns (created fleet (fleet.config_create body))
          (requesting fleet (creating body) (requesting fleet waking w)) _ w' h1 in
      (created-returns (fleet.config_create body) made, poll-synced fuel _ _ w' h2)

module _ (system : System) (crypto : Crypto) (clock : ℕ → ℕ) (fleet : Fleet) where
  abbrev Serving : Settings → Disk → World → Option Ran → Type 0
  Serving s e w' r = r ≡ some (record { outcome = returns (serving s); disk = e; world = w' })

  served-Serving :
      (settings s : Settings) (d e : Disk) (w' : World) (o : Option (Outcome (Unit {0}) × World))
      → Serving s e w' (served system crypto clock fleet settings d o)
      → (o ≡ some (returns tt, w')) × (settings ≡ s) × (d ≡ e)
  served-Serving settings s d e w' none h = absurd cc
  served-Serving settings s d e w' (some (exits m, w)) h = absurd cc
  served-Serving settings s d e w' (some (fails x, w)) h = absurd cc
  served-Serving settings s d e w' (some (returns tt, w)) h =
      let same : w ≡ w' = cc in (rw same refl, cc, cc)

  -- What has happened where `_run` serves.
  abbrev pub Configured : Settings → Outcome Str × Disk → Disk → World → Type 0
  Configured s reached e w' =
      (ca_pem : Str) × (reached ≡ (returns ca_pem, e))
      × (fleet.config_create (body_of s ca_pem) ≡ ok tt)
      × (synced (fleet.config_get w'.attempts) ≡ ok true)

  with_ca-Configured :
      (fuel : ℕ) (settings s : Settings) (reached : Outcome Str × Disk) (w w' : World) (e : Disk)
      → Serving s e w' (with_ca system crypto clock fleet fuel false settings reached w)
      → (settings ≡ s) × Configured settings reached e w'
  with_ca-Configured fuel settings s (exits m, d) w w' e h = absurd cc
  with_ca-Configured fuel settings s (fails x, d) w w' e h = absurd cc
  with_ca-Configured fuel settings s (returns ca_pem, d) w w' e h =
      let (pushed, same, there) =
        served-Serving settings s d e w'
          (push_config fleet fuel settings (body_of settings ca_pem) w) h in
      let (made, said) =
        push_config-synced fleet fuel settings (body_of settings ca_pem) w w' pushed in
      (same, (ca_pem, rw there refl, made, said))

  with_settings-Configured :
      (fuel : ℕ) (loaded : Outcome Settings) (s : Settings) (d e : Disk) (w w' : World)
      → Serving s e w' (with_settings system crypto clock fleet fuel false loaded d w)
      → (loaded ≡ returns s) × Configured s (certificates system crypto clock fleet s.fqdn d) e w'
  with_settings-Configured fuel (exits m) s d e w w' h = absurd cc
  with_settings-Configured fuel (fails x) s d e w w' h = absurd cc
  with_settings-Configured fuel (returns settings) s d e w w' h =
      let (same, configured) =
        with_ca-Configured fuel settings s (certificates system crypto clock fleet settings.fqdn d)
          w w' e h in
      (
        ap returns same,
        subst (λ x. Configured x (certificates system crypto clock fleet x.fqdn d) e w') same
            configured,
      )

  -- Whatever calls of the system and of the API fail, `_run` goes on with `_serve` only where the
  -- settings loaded, the certificates were made and the CA read, the API accepted a body with that
  -- CA, and the last attempt of the poll said `synced`.
  pub run-Configured :
      (decimal : ℕ → Option ℕ) (environ : Environ) (fuel : ℕ) (d e : Disk) (w w' : World)
      (s : Settings)
      → run system crypto clock fleet decimal environ fuel false d w
        ≡ some (record { outcome = returns (serving s); disk = e; world = w' })
      → (load_settings decimal environ ≡ returns s)
        × ((ca_pem : Str) × (certificates system crypto clock fleet s.fqdn d ≡ (returns ca_pem, e))
            × (fleet.config_create (body_of s ca_pem) ≡ ok tt)
            × (synced (fleet.config_get w'.attempts) ≡ ok true))
  unfolding run
  run-Configured decimal environ fuel d e w w' s h =
      with_settings-Configured fuel (load_settings decimal environ) s d e w w' h
