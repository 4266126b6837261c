-- ===== src/EndToEnd/Run.antt =====
-- examples/end_to_end.py: `_run` up to `_serve`, and `main`.
use python_fleet_telemetry.Prelude.{ℕ, [], Bool, true, false, ◌||◌, Option, none, some, Str, codes}
use python_fleet_telemetry.Crypto.{Crypto}
use python_fleet_telemetry.Certs.Disk
use python_fleet_telemetry.Certs.Disk.{Disk, System}
use python_fleet_telemetry.Certs.Credentials.{default_ca_common_name, ca_certificate_pem, ensure}
use python_fleet_telemetry.EndToEnd.Settings.{
  Settings, Outcome, exits, fails, returns, lift, Environ, load_settings, env_flag,
}
use python_fleet_telemetry.EndToEnd.Config.{Json, default_fields, build_config_body}
use python_fleet_telemetry.EndToEnd.Push.{Fleet, World, push_config}

-- How far `_run` came: it printed the body, or goes on with `_serve`.
pub data Reached : Type 0 where
  printed : Json → Reached
  serving : Settings → Reached

-- The outcome, the directory of the certificates, which is `settings.cert_dir`, and the requests.
pub record Ran : Type 0 where
  pub outcome : Outcome Reached
  pub disk : Disk
  pub world : World

module _ (system : System) (crypto : Crypto) (clock : ℕ → ℕ) (fleet : Fleet) where
  abbrev pub served : Settings → Disk → Option (Outcome (Unit {0}) × World) → Option Ran
  served settings d none = none
  served settings d (some (exits message, w)) =
      some (record { outcome = exits message; disk = d; world = w })
  served settings d (some (fails e, w)) = some (record { outcome = fails e; disk = d; world = w })
  served settings d (some (returns _, w)) =
      some (record { outcome = returns (serving settings); disk = d; world = w })

  -- once the CA is read
  abbrev pub with_body : ℕ → Bool → Settings → Json → Disk → World → Option Ran
  with_body fuel true settings body d w =
      some (record { outcome = returns (printed body); disk = d; world = w })
  with_body fuel false settings body d w =
      served settings d (push_config fleet fuel settings body w)

  abbrev pub with_ca : ℕ → Bool → Settings → Outcome Str × Disk → World → Option Ran
  with_ca fuel dry_run settings (exits message, d) w =
      some (record { outcome = exits message; disk = d; world = w })
  with_ca fuel dry_run settings (fails e, d) w =
      some (record { outcome = fails e; disk = d; world = w })
  with_ca fuel dry_run settings (returns ca_pem, d) w =
      with_body fuel dry_run settings
        (build_config_body settings.vin settings.fqdn settings.port ca_pem default_fields) d w

  -- `creds.ensure` and then `creds.ca_certificate_pem`
  unfoldable pub certificates : Str → Disk → Outcome Str × Disk
  certificates fqdn d =
      let (r, d') =
        Disk.◌>>=◌ (ensure system crypto clock default_ca_common_name fqdn [])
          (λ _. ca_certificate_pem system) d in
      (lift r, d')

  abbrev pub with_settings : ℕ → Bool → Outcome Settings → Disk → World → Option Ran
  with_settings fuel dry_run (exits message) d w =
      some (record { outcome = exits message; disk = d; world = w })
  with_settings fuel dry_run (fails e) d w =
      some (record { outcome = fails e; disk = d; world = w })
  with_settings fuel dry_run (returns settings) d w =
      with_ca fuel dry_run settings (certificates settings.fqdn d) w

  -- `_run`
  unfoldable pub run : (ℕ → Option ℕ) → Environ → ℕ → Bool → Disk → World → Option Ran
  unfolding certificates
  run decimal environ fuel dry_run d w =
      with_settings fuel dry_run (load_settings decimal environ) d w

  -- `main`, by whether `--dry-run` is given
  unfoldable pub main : (ℕ → Option ℕ) → Environ → ℕ → Bool → Disk → World → Option Ran
  unfolding run
  main decimal environ fuel dry_run d w =
      run decimal environ fuel (dry_run || env_flag decimal environ (codes "DRY_RUN")) d w
