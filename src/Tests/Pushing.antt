-- ===== src/Tests/Pushing.antt =====
-- examples/end_to_end.py at a concrete environment, and what holds of it there.
use python_fleet_telemetry.Prelude.{
  ℕ, zero, suc, ◌≡◌, ◌≤◌, ◌<◌, ◌*◌, refl, arith, Bool, true, false, ◌==◌, nat_eq, str_eq, Option,
  none, some, [], ◌∷◌, Str, codes, if◌then◌else◌,
}
use python_fleet_telemetry.Errors.{Result, ok, raise, other, os_error}
use python_fleet_telemetry.Text.Decimal.{pos, negsuc}
use python_fleet_telemetry.Text.Integer
use python_fleet_telemetry.Text.Integer.{int, strip, lower}
use python_fleet_telemetry.Text.Address
use python_fleet_telemetry.Text.Address.{ip_address}
use python_fleet_telemetry.EndToEnd.Settings
use python_fleet_telemetry.EndToEnd.Settings.{
  Settings, Outcome, exits, fails, returns, Environ, load_settings, require, int_env, float,
  region_checked, env_flag,
}
use python_fleet_telemetry.EndToEnd.Config.{Json, object, boolean, member, end, truthy, get}
use python_fleet_telemetry.EndToEnd.Push.{
  Fleet, World, synced, response, second, deadline_at, poll, poll_until_synced, push_config, waking,
  asks, creating,
}
use python_fleet_telemetry.EndToEnd.Polling.{Ended, poll_until_synced-Polled}
use python_fleet_telemetry.Certs.Disk.{
  File, Disk, ca_cert_path, exists, mkdir, chmod_directory, call, inspect, result, try_finally,
  truncate, open_truncated, in_directory, write, close, chmod, read_bytes,
}
use python_fleet_telemetry.Certs.Disk
use python_fleet_telemetry.Certs.Issue.{
  create_ca, create_leaf, issue_leaf, write_key, write_cert, write_file, draw, ca_builder,
  leaf_builder, load_cert, load_ec_key, ec_key, san_general_names, general_name, address_names,
}
use python_fleet_telemetry.Certs.Credentials.{
  ensure, mkdir_private, ensure_ca, ca_state, need_leaf, renew_leaf, ca_certificate_pem,
}
use python_fleet_telemetry.Certs.Works.{no_faults}
use python_fleet_telemetry.Certs.Ready.{IsReady}
use python_fleet_telemetry.EndToEnd.Run.{printed, serving, served, with_ca, certificates, run}
use python_fleet_telemetry.EndToEnd.Pushed.{body_of, run-Ready}
use python_fleet_telemetry.EndToEnd.Serves.{run-Configured}
use python_fleet_telemetry.Tests.Keys.{small_crypto, small_crypto-IsLawful}
use python_fleet_telemetry.Tests.Certifying.{
  host, fresh, no_umask, ticking, host_accepted, host-IsUnscoped,
}

-- No character but the ASCII digits is a digit.
abbrev no_decimal : ℕ → Option ℕ
no_decimal c = none

integers :
    (int no_decimal (codes "  -1_000 ") ≡ some (negsuc 999))
    × (int no_decimal (codes "+12") ≡ some (pos 12))
    × (int no_decimal (codes "1__0") ≡ none)
    × (int no_decimal (codes "_1") ≡ none)
    × (int no_decimal (codes "- 1") ≡ none)
    × (int no_decimal (codes "12.5") ≡ none)
    × (int no_decimal (codes " ") ≡ none)
    × (int no_decimal (28 ∷ codes "1") ≡ none)
    × (int no_decimal (160 ∷ codes "1") ≡ some (pos 1))
unfolding int Integer.signed Integer.natural strip Integer.lstrip Integer.rstrip Address.split
    Address.number Integer.concat nat_eq str_eq
integers = (refl, refl, refl, refl, refl, refl, refl, refl, refl)

abbrev environ : Environ
environ name =
    if name == codes "TESLA_ACCESS_TOKEN"
    then some (codes "t")
    else if name == codes "TESLA_VIN"
    then some (codes "5YJ")
    else if name == codes "TELEMETRY_FQDN"
    then some host
    else if name == codes "TELEMETRY_SYNC_TIMEOUT"
    then some (codes "12")
    else if name == codes "DRY_RUN"
    then some (codes " Yes")
    else none

abbrev settings : Settings
settings = record {
  access_token = codes "t";
  region = codes "na";
  vin = codes "5YJ";
  fqdn = host;
  port = pos 443;
  cert_dir = codes "./fleet_telemetry_certs";
  sync_timeout = pos 12;
}

loaded : load_settings no_decimal environ ≡ returns settings
unfolding load_settings Settings.◌>>=◌ require int_env float region_checked int Integer.signed
    Integer.natural strip Integer.lstrip Integer.rstrip Address.split Address.number Integer.concat
    nat_eq str_eq
loaded = refl

dry : env_flag no_decimal environ (codes "DRY_RUN") ≡ true
unfolding env_flag strip lower Integer.lstrip Integer.rstrip nat_eq str_eq
dry = refl

abbrev answer : Bool → Json
answer b = object (member (codes "response") (object (member (codes "synced") (boolean b) end)) end)

-- The first call fails, the second says no, the third one yes.
abbrev answers : ℕ → Result Json
answers (suc zero) = raise os_error
answers (suc (suc zero)) = ok (answer false)
answers _ = ok (answer true)

abbrev small_fleet : Fleet
small_fleet = record {
  wake_up = raise (other 3);
  config_create = λ body. ok tt;
  config_get = answers;
  asking = λ n. 1000;
  sleep = λ n. ok (5 * second);
}

abbrev beginning : World
beginning = record { now = 50; attempts = 0; requests = [] }

waits : (n t : ℕ) → small_fleet.sleep n ≡ ok t → 5 * second ≤ t
waits n t h = let e : 5 * second ≡ t = cc in omega arith

poll_until_synced-Polled_example :
    (o : Outcome (Unit {0})) × (w' : World) × (poll_until_synced small_fleet 4 settings beginning
      ≡ some (o, w'))
    × Ended small_fleet (deadline_at 50 (pos 12)) o w'.attempts w'.now
    × (0 < w'.attempts)
    × (w'.attempts ≤ 4)
    × ((k : ℕ) → 0 < k → k < w'.attempts → synced (small_fleet.config_get k) ≡ ok false)
poll_until_synced-Polled_example =
    poll_until_synced-Polled small_fleet (5 * second) 3 waits settings beginning (omega arith)

run-Ready_example :
    (f : File) × (e : Disk) × (e.files.ca_cert ≡ some f)
    × IsReady no_umask small_crypto ticking host e.files
    × (run
          (no_faults no_umask)
          small_crypto
          ticking
          small_fleet
          no_decimal
          environ
          4
          true
          fresh
          beginning
        ≡ some (record {
          outcome = returns (printed (body_of settings f.content));
          disk = e;
          world = beginning;
        }))
    × (run
          (no_faults no_umask)
          small_crypto
          ticking
          small_fleet
          no_decimal
          environ
          4
          false
          fresh
          beginning
        ≡ served
            (no_faults no_umask)
            small_crypto
            ticking
            small_fleet
            settings
            e
            (push_config small_fleet 4 settings (body_of settings f.content) beginning))
run-Ready_example =
    run-Ready no_umask small_crypto ticking small_crypto-IsLawful small_fleet no_decimal environ
      settings loaded host_accepted host-IsUnscoped fresh tt 4 beginning

abbrev reached : Outcome Str × Disk
reached = certificates (no_faults no_umask) small_crypto ticking small_fleet host fresh

abbrev last_world : World
last_world = record {
  now = 10000003050;
  attempts = 3;
  requests = asks ∷ asks ∷ asks ∷ creating (body_of settings (0 ∷ 31 ∷ 8 ∷ [])) ∷ waking ∷ [];
}

made : reached.0 ≡ returns (0 ∷ 31 ∷ 8 ∷ [])
unfolding certificates ensure mkdir_private mkdir chmod_directory ensure_ca exists ca_state
    need_leaf renew_leaf create_ca create_leaf issue_leaf write_key write_cert write_file draw
    ca_builder leaf_builder load_cert load_ec_key ec_key san_general_names general_name
    address_names ca_certificate_pem Disk.◌>>=◌ call inspect result try_finally truncate
    open_truncated in_directory write close chmod read_bytes ip_address nat_eq str_eq Address.ipv4
    Address.ipv6_number
made = refl

pushed :
    push_config small_fleet 4 settings (body_of settings (0 ∷ 31 ∷ 8 ∷ [])) beginning
    ≡ some (returns tt, last_world)
unfolding push_config poll_until_synced poll synced response get truthy str_eq
pushed = refl

with_ca_serves :
    (x : Outcome Str × Disk)
    → x.0 ≡ returns (0 ∷ 31 ∷ 8 ∷ [])
    → with_ca (no_faults no_umask) small_crypto ticking small_fleet 4 false settings x beginning
      ≡ some (record { outcome = returns (serving settings); disk = x.1; world = last_world })
with_ca_serves (exits m, d) h = absurd cc
with_ca_serves (fails e, d) h = absurd cc
with_ca_serves (returns ca_pem, d) h =
    let e : ca_pem ≡ 0 ∷ 31 ∷ 8 ∷ [] = cc in rw e (rw pushed refl)

serves :
    run
      (no_faults no_umask)
      small_crypto
      ticking
      small_fleet
      no_decimal
      environ
      4
      false
      fresh
      beginning
    ≡ some (record { outcome = returns (serving settings); disk = reached.1; world = last_world })
unfolding run
serves = rw loaded (with_ca_serves reached made)

run-Configured_example :
    (load_settings no_decimal environ ≡ returns settings)
    × ((ca_pem : Str) × (certificates
            (no_faults no_umask)
            small_crypto
            ticking
            small_fleet
            host
            fresh
          ≡ (returns ca_pem, reached.1))
        × (small_fleet.config_create (body_of settings ca_pem) ≡ ok tt)
        × (synced (small_fleet.config_get 3) ≡ ok true))
run-Configured_example =
    run-Configured (no_faults no_umask) small_crypto ticking small_fleet no_decimal environ 4 fresh
      reached.1 beginning last_world settings serves
