-- ===== src/EndToEnd/Pushed.antt =====
-- What `_run` pushes to the vehicle and when it goes on to serve.
use python_fleet_telemetry.Prelude.{
  ℕ, suc, ◌≡◌, refl, ap, ◌∙◌, Option, none, some, true, false, [], Str,
}
use python_fleet_telemetry.Errors.{Result, ok, raise}
use python_fleet_telemetry.Crypto.{Crypto, IsLawful}
use python_fleet_telemetry.Certs.Disk
use python_fleet_telemetry.Certs.Disk.{
  File, Files, Disk, System, Action, proceed, ca_cert_path, result, inspect, call, exists,
  read_bytes,
}
use python_fleet_telemetry.Certs.Credentials.{default_ca_common_name, ca_certificate_pem, ensure}
use python_fleet_telemetry.Certs.Works.{no_faults, files_of}
use python_fleet_telemetry.Certs.Ready.{ReadyFiles, IsSound, IsReady, IsUnscoped, Accepts}
use python_fleet_telemetry.Certs.Ensure.{ensure-IsReady}
use python_fleet_telemetry.EndToEnd.Settings.{Settings, returns, lift, Environ, load_settings}
use python_fleet_telemetry.EndToEnd.Config.{Json, default_fields, build_config_body}
use python_fleet_telemetry.EndToEnd.Push.{Fleet, World, push_config}
use python_fleet_telemetry.EndToEnd.Run.{printed, served, certificates, run}
use python_fleet_telemetry.EndToEnd.Valid.{load_settings-IsUsable}

-- The body that carries a CA.
abbrev pub body_of : Settings → Str → Json
body_of s ca_pem = build_config_body s.vin s.fqdn s.port ca_pem default_fields

proceed-ok :
    {A B : Type 0} (reached : Result A × Disk) (next : A → Action B) {a : A}
    → reached.0 ≡ ok a
    → proceed reached next ≡ next a reached.1
proceed-ok (ok b, d) next h = let e : b ≡ _ = cc in rw e refl
proceed-ok (raise x, d) next h = absurd cc

module _ (created : ℕ → ℕ) (crypto : Crypto) (clock : ℕ → ℕ) where
  -- The CA of a ready directory is read.
  ca_pem-ready :
      (fqdn : Str) (ck kk sc sk : Option File) (m : Option ℕ) (c n : ℕ)
      → ReadyFiles created crypto clock fqdn ck kk sc sk
      → (f : File) × (ck ≡ some f)
        × (ca_certificate_pem
              (no_faults created)
              (record { directory = m; files = files_of ck kk sc sk; calls = c; drawn = n })
            ≡ (
              ok f.content,
              record {
                directory = m;
                files = files_of ck kk sc sk;
                calls = suc (suc c);
                drawn = n;
              },
            ))
  unfolding ca_certificate_pem exists read_bytes call inspect result Disk.◌>>=◌
  ca_pem-ready fqdn (some f) kk sc sk m c n h = (f, refl, refl)
  ca_pem-ready fqdn none kk sc sk m c n h = absurd h

  module _ (lawful : IsLawful crypto) (fleet : Fleet) (decimal : ℕ → Option ℕ) (environ : Environ)
      (settings : Settings) (loaded : load_settings decimal environ ≡ returns settings)
      (accepts : Accepts created crypto clock default_ca_common_name settings.fqdn [])
      (unscoped : IsUnscoped created crypto clock accepts.names) where
    certificates-IsReady :
        (d : Disk)
        → IsSound created crypto clock d.files
        → (f : File) × (e : Disk) × (certificates
              (no_faults created)
              crypto
              clock
              fleet
              settings.fqdn
              d
            ≡ (returns f.content, e))
          × (e.files.ca_cert ≡ some f)
          × IsReady created crypto clock settings.fqdn e.files
    unfolding certificates Disk.◌>>=◌
    certificates-IsReady d sound =
        let (_, _, _, nonempty) = load_settings-IsUsable decimal environ settings loaded in
        let (done, _, ready) =
          ensure-IsReady created crypto clock lawful default_ca_common_name settings.fqdn [] accepts
            unscoped nonempty d sound in
        let e =
          (ensure (no_faults created) crypto clock default_ca_common_name settings.fqdn [] d).1 in
        let (f, there, reads) =
          ca_pem-ready settings.fqdn e.files.ca_cert e.files.ca_key e.files.server_cert
            e.files.server_key e.directory e.calls e.drawn ready in
        let read =
          proceed-ok
            (ensure (no_faults created) crypto clock default_ca_common_name settings.fqdn [] d)
            (λ _. ca_certificate_pem (no_faults created)) done
          ∙ reads in
        (f, record e { calls = suc (suc e.calls) }, ap (λ x. (lift x.0, x.1)) read, there, ready)

    -- The settings load, no call of the system fails, and the library keeps its laws and accepts
    -- the names, none of which is an IPv6 address with a scope. From every sound directory `_run`
    -- leaves it ready for the host name of the settings. The `ca` of its request body is what
    -- `ca.pem` holds then. A dry run prints that body and makes no request; any other run hands it
    -- to `_push_config`, and goes on with `_serve` only if that returns.
    pub run-Ready :
        (d : Disk)
        → IsSound created crypto clock d.files
        → (fuel : ℕ) (w : World)
        → (f : File) × (e : Disk) × (e.files.ca_cert ≡ some f)
          × IsReady created crypto clock settings.fqdn e.files
          × (run (no_faults created) crypto clock fleet decimal environ fuel true d w
              ≡ some (record {
                outcome = returns (printed (body_of settings f.content));
                disk = e;
                world = w;
              }))
          × (run (no_faults created) crypto clock fleet decimal environ fuel false d w
              ≡ served
                  (no_faults created)
                  crypto
                  clock
                  fleet
                  settings
                  e
                  (push_config fleet fuel settings (body_of settings f.content) w))
    unfolding run
    run-Ready d sound fuel w =
        let (f, e, made, there, ready) = certificates-IsReady d sound in
        (f, e, there, ready, rw loaded (rw made refl), rw loaded (rw made refl))
