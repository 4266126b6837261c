-- ===== src/EndToEnd/Serve.antt =====
-- examples/end_to_end.py: `_serve`, up to its loop (`serve`) and to its end (`serve_to_end`).
use python_fleet_telemetry.Prelude.{ℕ, Bool, false, List, Str}
use python_fleet_telemetry.Errors.{Result, ok}
use python_fleet_telemetry.Errors
use python_fleet_telemetry.Protobuf.{Protobuf}
use python_fleet_telemetry.Certs.Disk.{System, Action, result, ◌>>=◌}
use python_fleet_telemetry.Certs.Credentials.{build_ssl_context}
use python_fleet_telemetry.Dispatch.State.{unconstrained}
use python_fleet_telemetry.Server.State.{Server, new_server}
use python_fleet_telemetry.Server.Sessions.{Cleanup, start}
use python_fleet_telemetry.Dispatch.Loop as Dispatch
use python_fleet_telemetry.Server.Watching.{Watched, watch}
use python_fleet_telemetry.Server.Listeners.{server_on_data, server_on_connectivity, server_records}

-- The two listeners that print.
abbrev pub prints_data : ℕ
prints_data = 0

abbrev pub prints_connectivity : ℕ
prints_connectivity = 1

-- The default of `queue_maxsize`.
abbrev pub default_maxsize : ℕ
default_maxsize = 1000

module _ (pb : Protobuf) where
  -- the server with its listeners
  unfoldable pub listening : Server pb → Server pb
  listening s =
      let (_, s') = server_on_data pb prints_data unconstrained unconstrained s in
      let (_, s'') = server_on_connectivity pb prints_connectivity unconstrained unconstrained s' in
      s''

  abbrev pub streaming : Result (Unit {0}) × Server pb → Result (ℕ × Server pb)
  streaming (started, s) = Errors.◌>>=◌ started (λ _. ok (server_records pb s))

  -- the stream and the server, by whether `verify_mode` is `CERT_REQUIRED` and by how the two waits
  -- of `start` end
  unfoldable pub serving_from :
      Bool → Result (Unit {0}) → Result (Unit {0}) → Result (ℕ × Server pb)
  unfolding listening
  serving_from cert_required setup site =
      Errors.◌>>=◌ (new_server pb cert_required default_maxsize)
        λ s. streaming (start pb setup site (listening s))

  -- `_serve`; the first two arguments after the system are those of `build_ssl_context`.
  unfoldable pub serve :
      System
      → (Str → Str → Result (Unit {0}))
      → (Str → Result (Unit {0}))
      → Str
      → Result (Unit {0})
      → Result (Unit {0})
      → Action (ℕ × Server pb)
  unfolding serving_from
  serve system load_cert_chain load_verify_locations certs_dir setup site = do
    context ← build_ssl_context system load_cert_chain load_verify_locations certs_dir false
    result (serving_from context.cert_required setup site)

  -- `_serve` with its loop, until the stream ends or the task is cancelled
  unfoldable pub serve_to_end :
      System
      → (Str → Str → Result (Unit {0}))
      → (Str → Result (Unit {0}))
      → Str
      → Result (Unit {0})
      → Result (Unit {0})
      → List (List (Dispatch.Action pb))
      → Cleanup pb
      → Action (Watched pb)
  serve_to_end system load_cert_chain load_verify_locations certs_dir setup site turns cleanup =
      serve system load_cert_chain load_verify_locations certs_dir setup site >>= λ (sid, s).
      result (ok (watch pb sid turns cleanup s))
