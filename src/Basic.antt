-- ===== src/Basic.antt =====
-- examples/basic.py: a server with three listeners that print, and the loop over its stream.
pub mod Listening
pub mod Stopped
use python_fleet_telemetry.Prelude.{ℕ, Bool, true, List, Str, codes}
use python_fleet_telemetry.Errors.{Result, ok, ◌>>=◌}
use python_fleet_telemetry.Protobuf.{Protobuf}
use python_fleet_telemetry.Records.{vehicle_data, topic_value}
use python_fleet_telemetry.Dispatch.State.{unconstrained, single}
use python_fleet_telemetry.Dispatch.Loop.{Action}
use python_fleet_telemetry.Server.State.{Server, new_server}
use python_fleet_telemetry.Server.Sessions.{Cleanup, start}
use python_fleet_telemetry.Server.Listeners.{
  server_add_listener, server_on_data, server_on_connectivity, server_records,
}
use python_fleet_telemetry.Server.Watching.{Watched, watch}
use python_fleet_telemetry.EndToEnd.Serve.{default_maxsize}

-- The paths that the context is made from.
pub record Context : Type 0 where
  pub certfile : Str
  pub keyfile : Str
  pub cafile : Str
  pub cert_required : Bool

-- `build_ssl_context`; the arguments are the outcomes of the calls of `ssl` on these paths.
unfoldable pub build_ssl_context :
    (Str → Str → Result (Unit {0})) → (Str → Result (Unit {0})) → Result Context
build_ssl_context load_cert_chain load_verify_locations = do
  _ ← load_cert_chain (codes "server-cert.pem") (codes "server-key.pem")
  _ ← load_verify_locations (codes "tesla-ca.pem")
  ok (record {
    certfile = codes "server-cert.pem";
    keyfile = codes "server-key.pem";
    cafile = codes "tesla-ca.pem";
    cert_required = true;
  })

-- The three listeners.
abbrev pub prints_data : ℕ
prints_data = 0

abbrev pub prints_connectivity : ℕ
prints_connectivity = 1

abbrev pub prints_speed : ℕ
prints_speed = 2

module _ (pb : Protobuf) where
  -- the server with its listeners
  unfoldable pub listening : Server pb → Server pb
  listening s =
      let (_, s₁) = server_on_data pb prints_data unconstrained unconstrained s in
      let (_, s₂) = server_on_connectivity pb prints_connectivity unconstrained unconstrained s₁ in
      let (_, s₃) =
        server_add_listener pb prints_speed unconstrained (single (topic_value vehicle_data))
          (single (codes "VehicleSpeed")) s₂ in
      s₃

  -- `async with server: … async with server.records() as stream: …`, once `start` has ended
  unfoldable pub streaming :
      List (List (Action pb)) → Cleanup pb → Result (Unit {0}) × Server pb → Result (Watched pb)
  streaming turns cleanup (started, s) = do
    _ ← started
    let (sid, s') = server_records pb s in ok (watch pb sid turns cleanup s')

  -- `main`; `setup` and `site` are how the two waits of `start` end.
  unfoldable pub main :
      (Str → Str → Result (Unit {0}))
      → (Str → Result (Unit {0}))
      → Result (Unit {0})
      → Result (Unit {0})
      → List (List (Action pb))
      → Cleanup pb
      → Result (Watched pb)
  unfolding streaming listening
  main load_cert_chain load_verify_locations setup site turns cleanup = do
    context ← build_ssl_context load_cert_chain load_verify_locations
    s ← new_server pb context.cert_required default_maxsize
    streaming turns cleanup (start pb setup site (listening s))
