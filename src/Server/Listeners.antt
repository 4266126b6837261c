-- ===== src/Server/Listeners.antt =====
-- fleet_telemetry/server.py: the calls of a `TelemetryServer` that it passes on to its dispatcher,
-- and the registry that it shows.
use python_fleet_telemetry.Prelude.{ℕ, Str}
use python_fleet_telemetry.Prelude.Dict.{Dict}
use python_fleet_telemetry.Protobuf.{Protobuf}
use python_fleet_telemetry.Dispatch.State
use python_fleet_telemetry.Dispatch.State.{Filter, Dispatcher}
use python_fleet_telemetry.Server.State.{Connection, Server}

module _ (pb : Protobuf) where
  -- A call that gives a number, of a listener or of a stream, on the server's dispatcher.
  unfoldable pub through_dispatcher :
      (Dispatcher pb → ℕ × Dispatcher pb) → Server pb → ℕ × Server pb
  through_dispatcher call s =
      let (number, d) = call s.dispatcher in (number, record s { dispatcher = d })

  unfoldable pub server_add_listener : ℕ → Filter → Filter → Filter → Server pb → ℕ × Server pb
  unfolding through_dispatcher
  server_add_listener callback vin topic field =
      through_dispatcher (State.add_listener pb callback vin topic field)

  unfoldable pub server_on_data : ℕ → Filter → Filter → Server pb → ℕ × Server pb
  unfolding through_dispatcher
  server_on_data callback vin field = through_dispatcher (State.on_data pb callback vin field)

  unfoldable pub server_on_alert : ℕ → Filter → Filter → Server pb → ℕ × Server pb
  unfolding through_dispatcher
  server_on_alert callback vin field = through_dispatcher (State.on_alert pb callback vin field)

  unfoldable pub server_on_error : ℕ → Filter → Filter → Server pb → ℕ × Server pb
  unfolding through_dispatcher
  server_on_error callback vin field = through_dispatcher (State.on_error pb callback vin field)

  unfoldable pub server_on_connectivity : ℕ → Filter → Filter → Server pb → ℕ × Server pb
  unfolding through_dispatcher
  server_on_connectivity callback vin field =
      through_dispatcher (State.on_connectivity pb callback vin field)

  unfoldable pub server_records : Server pb → ℕ × Server pb
  unfolding through_dispatcher
  server_records = through_dispatcher (State.records pb)

  -- `connections`, a copy
  unfoldable pub connections_snapshot : Server pb → Dict Str Connection
  connections_snapshot s = s.connections
