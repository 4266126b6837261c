-- ===== src/Server/Watching.antt =====
-- `async with server:` around `async with server.records() as stream:` and its loop, as the
-- examples end: from the stream on, with `__aexit__` of both. What the loop prints goes by the
-- records.
use python_fleet_telemetry.Prelude.{ℕ, List}
use python_fleet_telemetry.Errors.{Result, finally}
use python_fleet_telemetry.Protobuf.{Protobuf}
use python_fleet_telemetry.Records.{Record}
use python_fleet_telemetry.Dispatch.Streams.{aclose}
use python_fleet_telemetry.Dispatch.Loop.{Action}
use python_fleet_telemetry.Dispatch.Consume.{Consumed, consume}
use python_fleet_telemetry.Server.State.{Server}
use python_fleet_telemetry.Server.Sessions.{Cleanup, stop}
use python_fleet_telemetry.Prelude.{false}

module _ (pb : Protobuf) where
  pub record Watched : Type 0 where
    pub printed : List (Record pb)
    pub result : Result (Unit {0})
    pub server : Server pb

  -- the two `__aexit__`, of the stream and then of the server
  unfoldable pub aexits : ℕ → Cleanup pb → Consumed pb → Server pb → Watched
  aexits sid cleanup run s =
      let (stopped, s') = stop pb cleanup (record s { dispatcher = aclose pb sid run.state }) in
      record { printed = run.printed; result = finally run.ended stopped; server = s' }

  unfoldable pub watch : ℕ → List (List (Action pb)) → Cleanup pb → Server pb → Watched
  unfolding aexits
  watch sid turns cleanup s = aexits sid cleanup (consume pb false sid turns s.dispatcher) s
