-- ===== src/Tests/Interleaving.antt =====
-- Two sessions that begin before the listeners of either are called, and the end of the first.
use python_fleet_telemetry.Prelude.{◌≡◌, refl, none, List, [], ◌∷◌, Str, codes, nat_eq, str_eq}
use python_fleet_telemetry.Prelude.Dict
use python_fleet_telemetry.Protobuf.{ConnectivityEvent, connected, disconnected}
use python_fleet_telemetry.Dispatch.State.{unconstrained}
use python_fleet_telemetry.Dispatch.Loop.{listen, open_stream}
use python_fleet_telemetry.Dispatch.Invariant.{IsWell, init-IsWell}
use python_fleet_telemetry.Server.State.{Connection, Server, is_connected}
use python_fleet_telemetry.Server.Sessions.{connection, register, is_current}
use python_fleet_telemetry.Server.Registry.{last_announced}
use python_fleet_telemetry.Server.Interleaving.{
  Moments, begins, leaves, acts, none_, next, is_connected-Moments,
}
use python_fleet_telemetry.Basic.Stopped.{bare}
use python_fleet_telemetry.Tests.Runtimes.{small_pb}

abbrev one : Str
one = codes "5YJ1"

abbrev two : Str
two = codes "5YJ2"

-- the connection of the first session
abbrev first : Connection
first = record { ident = 0; vin = one; connected_at = 10; peer = codes "a"; client_version = none }

abbrev told_of : List (Str × ConnectivityEvent)
told_of = (one, connected) ∷ (two, connected) ∷ (one, disconnected) ∷ []

interleaved : (t : Server small_pb) × Moments small_pb (bare small_pb) told_of t
unfolding bare register connection is_current Dict.get Dict.put nat_eq str_eq
interleaved = (
  _,
  next (acts open_stream) (
      next (begins one (codes "a") none 10) (
        next (begins two (codes "b") none 11) (
          next (acts (listen 7 unconstrained unconstrained unconstrained))
            (next (leaves one first 12 refl) none_)))),
)

bare-IsWell : IsWell small_pb (bare small_pb).dispatcher
unfolding bare
bare-IsWell = init-IsWell small_pb 1000

is_connected-Moments_example :
    (is_connected small_pb interleaved.0 two
      ≡ last_announced small_pb two (is_connected small_pb (bare small_pb) two) told_of)
    × IsWell small_pb interleaved.0.dispatcher
is_connected-Moments_example =
    is_connected-Moments small_pb (bare small_pb) interleaved.0 told_of two interleaved.1
      bare-IsWell
