-- ===== src/Tests/Serving.antt =====
-- A server through a session, and its theorems at concrete data.
use python_fleet_telemetry.Prelude.{
  ◌≡◌, ◌↔◌, ◌⊎◌, refl, inl, inr, true, false, none, some, List, [], ◌∷◌, Str, Bytes, codes, arith,
  str_eq, nat_eq,
}
use python_fleet_telemetry.Prelude.Dict
use python_fleet_telemetry.Text.Utf8.{replace}
use python_fleet_telemetry.Identity.{known_oid_issuers, known_issuers, common_name, first_or_empty}
use python_fleet_telemetry.Errors.{
  Error, Result, ok, raise, connection_error, os_error, cancelled, IsQuiet,
}
use python_fleet_telemetry.Dispatch.State.{unconstrained, init}
use python_fleet_telemetry.Dispatch.Loop.{Action, World, listen, open_stream, perform_all}
use python_fleet_telemetry.Dispatch.Invariant.{IsWell, init-IsWell}
use python_fleet_telemetry.Dispatch.Reach.{perform_all-IsWell}
use python_fleet_telemetry.Server.State.{
  Connection, Server, Request, authorized, authorize, is_connected,
}
use python_fleet_telemetry.Server.Frames.{binary, acks, handle_message}
use python_fleet_telemetry.Server.Sessions.{
  start, connection, connect, is_current, Turn, serve, session, Environment, handle, or_empty,
  status, respond, Cleanup, stop,
}
use python_fleet_telemetry.Server.Stopping.{IsStopped, stop-handle}
use python_fleet_telemetry.Server.Registry.{
  Event, opens, steps, last_announced, is_connected-steps, disconnect-reconnect, session-is_current,
}
use python_fleet_telemetry.Server.Registry
use python_fleet_telemetry.Server.Access.{Credentials, authorize_iff, handle-is_current}
use python_fleet_telemetry.Server.Acks.{
  parsed, ack_of, dispatches_of, effects-handle_message, IsDropped, handle_message-IsDropped,
}
use python_fleet_telemetry.Server.Safety.{handle_message-IsQuiet, serve-IsQuiet}
use python_fleet_telemetry.Tests.Runtimes.{small_pb, small_fb, small_x509, frame_of}
use python_fleet_telemetry.Tests.Parsing.{stream, stream_decoded, small_pb_parses}

-- listeners that do nothing, and listeners that are cancelled
abbrev calm : World small_pb
calm n callback = record { actions = []; outcome = ok tt }

abbrev cancelled_ : World small_pb
cancelled_ n callback = record { actions = []; outcome = raise cancelled }

-- a server with one listener
abbrev idle : Server small_pb
idle = record {
  dispatcher =
      perform_all small_pb (listen 10 unconstrained unconstrained unconstrained ∷ [])
        (init small_pb 2);
  connections = [];
  running = true;
  closed = false;
  made = 0;
}

idle-IsWell : IsWell small_pb idle.dispatcher
idle-IsWell =
    perform_all-IsWell small_pb (listen 10 unconstrained unconstrained unconstrained ∷ [])
      (init small_pb 2) (init-IsWell small_pb 2)

abbrev sends : Bytes → Result (Unit {0})
sends b = ok tt

-- what another task calls during a send
abbrev sending : List (Action small_pb)
sending = open_stream ∷ []

abbrev gone : Bytes → Result (Unit {0})
gone b = raise connection_error

abbrev frame : Bytes
frame = frame_of 4 b'V' 3 4

abbrev vin : Str
vin = codes "5YJ"

effects-handle_message_example :
    (handle_message small_pb small_fb sends sending calm vin (binary frame) idle.dispatcher).effects
    ≡ acks (ack_of small_fb stream)
      ∷ dispatches_of small_pb small_fb sends sending
          (parsed small_pb small_fb sends sending vin stream)
effects-handle_message_example =
    effects-handle_message small_pb small_fb sends sending calm vin frame idle.dispatcher stream
      (omega arith) stream_decoded refl

handle_message-IsDropped_example :
    let done =
      handle_message small_pb small_fb gone sending calm vin (binary frame) idle.dispatcher in
    ((done.effects ≡ []) × (done.result ≡ ok tt))
    ↔ IsDropped small_pb small_fb gone sending (binary frame)
handle_message-IsDropped_example =
    handle_message-IsDropped small_pb small_fb gone sending calm vin (binary frame) idle.dispatcher

handle_message-IsQuiet_example :
    IsQuiet
      (handle_message small_pb small_fb gone sending cancelled_ vin
        (binary frame)
        idle.dispatcher).result
    × IsWell small_pb
        (handle_message small_pb small_fb gone sending cancelled_ vin
          (binary frame)
          idle.dispatcher).dispatcher
handle_message-IsQuiet_example =
    handle_message-IsQuiet small_pb small_fb gone sending cancelled_ vin (binary frame)
      idle.dispatcher (λ b. inr refl) small_pb_parses idle-IsWell

abbrev turns : List (Turn small_pb)
turns =
    record {
      meanwhile = λ s. s;
      message = binary frame;
      send = sends;
      sending = sending;
      world = calm;
    }
    ∷ record {
      meanwhile = λ s. s;
      message = binary (1 ∷ []);
      send = sends;
      sending = sending;
      world = calm;
    }
    ∷ record {
      meanwhile = λ s. s;
      message = binary frame;
      send = gone;
      sending = sending;
      world = calm;
    }
    ∷ []

serve-IsQuiet_example :
    IsQuiet (serve small_pb small_fb vin turns idle).result
    × IsWell small_pb (serve small_pb small_fb vin turns idle).server.dispatcher
serve-IsQuiet_example =
    serve-IsQuiet small_pb small_fb vin turns idle small_pb_parses
      (λ b. inl refl, λ s w. w, (λ b. inl refl, λ s w. w, (λ b. inr refl, λ s w. w, tt)))
      idle-IsWell

abbrev first_connection : Connection
first_connection = connection small_pb vin [] none 1 idle

-- a vehicle connects twice, and the first session ends after that
abbrev events : List (Event small_pb)
events =
    opens calm vin [] none 1
    ∷ opens calm vin [] none 2
    ∷ Registry.ends calm vin first_connection 3
    ∷ []

is_connected-steps_example :
    is_connected small_pb (steps small_pb events idle).1 vin
    ≡ last_announced small_pb vin (is_connected small_pb idle vin) (steps small_pb events idle).0
is_connected-steps_example = is_connected-steps small_pb events idle vin

session-is_current_example :
    is_current small_pb
      (Dict.get
        (session small_pb small_fb vin first_connection turns
          (λ s. s)
          calm
          3
          (connect small_pb calm vin [] none 1 idle).server).server.connections
        vin)
      first_connection
    ≡ false
session-is_current_example =
    session-is_current small_pb small_fb vin first_connection turns (λ s. s) calm 3
      (connect small_pb calm vin [] none 1 idle).server

abbrev request : Request
request = record {
  has_transport = true;
  has_ssl_object = true;
  der = some (0 ∷ vin);
  remote = none;
  version = none;
}

authorize_iff_example :
    (authorize small_x509 request ≡ ok (authorized vin)) ↔ Credentials small_x509 request vin
authorize_iff_example = authorize_iff small_x509 request vin

granted : authorize small_x509 request ≡ ok (authorized vin)
unfolding known_oid_issuers known_issuers common_name first_or_empty replace str_eq nat_eq
granted = (authorize_iff small_x509 request vin).1 (record {
  has_transport = refl;
  has_ssl_object = refl;
  der = 0 ∷ vin;
  der_given = refl;
  der_nonempty = ground arith;
  cert = (vin, codes "TeslaMotors");
  loads = refl;
  issuer_recognized = refl;
  vin_of_subject = refl;
  vin_nonempty = ground arith;
})

abbrev env : Environment small_pb
env = record {
  request = request;
  prepared = ok tt;
  while_preparing = λ s. s;
  while_connecting = λ s. s;
  connect_world = cancelled_;
  connected_at = 1;
  turns = turns;
  meanwhile = λ s. s;
  disconnect_world = calm;
  disconnected_at = 2;
}

handle-is_current_example :
    let conn = connection small_pb vin (or_empty small_pb none) none 1 idle in
    let opened = connect small_pb cancelled_ vin (or_empty small_pb none) none 1 idle in
    let left = handle small_pb small_x509 small_fb env idle in
    ((opened.result ≡ ok tt)
      × (is_current small_pb (Dict.get left.server.connections vin) conn ≡ false))
    ⊎ ((e : Error) × (opened.result ≡ raise e)
        × (left.response ≡ raise e)
        × (left.effects ≡ [])
        × (Dict.get opened.server.connections vin ≡ some conn)
        × (left.server ≡ opened.server))
handle-is_current_example =
    handle-is_current small_pb small_x509 small_fb env idle vin refl granted refl

-- The clean-up of the runner is cancelled.
abbrev interrupted : Cleanup small_pb
interrupted s = (raise cancelled, s)

stop-handle_example :
    let (result, e) = stop small_pb interrupted idle in
    IsStopped small_pb interrupted idle (result, e)
    × (handle small_pb small_x509 small_fb env e
        ≡ respond small_pb e (ok (status 503 (codes "server is shutting down"))))
    × (let again = (start small_pb (ok tt) (raise os_error) e).1 in
        handle small_pb small_x509 small_fb env again
        ≡ respond small_pb again (ok (status 503 (codes "server is shutting down"))))
stop-handle_example =
    stop-handle small_pb small_x509 small_fb env interrupted (ok tt) (raise os_error) idle
      (λ t c w. (c, w)) idle-IsWell
