-- ===== src/Tests/Dispatching.antt =====
-- A dispatcher of queues of two records, through calls and dispatches.
use python_fleet_telemetry.Prelude.{
  ℕ, ◌≤◌, ◌++◌, ◌≡◌, ◌↔◌, ◌⊎◌, refl, true, false, Option, none, some, List, [], ◌∷◌, Str, codes,
  arith, contains, ◌==◌, nat_eq, str_eq, if◌then◌else◌,
}
use python_fleet_telemetry.Prelude.Lists.{length}
use python_fleet_telemetry.Prelude.Dict
use python_fleet_telemetry.Prelude.Dict.{Dict, keys, values}
use python_fleet_telemetry.Errors.{ok, raise, value_error, cancelled}
use python_fleet_telemetry.Text.Decimal.{pos}
use python_fleet_telemetry.Queue.{full, put_nowait}
use python_fleet_telemetry.Queue.Window.{pushed}
use python_fleet_telemetry.Records.{
  topic_value, topic_fields, message_fields, collect, signal_name, signal_value, Record,
  vehicle_data, payload_message, fields,
}
use python_fleet_telemetry.Dispatch.State.{
  unconstrained, single, among, normalize, matches, item, sentinel, Item, Stream, Dispatcher, init,
  add, add_listener, unsubscribe, records,
}
use python_fleet_telemetry.Dispatch.Streams.{
  aclose, each_queue, on_stream, offer, fan_out, push_sentinel, close,
}
use python_fleet_telemetry.Dispatch.Loop.{
  Action, listen, unlisten, open_stream, wake, deliver, perform, perform_all, World, dispatch,
}
use python_fleet_telemetry.Dispatch.Fanout.{push_sentinel-terminates}
use python_fleet_telemetry.Dispatch.Invariant.{IsWell, init-IsWell}
use python_fleet_telemetry.Dispatch.Reach.{perform_all-IsWell}
use python_fleet_telemetry.Dispatch.Delivery.{delivered, fan_out-window}
use python_fleet_telemetry.Dispatch.Isolation.{matching, Prefix, dispatch-called, dispatch-Prefix}
use python_fleet_telemetry.Dispatch.Unsubscribe.{unsubscribe-add_listener}
use python_fleet_telemetry.Dispatch.Closing.{drain, kept, close-drain}
use python_fleet_telemetry.Dispatch.Frozen.{wakes, aclose-forever}
use python_fleet_telemetry.Dispatch.Matching.{Selects, Meets, matches_iff}
use python_fleet_telemetry.Tests.Runtimes.{small_pb}

abbrev pub speed : ℕ → Record small_pb
speed at = record {
  vin = codes "5YJ";
  topic = vehicle_data;
  created_at = at;
  txid = [];
  message = payload_message ((pos 1, codes "v") ∷ []);
  raw = 1 ∷ [];
}

-- Two listeners, the second of one topic only, and a stream with one record.
abbrev calls : List (Action small_pb)
calls =
    listen 10 unconstrained unconstrained unconstrained
    ∷ listen 11 unconstrained (single (codes "alerts")) unconstrained
    ∷ open_stream
    ∷ deliver (speed 1)
    ∷ []

unfoldable live : Dispatcher small_pb
live = perform_all small_pb calls (init small_pb 2)

live-IsWell : IsWell small_pb live
unfolding live
live-IsWell = perform_all-IsWell small_pb calls (init small_pb 2) (init-IsWell small_pb 2)

-- Every listener raises an ordinary error, and the first takes itself away.
abbrev pub rude : World small_pb
rude n callback = record { actions = unlisten 0 ∷ []; outcome = raise (value_error []) }

-- Every listener is cancelled.
abbrev interrupted : World small_pb
interrupted n callback = record { actions = []; outcome = raise cancelled }

abbrev pub speed_fields : Dict Str (Option Str)
speed_fields = (codes "VehicleSpeed", some (codes "v")) ∷ []

pub speed_fields_computed : (at : ℕ) → fields small_pb (speed at) ≡ ok speed_fields
unfolding fields topic_fields message_fields collect signal_name signal_value Dict.put nat_eq
speed_fields_computed at = refl

perform_all-IsWell_example : IsWell small_pb (perform_all small_pb calls (init small_pb 2))
perform_all-IsWell_example =
    perform_all-IsWell small_pb calls (init small_pb 2) (init-IsWell small_pb 2)

dispatch-called_example :
    ((dispatch small_pb rude (speed 2) live).called
      ≡ matching small_pb (values live.registrations) (speed 2) (keys speed_fields))
    × ((dispatch small_pb rude (speed 2) live).result ≡ ok tt)
dispatch-called_example =
    dispatch-called small_pb rude (speed 2) live speed_fields live-IsWell (speed_fields_computed 2)
      (λ n callback. refl)

dispatch-Prefix_example :
    (((dispatch small_pb interrupted (speed 2) live).result ≡ ok tt)
      ⊎ ((dispatch small_pb interrupted (speed 2) live).result ≡ raise cancelled))
    × Prefix small_pb
        (dispatch small_pb interrupted (speed 2) live).called
        (matching small_pb (values live.registrations) (speed 2) (keys speed_fields))
dispatch-Prefix_example =
    dispatch-Prefix small_pb interrupted (speed 2) live speed_fields live-IsWell
      (speed_fields_computed 2)

fan_out-window_example :
    ((fan_out small_pb (speed 2) live).0 ≡ ok tt)
    × ((j : ℕ)
        → Dict.get (fan_out small_pb (speed 2) live).1.streams j ≡ (
            if contains live.queues j
            then delivered small_pb (speed 2) (Dict.get live.streams j)
            else Dict.get live.streams j))
    × ((fan_out small_pb (speed 2) live).1.queues ≡ live.queues)
    × ((fan_out small_pb (speed 2) live).1.registrations ≡ live.registrations)
fan_out-window_example = fan_out-window small_pb (speed 2) live live-IsWell

live_open : live.closed ≡ false
unfolding live perform_all perform init add_listener records fan_out each_queue add on_stream offer
    put_nowait full Dict.get Dict.put nat_eq
live_open = refl

live_stream :
    (contains live.queues 0 ≡ true)
    × (Dict.get live.streams 0
        ≡ some (record {
          closed = false;
          queue = record { maxsize = 2; items = item (speed 1) ∷ [] };
        }))
unfolding live perform_all perform init add_listener records fan_out each_queue add on_stream offer
    put_nowait full Dict.get Dict.put nat_eq
live_stream = (refl, refl)

push_sentinel-terminates_example :
    push_sentinel small_pb 3 (record { maxsize = 2; items = item (speed 1) ∷ item (speed 2) ∷ [] })
    ≡ some (
        ok (pushed sentinel (record { maxsize = 2; items = item (speed 1) ∷ item (speed 2) ∷ [] })))
push_sentinel-terminates_example =
    push_sentinel-terminates small_pb 3
      (record { maxsize = 2; items = item (speed 1) ∷ item (speed 2) ∷ [] }) (omega arith)

-- A wait on the stream is taken up again before the other calls.
aclose-forever_example :
    (t : Stream small_pb) × (Dict.get
        (perform_all small_pb (wake 0 ∷ calls) (aclose small_pb 0 live)).streams
        0
      ≡ some t)
    × (t.closed ≡ true)
    × (taken : List (Item small_pb)) × (item (speed 1) ∷ [] ≡ taken ++ t.queue.items)
    × (length taken ≤ wakes small_pb 0 (wake 0 ∷ calls))
aclose-forever_example = aclose-forever small_pb (wake 0 ∷ calls) live 0 _ live-IsWell live_stream.1

close-drain_example :
    drain small_pb 2 0 (close small_pb live).1 ≡ some (kept small_pb 2 (speed 1 ∷ []))
close-drain_example =
    close-drain small_pb live 0 2 (speed 1 ∷ []) live-IsWell live_stream.0 live_stream.1

unsubscribe-add_listener_example :
    let (key, d') =
      add_listener small_pb 12 (single (codes "5YJ")) unconstrained unconstrained live in
    (Dict.get live.registrations key ≡ none)
    × ((k : ℕ)
        → Dict.get d'.registrations k ≡ (
            if k == key
            then some (record {
              callback = 12;
              vins = normalize (single (codes "5YJ"));
              topics = normalize unconstrained;
              fields = normalize unconstrained;
            })
            else Dict.get live.registrations k))
    × ((k : ℕ)
        → Dict.get (unsubscribe small_pb key d').registrations k ≡ Dict.get live.registrations k)
unsubscribe-add_listener_example =
    unsubscribe-add_listener small_pb 12 (single (codes "5YJ")) unconstrained unconstrained live
      live-IsWell

matches_iff_example :
    (matches small_pb
        (record {
          callback = 12;
          vins = normalize (single (codes "5YJ"));
          topics = normalize unconstrained;
          fields = normalize (among (codes "Soc" ∷ codes "VehicleSpeed" ∷ []));
        })
        (speed 1)
        (keys speed_fields)
      ≡ true)
    ↔ (Selects (single (codes "5YJ")) (codes "5YJ")
        × Selects unconstrained (topic_value vehicle_data)
        × Meets (among (codes "Soc" ∷ codes "VehicleSpeed" ∷ [])) (keys speed_fields))
matches_iff_example =
    matches_iff small_pb 12 (single (codes "5YJ")) unconstrained
      (among (codes "Soc" ∷ codes "VehicleSpeed" ∷ [])) (speed 1) (keys speed_fields)
