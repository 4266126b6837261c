-- ===== src/Tests/Watching.antt =====
-- The examples' loop over a stream, and examples/basic.py at concrete records.
use mathlib.Core.List.{Sublistᴰ}
use python_fleet_telemetry.Prelude.{◌≡◌, refl, arith, false, str_eq, inr, List, [], ◌∷◌, ◌++◌}
use python_fleet_telemetry.Errors.{ok, raise, cancelled}
use python_fleet_telemetry.Dispatch.State.{init, records}
use python_fleet_telemetry.Dispatch.Loop.{Action, deliver, end_stream, dispatch}
use python_fleet_telemetry.Dispatch.Invariant.{init-IsWell}
use python_fleet_telemetry.Dispatch.Consume.{consume}
use python_fleet_telemetry.Dispatch.Pending.{pending, dispatched}
use python_fleet_telemetry.Dispatch.Consuming.{consume-history}
use python_fleet_telemetry.Dispatch.Lossless.{deliveries, consume-all}
use python_fleet_telemetry.Server.Listeners.{server_records}
use python_fleet_telemetry.Server.Watching.{Watched}
use python_fleet_telemetry.Server.Watched.{IsWatched}
use python_fleet_telemetry.Basic.{listening, main}
use python_fleet_telemetry.Basic.Stopped.{bare, main-IsWatched}
use python_fleet_telemetry.Basic.Listening.{dispatch-printers}
use python_fleet_telemetry.Tests.Runtimes.{small_pb}
use python_fleet_telemetry.Tests.Dispatching.{speed, rude, speed_fields, speed_fields_computed}

-- Three records for a queue of two, and then an `aclose` by another task.
abbrev turns : List (List (Action small_pb))
turns =
    (deliver (speed 1) ∷ deliver (speed 2) ∷ deliver (speed 3) ∷ []) ∷ [] ∷ (end_stream 0 ∷ []) ∷ []

consume-history_example :
    let (sid, e) = records small_pb (init small_pb 2) in
    let run = consume small_pb false sid turns e in
    Sublistᴰ (run.printed ++ pending small_pb sid run.state) (dispatched small_pb turns)
consume-history_example = consume-history small_pb turns (init small_pb 2) (init-IsWell small_pb 2)

init_open : (init small_pb 2).closed ≡ false
unfolding init
init_open = refl

two_kept : (init small_pb 2).queue_maxsize ≡ 2
unfolding init
two_kept = refl

consume-all_example :
    let (sid, e) = records small_pb (init small_pb 2) in
    let run =
      consume small_pb false sid
        (deliveries small_pb ((speed 1 ∷ []) ∷ [] ∷ (speed 2 ∷ []) ∷ []) 2)
        e in
    (run.printed ≡ speed 1 ∷ speed 2 ∷ []) × (run.ended ≡ raise cancelled)
consume-all_example =
    consume-all small_pb (init small_pb 2) ((speed 1 ∷ []) ∷ [] ∷ (speed 2 ∷ []) ∷ []) 2
      (init-IsWell small_pb 2) init_open (inr (omega (arith, two_kept))) (omega arith)

main-IsWatched_example :
    (ran : Watched small_pb) × (main small_pb
        (λ cert key. ok tt)
        (λ path. ok tt)
        (ok tt)
        (ok tt)
        turns
        (λ s. (ok tt, s))
      ≡ ok ran)
    × IsWatched small_pb (λ s. (ok tt, s)) turns ran
main-IsWatched_example =
    main-IsWatched small_pb (λ cert key. ok tt) (λ path. ok tt) (ok tt) (ok tt) turns
      (λ s. (ok tt, s)) (λ t c w. (c, w))

dispatch-printers_example :
    let s = (server_records small_pb (listening small_pb (bare small_pb))).1 in
    ((dispatch small_pb rude (speed 1) s.dispatcher).called ≡ 0 ∷ 2 ∷ [])
    × ((dispatch small_pb rude (speed 1) s.dispatcher).result ≡ ok tt)
unfolding str_eq
dispatch-printers_example =
    dispatch-printers small_pb rude (speed 1) speed_fields (speed_fields_computed 1)
      (λ n callback. refl)
