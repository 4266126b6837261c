-- ===== src/Dispatch/Loop.antt =====
-- fleet_telemetry/dispatch.py: `Dispatcher.dispatch`, and what may happen while it waits. A
-- listener is code of the library's user, so what it does is a parameter: the calls that it, or
-- another task while the listener is awaited, makes on the dispatcher, in order, and how it ends.
use python_fleet_telemetry.Prelude.{ℕ, suc, Bool, true, false, List, [], ◌∷◌, Str, Option}
use python_fleet_telemetry.Prelude.Dict.{Dict, keys, values}
use python_fleet_telemetry.Errors.{Result, ok, raise, is_exception}
use python_fleet_telemetry.Protobuf.{Protobuf}
use python_fleet_telemetry.Records.{Record, fields}
use python_fleet_telemetry.Dispatch.State.{
  Filter, Registration, matches, Dispatcher, add_listener, unsubscribe, records,
}
use python_fleet_telemetry.Dispatch.Streams.{anext, resume, aclose, drop_stream, fan_out, close}

module _ (pb : Protobuf) where
  -- The calls on a dispatcher between two of its waits. `deliver` is the first loop of another
  -- `dispatch`, whose listeners are called between later waits; `pull` is a new `__anext__` of a
  -- stream, and `wake` one that waited and is taken up again.
  pub data Action : Type 0 where
    listen : ℕ → Filter → Filter → Filter → Action
    unlisten : ℕ → Action
    open_stream : Action
    pull : ℕ → Action
    wake : ℕ → Action
    end_stream : ℕ → Action
    drop : ℕ → Action
    deliver : Record pb → Action
    shut_down : Action

  unfoldable pub perform : Action → Dispatcher pb → Dispatcher pb
  perform (listen callback vin topic field) d = (add_listener pb callback vin topic field d).1
  perform (unlisten key) d = unsubscribe pb key d
  perform open_stream d = (records pb d).1
  perform (pull sid) d = (anext pb sid d).1
  perform (wake sid) d = (resume pb sid d).1
  perform (end_stream sid) d = aclose pb sid d
  perform (drop sid) d = drop_stream pb sid d
  perform (deliver r) d = (fan_out pb r d).1
  perform shut_down d = (close pb d).1

  unfoldable pub perform_all : List Action → Dispatcher pb → Dispatcher pb
  perform_all [] d = d
  perform_all (a ∷ rest) d = perform_all rest (perform a d)

  -- `callback(record)`, and `await` of its result if that is awaitable
  pub record Script : Type 0 where
    pub actions : List Action
    pub outcome : Result (Unit {0})

  -- What the listener does at the n-th call that this `dispatch` makes.
  abbrev pub World : Type 0
  World = ℕ → ℕ → Script

  -- The listeners that were called, in order, with the result and the state that are left.
  pub record Run : Type 0 where
    pub called : List ℕ
    pub result : Result (Unit {0})
    pub state : Dispatcher pb

  -- `except Exception` logs, and anything else leaves the loop
  abbrev pub caught : Result (Unit {0}) → Bool
  caught (ok _) = true
  caught (raise e) = is_exception e

  -- `for registration in list(self._registrations.values()): …`
  unfoldable pub notify : World → ℕ → List Registration → Record pb → List Str → Dispatcher pb → Run
  notify world n [] r field_keys d = record { called = []; result = ok tt; state = d }
  notify world n (registration ∷ rest) r field_keys d =
      elim (matches pb registration r field_keys) [
        | false ↦ notify world n rest r field_keys d
        | true ↦
            let script = world n registration.callback in
            let d' = perform_all script.actions d in
            elim (caught script.outcome) [
              | true ↦
                  let run = notify world (suc n) rest r field_keys d' in
                  record run { called = registration.callback ∷ run.called }
              | false ↦ record {
                called = registration.callback ∷ [];
                result = script.outcome;
                state = d';
              }
            ]
      ]

  unfoldable pub with_fields :
      World → Record pb → Dispatcher pb → Result (Dict Str (Option pb.Object)) → Run
  with_fields world r d (raise e) = record { called = []; result = raise e; state = d }
  with_fields world r d (ok all_fields) =
      notify world 0 (values d.registrations) r (keys all_fields) d

  unfoldable pub after_fan_out : World → Record pb → Result (Unit {0}) × Dispatcher pb → Run
  after_fan_out world r (raise e, d) = record { called = []; result = raise e; state = d }
  after_fan_out world r (ok _, d) = with_fields world r d (fields pb r)

  unfoldable pub dispatch : World → Record pb → Dispatcher pb → Run
  unfolding after_fan_out with_fields
  dispatch world r d = after_fan_out world r (fan_out pb r d)
