-- ===== src/Dispatch/Consume.antt =====
-- `async with server.records() as stream: async for record in stream: print(…)`, as the examples
-- have it, over `_RecordStream` of fleet_telemetry/dispatch.py.
use python_fleet_telemetry.Prelude.{ℕ, Bool, true, false, List, [], ◌∷◌}
use python_fleet_telemetry.Errors.{Result, ok, raise, cancelled}
use python_fleet_telemetry.Protobuf.{Protobuf}
use python_fleet_telemetry.Records.{Record}
use python_fleet_telemetry.Dispatch.State.{Dispatcher}
use python_fleet_telemetry.Dispatch.Streams.{Anext, yields, stops, parks, resume, anext}
use python_fleet_telemetry.Dispatch.Loop.{Action, perform_all}

module _ (pb : Protobuf) where
  -- The records that the loop printed, in order, how it ended, and the dispatcher that is left.
  pub record Consumed : Type 0 where
    pub printed : List (Record pb)
    pub ended : Result (Unit {0})
    pub state : Dispatcher pb

  unfoldable pub awaited : Bool → ℕ → Dispatcher pb → Anext pb × Dispatcher pb
  unfolding resume
  awaited waiting sid d = elim waiting [ true ↦ resume pb sid d | false ↦ anext pb sid d ]

  abbrev pub has_parked : Anext pb → Bool
  has_parked (yields r) = false
  has_parked stops = false
  has_parked parks = true

  -- One step of the loop, with how the loop goes on from there.
  unfoldable pub stepped : Anext pb × Dispatcher pb → Consumed → Consumed
  stepped (yields r, d) rest = record rest { printed = r ∷ rest.printed }
  stepped (stops, d) rest = record { printed = []; ended = ok tt; state = d }
  stepped (parks, d) rest = rest

  -- `async for record in stream: print(…)`, from a call of `__anext__` that is waiting or is to be
  -- made: for each step, what the other tasks call on the dispatcher before it, and then the
  -- cancellation of the task.
  unfoldable pub consume : Bool → ℕ → List (List (Action pb)) → Dispatcher pb → Consumed
  unfolding awaited stepped
  consume waiting sid [] d = record { printed = []; ended = raise cancelled; state = d }
  consume waiting sid (calls ∷ turns) d =
      let step = awaited waiting sid (perform_all pb calls d) in
      stepped step (consume (has_parked step.0) sid turns step.1)
