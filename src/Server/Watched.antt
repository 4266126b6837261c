-- ===== src/Server/Watched.antt =====
-- What is left when the loop of an example ends, however it ends.
use mathlib.Core.List.Sublistᴰ
use mathlib.Core.List.{Sublistᴰ}
use python_fleet_telemetry.Prelude.{ℕ, Bool, ◌≡◌, refl, true, false, ◌⊎◌, inl, inr, List, [], ◌∷◌}
use python_fleet_telemetry.Errors.{Error, ok, raise, cancelled, finally}
use python_fleet_telemetry.Protobuf.{Protobuf}
use python_fleet_telemetry.Dispatch.State.{Dispatcher, records}
use python_fleet_telemetry.Dispatch.Streams.{Anext, yields, stops, parks, aclose}
use python_fleet_telemetry.Dispatch.Loop.{Action, perform_all}
use python_fleet_telemetry.Dispatch.Invariant.{IsWell, records-IsWell}
use python_fleet_telemetry.Dispatch.Invariant.Streams.{aclose-IsWell}
use python_fleet_telemetry.Dispatch.Consume.{Consumed, awaited, has_parked, stepped, consume}
use python_fleet_telemetry.Dispatch.Pending.{more, dispatched}
use python_fleet_telemetry.Dispatch.Consuming.{consume-IsWell, consume-history}
use python_fleet_telemetry.Server.State.{Server}
use python_fleet_telemetry.Server.Sessions.{Cleanup}
use python_fleet_telemetry.Server.Listeners.{through_dispatcher, server_records}
use python_fleet_telemetry.Server.Stopping.{IsOrderly, stop-IsStopped}
use python_fleet_telemetry.Server.Watching.{Watched, aexits, watch}

module _ (pb : Protobuf) where
  stepped-ended :
      (a : Anext pb) (d : Dispatcher pb) (rest : Consumed pb)
      → (rest.ended ≡ ok tt) ⊎ (rest.ended ≡ raise cancelled)
      → let ended = (stepped pb (a, d) rest).ended in (ended ≡ ok tt) ⊎ (ended ≡ raise cancelled)
  unfolding stepped
  stepped-ended (yields r) d rest h = h
  stepped-ended stops d rest h = inl refl
  stepped-ended parks d rest h = h

  -- The loop ends because its stream ended or because it is cancelled.
  consume-ended :
      (turns : List (List (Action pb))) (waiting : Bool) (sid : ℕ) (d : Dispatcher pb)
      → let ended = (consume pb waiting sid turns d).ended in
        (ended ≡ ok tt) ⊎ (ended ≡ raise cancelled)
  unfolding consume
  consume-ended [] waiting sid d = inr refl
  consume-ended (calls ∷ turns) waiting sid d =
      let step = awaited pb waiting sid (perform_all pb calls d) in
      stepped-ended step.0 step.1 _ (consume-ended turns (has_parked pb step.0) sid step.1)

  -- What holds once the two `async with` have been left. The records that were printed were
  -- dispatched, in this order, and the server is closed. Either the loop's end is the end, and the
  -- server is not running and has no registered queue; or the clean-up of the runner raised, which
  -- is the end then, on the server as the clean-up left it.
  abbrev pub IsWatched : Cleanup pb → List (List (Action pb)) → Watched pb → Type 0
  IsWatched cleanup turns ran =
      Sublistᴰ ran.printed (dispatched pb turns)
      × (ran.server.closed ≡ true)
      × ((((ran.result ≡ ok tt) ⊎ (ran.result ≡ raise cancelled))
            × (ran.server.running ≡ false)
            × (ran.server.dispatcher.queues ≡ []))
          ⊎ ((x : Error) × (t : Server pb) × (t.closed ≡ true)
              × ((cleanup t).0 ≡ raise x)
              × (ran.result ≡ raise x)
              × (ran.server ≡ (cleanup t).1)))

  pub watch-IsWatched :
      (turns : List (List (Action pb))) (cleanup : Cleanup pb) (s : Server pb)
      → IsOrderly pb cleanup
      → IsWell pb s.dispatcher
      → let (sid, s') = server_records pb s in
        IsWatched cleanup turns (watch pb sid turns cleanup s')
  unfolding server_records through_dispatcher watch aexits finally
  watch-IsWatched turns cleanup s orderly w =
      let (sid, d) = records pb s.dispatcher in
      let run = consume pb false sid turns d in
      let w' = consume-IsWell pb false sid turns d (records-IsWell pb s.dispatcher w) in
      let left = record s { dispatcher = aclose pb sid run.state } in
      let (c, ends) = stop-IsStopped pb cleanup left orderly (aclose-IsWell pb sid run.state w') in
      (
        Sublistᴰ.trans (more pb run.printed _) (consume-history pb turns s.dispatcher w),
        c,
        elim ends [
          | inl (_, done, r, q) ↦ inl (rw done (consume-ended turns false sid d), r, q)
          | inr (_, (x, gone, raised), same) ↦
              inr (x, record left { closed = true }, refl, gone, rw raised refl, same)
        ],
      )
