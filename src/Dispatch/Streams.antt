-- ===== src/Dispatch/Streams.antt =====
-- fleet_telemetry/dispatch.py: what changes the queues of the streams. `_RecordStream.__anext__`,
-- `aclose` and `__del__`, the fan-out of `dispatch`, and `Dispatcher.close`.
use python_fleet_telemetry.Prelude.{
  ℕ, zero, suc, ◌+◌, Bool, true, false, Option, none, some, List, [], ◌∷◌, nat_eq,
}
use python_fleet_telemetry.Prelude.Lists.{length}
use python_fleet_telemetry.Prelude.Dict
use python_fleet_telemetry.Prelude.Dict.{Dict}
use python_fleet_telemetry.Errors.{Result, ok, raise, queue_full, queue_empty, ◌>>=◌}
use python_fleet_telemetry.Queue.{Queue, put_nowait, get_nowait}
use python_fleet_telemetry.Protobuf.{Protobuf}
use python_fleet_telemetry.Records.{Record}
use python_fleet_telemetry.Dispatch.State.{Item, item, sentinel, Stream, Dispatcher, discard}

module _ (pb : Protobuf) where
  -- `__anext__` returns a record, raises `StopAsyncIteration`, or waits on the empty queue. A
  -- waiting call is made again when there is an item.
  pub data Anext : Type 0 where
    yields : Record pb → Anext
    stops : Anext
    parks : Anext

  -- the stream after `get`, and the result
  unfoldable pub receive : Stream pb → Result (Item pb × Queue (Item pb)) → Anext × Stream pb
  receive s (raise _) = (parks, s)
  receive s (ok (item r, q)) = (yields r, record s { queue = q })
  receive s (ok (sentinel, q)) = (stops, record { closed = true; queue = q })

  -- `_queues.discard(self._queue)` where the stream has closed
  unfoldable pub forget : ℕ → Stream pb → Dispatcher pb → Dispatcher pb
  forget sid s d = record d {
    streams = Dict.put d.streams sid s;
    queues = elim s.closed [ true ↦ discard sid d.queues | false ↦ d.queues ];
  }

  unfoldable pub pull : ℕ → Stream pb → Bool → Dispatcher pb → Anext × Dispatcher pb
  pull sid s true d = (stops, d)
  pull sid s false d =
      let (result, s') = receive s (get_nowait s.queue) in (result, forget sid s' d)

  -- `__anext__` of the stream `sid`; there is no such stream on a number that is not made yet
  unfoldable pub anext : ℕ → Dispatcher pb → Anext × Dispatcher pb
  anext sid d = elim (Dict.get d.streams sid) [ none ↦ (parks, d) | some s ↦ pull sid s s.closed d ]

  -- The stream's `__anext__` that waited, taken up again: it takes an item if there is one, and
  -- does not look at `_closed` again.
  unfoldable pub resume : ℕ → Dispatcher pb → Anext × Dispatcher pb
  resume sid d = elim (Dict.get d.streams sid) [ none ↦ (parks, d) | some s ↦ pull sid s false d ]

  -- `aclose`, and `__aexit__`, which awaits it
  unfoldable pub aclose : ℕ → Dispatcher pb → Dispatcher pb
  aclose sid d = elim (Dict.get d.streams sid) [
    | none ↦ d
    | some s ↦ forget sid (record s { closed = true }) d
  ]

  -- `__del__`
  unfoldable pub drop_stream : ℕ → Dispatcher pb → Dispatcher pb
  drop_stream sid d = record d { queues = discard sid d.queues }

  -- `except QueueEmpty: pass`
  unfoldable pub evict :
      Queue (Item pb) → Result (Item pb × Queue (Item pb)) → Result (Queue (Item pb))
  evict q (ok (_, q')) = ok q'
  evict q (raise queue_empty) = ok q
  evict q (raise e) = raise e

  -- `except QueueFull: …` around the first `put_nowait`
  unfoldable pub drop_oldest :
      Queue (Item pb) → Record pb → Result (Queue (Item pb)) → Result (Queue (Item pb))
  unfolding evict
  drop_oldest q r (ok q') = ok q'
  drop_oldest q r (raise queue_full) = do q' ← evict q (get_nowait q); put_nowait q' (item r)
  drop_oldest q r (raise e) = raise e

  -- One turn of the fan-out loop, on the queue.
  unfoldable pub offer : Record pb → Queue (Item pb) → Result (Queue (Item pb))
  unfolding drop_oldest
  offer r q = drop_oldest q r (put_nowait q (item r))

  -- A turn on the queue of the stream `sid`.
  unfoldable pub on_stream :
      (Queue (Item pb) → Result (Queue (Item pb))) → ℕ → Dispatcher pb → Result (Dispatcher pb)
  on_stream f sid d = elim (Dict.get d.streams sid) [
    | none ↦ ok d
    | some s ↦ f s.queue >>= λ q.
        ok (record d { streams = Dict.put d.streams sid (record s { queue = q }) })
  ]

  -- `for queue in list(self._queues): …`; an error leaves the loop after the turns before it.
  unfoldable pub each_queue :
      (Queue (Item pb) → Result (Queue (Item pb)))
      → List ℕ
      → Dispatcher pb
      → Result (Unit {0}) × Dispatcher pb
  each_queue f [] d = (ok tt, d)
  each_queue f (sid ∷ rest) d = elim (on_stream f sid d) [
    | raise e ↦ (raise e, d)
    | ok d' ↦ each_queue f rest d'
  ]

  -- the first loop of `dispatch`
  unfoldable pub fan_out : Record pb → Dispatcher pb → Result (Unit {0}) × Dispatcher pb
  fan_out r d = each_queue (offer r) d.queues d

  -- `while True` of `close`, on fuel: `none` if that runs out. `except QueueEmpty: break` leaves
  -- the queue as it is.
  unfoldable pub push_sentinel : ℕ → Queue (Item pb) → Option (Result (Queue (Item pb)))
  push_sentinel zero q = none
  push_sentinel (suc fuel) q = elim (put_nowait q sentinel) [
    | ok q' ↦ some (ok q')
    | raise queue_full ↦ elim (get_nowait q) [
      | ok (_, q') ↦ push_sentinel fuel q'
      | raise queue_empty ↦ some (ok q)
      | raise e ↦ some (raise e)
    ]
    | raise e ↦ some (raise e)
  ]

  -- The fuel is one turn for each item, one more and one to spare.
  finished : Queue (Item pb) → Option (Result (Queue (Item pb))) → Result (Queue (Item pb))
  finished q none = ok q
  finished q (some r) = r

  unfoldable pub seal : Queue (Item pb) → Result (Queue (Item pb))
  unfolding finished
  seal q = finished q (push_sentinel (length q.items + 2) q)

  -- `self._queues.clear()` after the loop
  unfoldable pub cleared : Result (Unit {0}) × Dispatcher pb → Result (Unit {0}) × Dispatcher pb
  cleared (ok done, d) = (ok done, record d { queues = [] })
  cleared (raise e, d) = (raise e, d)

  unfoldable pub close : Dispatcher pb → Result (Unit {0}) × Dispatcher pb
  unfolding cleared
  close d = cleared (each_queue seal d.queues (record d { closed = true }))
