-- ===== src/Dispatch/Invariant/Streams.antt =====
-- That reading, ending and filling streams, and closing, keep the invariant.
use python_fleet_telemetry.Prelude.{
  ℕ, ◌≡◌, refl, ap, Bool, true, false, Option, none, some, List, [], ◌∷◌, arith, contains, nat_eq,
  Option-cases, inl, inr, if◌then◌else◌,
}
use python_fleet_telemetry.Prelude.Dict
use python_fleet_telemetry.Prelude.Dict.{get-put, get-pop, NodupKeys, put-NodupKeys, pop-NodupKeys}
use python_fleet_telemetry.Errors.{Result, ok}
use python_fleet_telemetry.Queue.{Queue, get_nowait, pop_front, IsBounded}
use python_fleet_telemetry.Queue.Window.{pushed, pushed-IsBounded}
use python_fleet_telemetry.Protobuf.{Protobuf}
use python_fleet_telemetry.Records.{Record}
use python_fleet_telemetry.Dispatch.State.{Item, item, sentinel, Stream, Dispatcher}
use python_fleet_telemetry.Dispatch.Streams.{
  receive, forget, pull, anext, resume, aclose, drop_stream, offer, seal, fan_out, cleared, close,
}
use python_fleet_telemetry.Dispatch.Ids.{contains-discard, discard-NodupIds, discard-nil}
use python_fleet_telemetry.Dispatch.Fanout.{offer_lem, seal_lem}
use python_fleet_telemetry.Dispatch.Turns.{turned, Turned, each_queue-Turned}
use python_fleet_telemetry.Dispatch.Invariant.{IsSound, IsWell, AllBounded-of_IsWell}

module _ (pb : Protobuf) where
  -- A stream takes the place of one with the same queue bound, and may close.
  forget-IsWell :
      (sid : ℕ) (s s' : Stream pb) (d : Dispatcher pb)
      → IsWell pb d
      → Dict.get d.streams sid ≡ some s
      → s'.queue.maxsize ≡ s.queue.maxsize
      → IsBounded s'.queue
      → (s.closed ≡ true → s'.closed ≡ true)
      → IsWell pb (forget pb sid s' d)
  unfolding forget
  forget-IsWell sid s s' d w e m b c = record {
    streams = λ j.
        rw get-put (ground (arith, contains-discard sid d.queues j, w.streams j, w.streams sid));
    nodup = ground (arith, discard-NodupIds sid d.queues w.nodup);
    unmade = λ j h. rw get-put (ground (arith, w.unmade j));
    shut = λ q. ground (arith, w.shut, discard-nil sid d.queues (w.shut q));
    keys_nodup = w.keys_nodup;
    keys_below = w.keys_below;
  }

  -- What a `get` leaves of a stream.
  abbrev Kept : Stream pb → Stream pb → Type 0
  Kept s s' =
      (s'.queue.maxsize ≡ s.queue.maxsize)
      × IsBounded s'.queue
      × (s.closed ≡ true → s'.closed ≡ true)

  receive-Kept :
      (s : Stream pb) (m : ℕ) (items : List (Item pb))
      → m ≡ s.queue.maxsize
      → IsBounded (record { maxsize = m; items = items })
      → IsBounded s.queue
      → Kept s (receive pb s (pop_front m items)).1
  unfolding receive pop_front
  receive-Kept s m [] e b h = (refl, h, λ c. c)
  receive-Kept s m (item r ∷ items) e b h = (e, omega arith, λ c. c)
  receive-Kept s m (sentinel ∷ items) e b h = (e, omega arith, λ c. refl)

  pub pull-IsWell :
      (sid : ℕ) (s : Stream pb) (c : Bool) (d : Dispatcher pb)
      → IsWell pb d
      → Dict.get d.streams sid ≡ some s
      → IsBounded s.queue
      → IsWell pb (pull pb sid s c d).1
  unfolding pull get_nowait
  pull-IsWell sid s true d w e b = w
  pull-IsWell sid s false d w e b =
      let (m, b', c) = receive-Kept s s.queue.maxsize s.queue.items refl b b in
      forget-IsWell sid s _ d w e m b' c

  pub anext-IsWell : (sid : ℕ) (d : Dispatcher pb) → IsWell pb d → IsWell pb (anext pb sid d).1
  unfolding anext
  anext-IsWell sid d w = elim (Option-cases (Dict.get d.streams sid)) [
    | inl e ↦ rw (e, anext) w
    | inr (s, e) ↦
        rw (e, anext) (pull-IsWell sid s s.closed d w e (AllBounded-of_IsWell pb d w sid s e))
  ]

  pub resume-IsWell : (sid : ℕ) (d : Dispatcher pb) → IsWell pb d → IsWell pb (resume pb sid d).1
  unfolding resume
  resume-IsWell sid d w = elim (Option-cases (Dict.get d.streams sid)) [
    | inl e ↦ rw (e, resume) w
    | inr (s, e) ↦
        rw (e, resume) (pull-IsWell sid s false d w e (AllBounded-of_IsWell pb d w sid s e))
  ]

  pub aclose-IsWell : (sid : ℕ) (d : Dispatcher pb) → IsWell pb d → IsWell pb (aclose pb sid d)
  unfolding aclose
  aclose-IsWell sid d w = elim (Option-cases (Dict.get d.streams sid)) [
    | inl e ↦ rw (e, aclose) w
    | inr (s, e) ↦
        rw (e, aclose)
          (forget-IsWell sid s _ d w e refl (AllBounded-of_IsWell pb d w sid s e) (λ _. refl))
  ]

  pub drop_stream-IsWell :
      (sid : ℕ) (d : Dispatcher pb) → IsWell pb d → IsWell pb (drop_stream pb sid d)
  unfolding drop_stream
  drop_stream-IsWell sid d w = record {
    streams = λ j. ground (arith, contains-discard sid d.queues j, w.streams j);
    nodup = discard-NodupIds sid d.queues w.nodup;
    unmade = w.unmade;
    shut = λ q. discard-nil sid d.queues (w.shut q);
    keys_nodup = w.keys_nodup;
    keys_below = w.keys_below;
  }

  push-IsSound :
      (i : Item pb) (f : Queue (Item pb) → Result (Queue (Item pb)))
      (fg : (q : Queue (Item pb)) → IsBounded q → f q ≡ ok (pushed i q)) (m : ℕ) (registered : Bool)
      (o : Option (Stream pb))
      → IsSound pb m registered o
      → IsSound pb m registered (if registered then turned pb (pushed i) o else o)
  push-IsSound i f fg m true none h = h
  push-IsSound i f fg m true (some s) (e, b, c) = (e, pushed-IsBounded i s.queue, c)
  push-IsSound i f fg m false o h = h

  -- A loop of turns that puts one item into each registered queue.
  Turned-IsWell :
      (i : Item pb) (f : Queue (Item pb) → Result (Queue (Item pb)))
      (fg : (q : Queue (Item pb)) → IsBounded q → f q ≡ ok (pushed i q)) (d d' : Dispatcher pb)
      → IsWell pb d
      → Turned pb f (pushed i) fg (pushed-IsBounded i) d.queues d d'
      → IsWell pb d'
  Turned-IsWell i f fg d d' w t = rw t.rest (record {
    streams = λ j. rw (t.at j) (push-IsSound i f fg _ (contains d.queues j) _ (w.streams j));
    nodup = w.nodup;
    unmade = λ j h. ground (arith, t.at j, w.unmade j);
    shut = w.shut;
    keys_nodup = w.keys_nodup;
    keys_below = w.keys_below;
  })

  -- The fan-out never raises, and it puts the record into every registered queue and no other.
  pub fan_out-Turned :
      (r : Record pb) (d : Dispatcher pb)
      → IsWell pb d
      → (d' : Dispatcher pb) × (fan_out pb r d ≡ (ok tt, d'))
        × Turned pb
            (offer pb r)
            (pushed (item r))
            (offer_lem pb r)
            (pushed-IsBounded (item r))
            d.queues
            d
            d'
  unfolding fan_out
  fan_out-Turned r d w =
      each_queue-Turned pb (offer pb r) (pushed (item r)) (offer_lem pb r)
        (pushed-IsBounded (item r)) d.queues d w.nodup (AllBounded-of_IsWell pb d w)

  pub fan_out-IsWell :
      (r : Record pb) (d : Dispatcher pb) → IsWell pb d → IsWell pb (fan_out pb r d).1
  fan_out-IsWell r d w =
      let (d', e, t) = fan_out-Turned r d w in
      rw e (Turned-IsWell (item r) (offer pb r) (offer_lem pb r) d d' w t)

  -- `close` never raises, and it puts the sentinel into every queue that was registered.
  pub close-Turned :
      (d : Dispatcher pb)
      → IsWell pb d
      → (d' : Dispatcher pb) × (close pb d ≡ (ok tt, record d' { queues = [] }))
        × Turned pb
            (seal pb)
            (pushed sentinel)
            (λ q _. seal_lem pb q)
            (pushed-IsBounded sentinel)
            d.queues
            (record d { closed = true })
            d'
  unfolding close
  close-Turned d w =
      let (d', e, t) =
        each_queue-Turned pb (seal pb) (pushed sentinel) (λ q _. seal_lem pb q)
          (pushed-IsBounded sentinel) d.queues (record d { closed = true }) w.nodup
          (AllBounded-of_IsWell pb d w) in
      (d', ap (cleared pb) e, t)

  unregister :
      (m : ℕ) (registered : Bool) (o : Option (Stream pb))
      → IsSound pb m registered o
      → IsSound pb m false o
  unregister m registered none h = refl
  unregister m registered (some s) (e, b, c) = (e, b, λ p. cc)

  pub close-IsWell : (d : Dispatcher pb) → IsWell pb d → IsWell pb (close pb d).1
  close-IsWell d w =
      let (d', e, t) = close-Turned d w in
      rw e (
        rw t.rest (record {
          streams = λ j. unregister d.queue_maxsize (contains d.queues j) _ (
              rw (t.at j) (
                push-IsSound sentinel (seal pb) (λ q _. seal_lem pb q) d.queue_maxsize
                  (contains d.queues j) _ (w.streams j)));
          nodup = tt;
          unmade = λ j h. ground (arith, t.at j, w.unmade j);
          shut = λ _. refl;
          keys_nodup = w.keys_nodup;
          keys_below = w.keys_below;
        }))
