-- ===== src/Dispatch/Invariant.antt =====
-- What holds of a dispatcher after any calls on it, in any order.
pub mod Streams
use python_fleet_telemetry.Prelude.{
  ℕ, ◌≤◌, ◌≡◌, refl, ap, Bool, true, false, Option, none, some, List, [], ◌∷◌, arith, contains,
  nat_eq, Option-cases, inl, inr, if◌then◌else◌,
}
use python_fleet_telemetry.Prelude.Dict
use python_fleet_telemetry.Prelude.Dict.{get-put, get-pop, NodupKeys, put-NodupKeys, pop-NodupKeys}
use python_fleet_telemetry.Errors.{Result, ok}
use python_fleet_telemetry.Queue.{Queue, get_nowait, pop_front, IsBounded}
use python_fleet_telemetry.Queue.Window.{pushed, pushed-IsBounded}
use python_fleet_telemetry.Protobuf.{Protobuf}
use python_fleet_telemetry.Records.{Record}
use python_fleet_telemetry.Dispatch.State.{
  Filter, Item, item, sentinel, Stream, Dispatcher, init, add_listener, unsubscribe, records,
}
use python_fleet_telemetry.Dispatch.Streams.{
  receive, forget, pull, anext, aclose, drop_stream, offer, seal, fan_out, cleared, close,
}
use python_fleet_telemetry.Dispatch.Ids.{
  NodupIds, contains-discard, discard-NodupIds, discard-nil, contains-add, add-NodupIds,
}
use python_fleet_telemetry.Dispatch.Fanout.{offer_lem, seal_lem}
use python_fleet_telemetry.Dispatch.Turns.{AllBounded, turned, Turned, each_queue-Turned}

module _ (pb : Protobuf) where
  -- A stream whose queue is registered, or not: the queue has the dispatcher's bound and keeps it,
  -- and a registered queue is that of a stream that is there and has not closed.
  abbrev pub IsSound : ℕ → Bool → Option (Stream pb) → Type 0
  IsSound m registered none = registered ≡ false
  IsSound m registered (some s) =
      (s.queue.maxsize ≡ m) × IsBounded s.queue × (registered ≡ true → s.closed ≡ false)

  pub record IsWell (d : Dispatcher pb) : Type 0 where
    pub streams : (j : ℕ) → IsSound d.queue_maxsize (contains d.queues j) (Dict.get d.streams j)
    pub nodup : NodupIds d.queues
    pub unmade : (j : ℕ) → d.made ≤ j → Dict.get d.streams j ≡ none
    -- a closed dispatcher has no registered queue
    pub shut : d.closed ≡ true → d.queues ≡ []
    -- the keys of listeners are distinct and were handed out
    pub keys_nodup : NodupKeys d.registrations
    pub keys_below : (k : ℕ) → d.ids ≤ k → Dict.get d.registrations k ≡ none

  pub init-IsWell : (n : ℕ) → IsWell (init pb n)
  unfolding init Dict.get
  init-IsWell n = record {
    streams = λ j. refl;
    nodup = tt;
    unmade = λ j h. refl;
    shut = λ e. refl;
    keys_nodup = tt;
    keys_below = λ k h. refl;
  }

  pub add_listener-IsWell :
      (callback : ℕ) (vin topic field : Filter) (d : Dispatcher pb)
      → IsWell d
      → IsWell (add_listener pb callback vin topic field d).1
  unfolding add_listener
  add_listener-IsWell callback vin topic field d w = record {
    streams = w.streams;
    nodup = w.nodup;
    unmade = w.unmade;
    shut = w.shut;
    keys_nodup = put-NodupKeys d.registrations d.ids _ w.keys_nodup;
    keys_below = λ k h. rw get-put (ground (arith, w.keys_below k));
  }

  pub unsubscribe-IsWell : (key : ℕ) (d : Dispatcher pb) → IsWell d → IsWell (unsubscribe pb key d)
  unfolding unsubscribe
  unsubscribe-IsWell key d w = record {
    streams = w.streams;
    nodup = w.nodup;
    unmade = w.unmade;
    shut = w.shut;
    keys_nodup = pop-NodupKeys d.registrations key w.keys_nodup;
    keys_below = λ k h. rw get-pop (ground (arith, w.keys_below k));
  }

  pub records-IsWell : (d : Dispatcher pb) → IsWell d → IsWell (records pb d).1
  unfolding records
  records-IsWell d w = record {
    streams = λ j. rw get-put (ground (arith, contains-add d.made d.queues j, w.streams j));
    nodup = ground (arith, add-NodupIds d.made d.queues w.nodup);
    unmade = λ j h. rw get-put (ground (arith, w.unmade j));
    shut = λ e. ground (arith, w.shut);
    keys_nodup = w.keys_nodup;
    keys_below = w.keys_below;
  }

  pub AllBounded-of_IsWell : (d : Dispatcher pb) → IsWell d → AllBounded pb d
  AllBounded-of_IsWell d w j s e =
      let h : IsSound d.queue_maxsize (contains d.queues j) (some s) = rw e at (w.streams j) in h.1
