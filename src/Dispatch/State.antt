-- ===== src/Dispatch/State.antt =====
-- fleet_telemetry/dispatch.py: the state of a `Dispatcher`, its filters, listeners and streams. A
-- stream is an object known by a number, and it owns the one queue that it made, so `_queues` is a
-- list of such numbers. A set has no order, and nothing below depends on the order of the list.
-- `None`, one `str` and an iterable are the cases of `Filter`.
use python_fleet_telemetry.Prelude.{
  ℕ, ◌+◌, Bool, true, false, not, ◌&&◌, Option, none, some, List, [], ◌∷◌, ◌++◌, Str, contains,
  ◌==◌, nat_eq, str_eq, if◌then◌else◌,
}
use python_fleet_telemetry.Prelude.Dict
use python_fleet_telemetry.Prelude.Dict.{Dict, keys, values}
use python_fleet_telemetry.Queue.{Queue}
use python_fleet_telemetry.Protobuf.{Protobuf}
use python_fleet_telemetry.Records.{vehicle_data, alerts, errors, connectivity, topic_value, Record}

pub data Filter : Type 0 where
  unconstrained : Filter
  single : Str → Filter
  among : List Str → Filter

unfoldable pub normalize : Filter → Option (List Str)
normalize unconstrained = none
normalize (single value) = some (value ∷ [])
normalize (among values) = some values

-- `Listener` objects are known by numbers; `World` below says what they do.
pub record Registration : Type 0 where
  pub callback : ℕ
  pub vins : Option (List Str)
  pub topics : Option (List Str)
  pub fields : Option (List Str)

unfoldable pub isdisjoint : List Str → List Str → Bool
isdisjoint xs [] = true
isdisjoint xs (y ∷ ys) = not (contains xs y) && isdisjoint xs ys

-- `constraint is not None and value not in constraint`
abbrev pub excludes : Option (List Str) → Str → Bool
excludes none value = false
excludes (some allowed) value = not (contains allowed value)

abbrev pub misses : Option (List Str) → List Str → Bool
misses none field_keys = false
misses (some wanted) field_keys = isdisjoint wanted field_keys

-- `discard` of a set, and `add`
unfoldable pub discard : ℕ → List ℕ → List ℕ
discard x [] = []
discard x (y ∷ ys) = let rest = discard x ys in if x == y then rest else y ∷ rest

unfoldable pub add : ℕ → List ℕ → List ℕ
add x ys = if contains ys x then ys else ys ++ (x ∷ [])

module _ (pb : Protobuf) where
  unfoldable pub matches : Registration → Record pb → List Str → Bool
  matches self record_ field_keys =
      if excludes self.vins record_.vin
      then false
      else if excludes self.topics (topic_value record_.topic)
      then false
      else if misses self.fields field_keys
      then false
      else true

  -- `_Item`: a record, or the end-of-stream sentinel `_CLOSED`
  pub data Item : Type 0 where
    item : Record pb → Item
    sentinel : Item

  pub record Stream : Type 0 where
    pub closed : Bool
    pub queue : Queue Item

  -- `streams` holds every stream made so far by its number, the next of which is `made`.
  pub record Dispatcher : Type 0 where
    pub queue_maxsize : ℕ
    pub registrations : Dict ℕ Registration
    pub queues : List ℕ
    pub ids : ℕ
    pub closed : Bool
    pub streams : Dict ℕ Stream
    pub made : ℕ

  unfoldable pub init : ℕ → Dispatcher
  init queue_maxsize = record {
    queue_maxsize = queue_maxsize;
    registrations = [];
    queues = [];
    ids = 0;
    closed = false;
    streams = [];
    made = 0;
  }

  -- The key that the returned `unsubscribe` closes over comes back.
  unfoldable pub add_listener : ℕ → Filter → Filter → Filter → Dispatcher → ℕ × Dispatcher
  unfolding normalize
  add_listener callback vin topic field d =
      let registration : Registration = record {
        callback = callback;
        vins = normalize vin;
        topics = normalize topic;
        fields = normalize field;
      } in
      (
        d.ids,
        record d { registrations = Dict.put d.registrations d.ids registration; ids = d.ids + 1 },
      )

  unfoldable pub unsubscribe : ℕ → Dispatcher → Dispatcher
  unsubscribe key d = record d { registrations = Dict.pop d.registrations key }

  unfoldable pub on_data : ℕ → Filter → Filter → Dispatcher → ℕ × Dispatcher
  on_data callback vin field = add_listener callback vin (single (topic_value vehicle_data)) field

  unfoldable pub on_alert : ℕ → Filter → Filter → Dispatcher → ℕ × Dispatcher
  on_alert callback vin field = add_listener callback vin (single (topic_value alerts)) field

  unfoldable pub on_error : ℕ → Filter → Filter → Dispatcher → ℕ × Dispatcher
  on_error callback vin field = add_listener callback vin (single (topic_value errors)) field

  unfoldable pub on_connectivity : ℕ → Filter → Filter → Dispatcher → ℕ × Dispatcher
  on_connectivity callback vin field =
      add_listener callback vin (single (topic_value connectivity)) field

  -- `records`, with `_RecordStream.__init__`
  unfoldable pub records : Dispatcher → ℕ × Dispatcher
  records d =
      let stream : Stream = record {
        closed = d.closed;
        queue = record { maxsize = d.queue_maxsize; items = [] };
      } in
      (
        d.made,
        record d {
          streams = Dict.put d.streams d.made stream;
          made = d.made + 1;
          queues = if d.closed then d.queues else add d.made d.queues;
        },
      )
