-- ===== src/Dispatch/Unsubscribe.antt =====
-- `add_listener` and the callable that it returns.
use python_fleet_telemetry.Prelude.{ℕ, ◌≡◌, none, some, List, arith, ◌==◌, nat_eq, if◌then◌else◌}
use python_fleet_telemetry.Prelude.Dict
use python_fleet_telemetry.Prelude.Dict.{get-put, get-pop}
use python_fleet_telemetry.Protobuf.{Protobuf}
use python_fleet_telemetry.Dispatch.State.{Filter, normalize, Dispatcher, add_listener, unsubscribe}
use python_fleet_telemetry.Dispatch.Loop.{Action, perform_all}
use python_fleet_telemetry.Dispatch.Invariant.{IsWell, add_listener-IsWell, unsubscribe-IsWell}
use python_fleet_telemetry.Dispatch.Reach.{perform_all-Later}

module _ (pb : Protobuf) (callback : ℕ) (vin topic field : Filter) (d : Dispatcher pb) where
  -- On a well-formed dispatcher a listener is added under a key that no listener has, with its
  -- normalized filters, and every other listener stays. Its `unsubscribe` takes it away and no
  -- other: the listeners are those from before.
  pub unsubscribe-add_listener :
      IsWell pb d
      → let (key, d') = add_listener pb callback vin topic field d in
        (Dict.get d.registrations key ≡ none)
        × ((k : ℕ)
            → Dict.get d'.registrations k ≡ (
                if k == key
                then some (record {
                  callback = callback;
                  vins = normalize vin;
                  topics = normalize topic;
                  fields = normalize field;
                })
                else Dict.get d.registrations k))
        × ((k : ℕ) → Dict.get (unsubscribe pb key d').registrations k ≡ Dict.get d.registrations k)
  unfolding add_listener unsubscribe
  unsubscribe-add_listener w = (
    w.keys_below d.ids (omega arith),
    λ k. get-put d.registrations d.ids k _,
    λ k. rw get-pop (rw get-put (ground (arith, w.keys_below d.ids))),
  )

  -- On a well-formed dispatcher a second call of `unsubscribe` changes no listener, whatever calls
  -- were made between the two: the key is never given to a later listener.
  pub unsubscribe_twice :
      (calls : List (Action pb)) (k : ℕ)
      → IsWell pb d
      → let (key, d') = add_listener pb callback vin topic field d in
        let e = perform_all pb calls (unsubscribe pb key d') in
        Dict.get (unsubscribe pb key e).registrations k ≡ Dict.get e.registrations k
  unfolding unsubscribe add_listener
  unsubscribe_twice calls k w =
      let d' = (add_listener pb callback vin topic field d).1 in
      let w' =
        unsubscribe-IsWell pb d.ids d' (add_listener-IsWell pb callback vin topic field d w) in
      let later = perform_all-Later pb calls (unsubscribe pb d.ids d') w' in
      let gone : Dict.get (perform_all pb calls (unsubscribe pb d.ids d')).registrations d.ids
          ≡ none =
        later.2 d.ids (omega arith) (rw get-pop (ground arith)) in
      rw get-pop (ground arith)
