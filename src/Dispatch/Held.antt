-- ===== src/Dispatch/Held.antt =====
-- A stream that is open and registered, and whose queue does not overflow.
use mathlib.Core.List.{append_assoc, append-nil}
use python_fleet_telemetry.Prelude.{
  ℕ, ◌≤◌, ◌≡◌, refl, sym, ap, subst, ◌∙◌, arith, Bool, true, false, some, List, [], ◌∷◌, ◌++◌, map,
  nat_eq, contains, ◌⊎◌,
}
use python_fleet_telemetry.Prelude.Lists.{length, length-append}
use python_fleet_telemetry.Prelude.Dict
use python_fleet_telemetry.Prelude.Dict.{get-put}
use python_fleet_telemetry.Queue.{get_nowait}
use python_fleet_telemetry.Queue.Window.{window_short}
use python_fleet_telemetry.Queue.{Queue}
use python_fleet_telemetry.Protobuf.{Protobuf}
use python_fleet_telemetry.Records.{Record}
use python_fleet_telemetry.Dispatch.State.{Item, item, Stream, Dispatcher}
use python_fleet_telemetry.Dispatch.Streams.{
  yields, parks, receive, forget, pull, anext, resume, fan_out,
}
use python_fleet_telemetry.Dispatch.Loop.{deliver, perform, perform_all}
use python_fleet_telemetry.Dispatch.Invariant.{IsWell, AllBounded-of_IsWell}
use python_fleet_telemetry.Dispatch.Invariant.Streams.{pull-IsWell, fan_out-IsWell}
use python_fleet_telemetry.Dispatch.Delivery.{fan_out-window}
use python_fleet_telemetry.Dispatch.Consume.{awaited}

module _ (pb : Protobuf) where
  -- A stream that is open and registered, of a well-formed dispatcher, and the records it holds.
  abbrev pub Holds : ℕ → ℕ → List (Record pb) → Dispatcher pb → Type 0
  Holds sid m rs d =
      IsWell pb d
      × (contains d.queues sid ≡ true)
      × (Dict.get d.streams sid
          ≡ some (record { closed = false; queue = record { maxsize = m; items = map item rs } }))

  -- There is room for the records.
  abbrev pub Fits : ℕ → List (Record pb) → Type 0
  Fits m rs = (m ≡ 0) ⊎ (length rs ≤ m)

  map-append :
      (xs ys : List (Record pb)) → map {B = Item pb} item xs ++ map item ys ≡ map item (xs ++ ys)
  map-append [] ys = refl
  map-append (x ∷ xs) ys = ap (λ l. item x ∷ l) (map-append xs ys)

  length-items : (rs : List (Record pb)) → length {A = Item pb} (map item rs) ≡ length rs
  length-items [] = refl
  length-items (r ∷ rs) = omega (arith, length-items rs)

  room-items :
      (m : ℕ) (rs : List (Record pb)) (r : Record pb)
      → Fits m (rs ++ (r ∷ []))
      → (m ≡ 0) ⊎ (length {A = Item pb} (map item rs ++ (item r ∷ [])) ≤ m)
  room-items m rs r room = omega (
    arith,
    length-append {A = Item pb} (map item rs) (item r ∷ []),
    length-append rs (r ∷ []),
    length-items rs,
    room,
  )

  awaited-open :
      (waiting : Bool) (sid : ℕ) (q : Queue (Item pb)) (d : Dispatcher pb)
      → let s : Stream pb = record { closed = false; queue = q } in
        Dict.get d.streams sid ≡ some s → awaited pb waiting sid d ≡ pull pb sid s false d
  unfolding awaited resume anext
  awaited-open true sid q d e = rw (e, resume) refl
  awaited-open false sid q d e = rw (e, anext) refl

  fan_out-Holds :
      (r : Record pb) (sid m : ℕ) (rs : List (Record pb)) (d : Dispatcher pb)
      → Fits m (rs ++ (r ∷ []))
      → Holds sid m rs d
      → Holds sid m (rs ++ (r ∷ [])) (fan_out pb r d).1
  fan_out-Holds r sid m rs d room (w, c, e) =
      let (_, at, q, _) = fan_out-window pb r d w in
      let window_ = window_short m (map item rs ++ (item r ∷ [])) (room-items m rs r room) in
      (
        fan_out-IsWell pb r d w,
        rw q c,
        rw (at sid) (
            rw c (
              rw e (
                ap
                  (λ l. some (record { closed = false; queue = record { maxsize = m; items = l } }))
                  (window_ ∙ map-append rs (r ∷ []))))),
      )

  pub awaited-nil :
      (waiting : Bool) (sid m : ℕ) (d : Dispatcher pb)
      → Holds sid m [] d
      → ((awaited pb waiting sid d).0 ≡ parks) × Holds sid m [] (awaited pb waiting sid d).1
  unfolding pull receive get_nowait forget
  awaited-nil waiting sid m d (w, c, e) = rw (awaited-open waiting sid _ d e) (
    refl,
    (
      pull-IsWell pb sid _ false d w e (AllBounded-of_IsWell pb d w sid _ e),
      c,
      rw get-put (ground arith),
    ),
  )

  pub awaited-cons :
      (waiting : Bool) (sid m : ℕ) (r : Record pb) (rs : List (Record pb)) (d : Dispatcher pb)
      → Holds sid m (r ∷ rs) d
      → ((awaited pb waiting sid d).0 ≡ yields r) × Holds sid m rs (awaited pb waiting sid d).1
  unfolding pull receive get_nowait forget
  awaited-cons waiting sid m r rs d (w, c, e) = rw (awaited-open waiting sid _ d e) (
    refl,
    (
      pull-IsWell pb sid _ false d w e (AllBounded-of_IsWell pb d w sid _ e),
      c,
      rw get-put (ground arith),
    ),
  )

  pub Fits-shorter : (m : ℕ) (xs ys : List (Record pb)) → Fits m (xs ++ ys) → Fits m xs
  Fits-shorter m xs ys room = omega (arith, length-append xs ys, room)

  pub deliver-Holds :
      (rs : List (Record pb)) (sid m : ℕ) (xs : List (Record pb)) (d : Dispatcher pb)
      → Fits m (xs ++ rs)
      → Holds sid m xs d
      → Holds sid m (xs ++ rs) (perform_all pb (map deliver rs) d)
  unfolding perform_all perform
  deliver-Holds [] sid m xs d room h = subst (λ l. Holds sid m l d) (sym (append-nil xs)) h
  deliver-Holds (r ∷ rs) sid m xs d room h =
      let split = append_assoc xs (r ∷ []) rs in
      let room' = subst (Fits m) (sym split) room in
      let h' = fan_out-Holds r sid m xs d (Fits-shorter m (xs ++ (r ∷ [])) rs room') h in
      subst (λ l. Holds sid m l (perform_all pb (map deliver rs) (fan_out pb r d).1)) split
        (deliver-Holds rs sid m (xs ++ (r ∷ [])) (fan_out pb r d).1 room' h')
