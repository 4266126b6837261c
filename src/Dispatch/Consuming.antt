-- ===== src/Dispatch/Consuming.antt =====
-- The loop of a consumer: what it prints, against what was dispatched.
use mathlib.Core.List.Sublistᴰ
use mathlib.Core.List.{Sublistᴰ, append_assoc}
use python_fleet_telemetry.Prelude.{
  ℕ, ◌≡◌, refl, subst, arith, Bool, false, List, [], ◌∷◌, ◌++◌, nat_eq, inl, inr,
}
use python_fleet_telemetry.Prelude.Dict.{get-put}
use python_fleet_telemetry.Protobuf.{Protobuf}
use python_fleet_telemetry.Records.{Record}
use python_fleet_telemetry.Dispatch.State.{Dispatcher, records}
use python_fleet_telemetry.Dispatch.Streams.{Anext, yields, stops, parks}
use python_fleet_telemetry.Dispatch.Loop.{Action, perform_all}
use python_fleet_telemetry.Dispatch.Invariant.{IsWell, AllBounded-of_IsWell, records-IsWell}
use python_fleet_telemetry.Dispatch.Invariant.Streams.{pull-IsWell}
use python_fleet_telemetry.Dispatch.Reach.{perform_all-IsWell}
use python_fleet_telemetry.Dispatch.Consume.{Consumed, awaited, has_parked, stepped, consume}
use python_fleet_telemetry.Dispatch.Pending.{
  pending, delivered_in, dispatched, more, yielded, awaited-cases, awaited-own,
}
use python_fleet_telemetry.Dispatch.History.{perform_all-pending}

module _ (pb : Protobuf) where
  awaited-IsWell :
      (waiting : Bool) (sid : ℕ) (d : Dispatcher pb)
      → IsWell pb d
      → IsWell pb (awaited pb waiting sid d).1
  awaited-IsWell waiting sid d w = elim (awaited-cases pb sid d waiting) [
    | inl e ↦ rw e w
    | inr (c, s, e, step) ↦
        rw step (pull-IsWell pb sid s c d w e (AllBounded-of_IsWell pb d w sid s e))
  ]

  stepped-Sublistᴰ :
      (sid : ℕ) (a : Anext pb) (d : Dispatcher pb) (rest : Consumed pb) (later_ : List (Record pb))
      → Sublistᴰ (rest.printed ++ pending pb sid rest.state) (pending pb sid d ++ later_)
      → let run = stepped pb (a, d) rest in
        Sublistᴰ
          (run.printed ++ pending pb sid run.state)
          ((yielded pb a ++ pending pb sid d) ++ later_)
  unfolding stepped
  stepped-Sublistᴰ sid (yields r) d rest later_ h = Sublistᴰ.cons-cons refl h
  stepped-Sublistᴰ sid stops d rest later_ h = more pb _ _
  stepped-Sublistᴰ sid parks d rest later_ h = h

  -- What the loop prints and what then is left in its stream were, in this order, in the stream, or
  -- were dispatched after that.
  consume-Sublistᴰ :
      (waiting : Bool) (sid : ℕ) (turns : List (List (Action pb))) (d : Dispatcher pb)
      → IsWell pb d
      → let run = consume pb waiting sid turns d in
        Sublistᴰ (run.printed ++ pending pb sid run.state) (pending pb sid d ++ dispatched pb turns)
  unfolding consume
  consume-Sublistᴰ waiting sid [] d w = more pb _ _
  consume-Sublistᴰ waiting sid (calls ∷ turns) d w =
      let d' = perform_all pb calls d in
      let w' = perform_all-IsWell pb calls d w in
      let step = awaited pb waiting sid d' in
      let rest =
        consume-Sublistᴰ (has_parked pb step.0) sid turns step.1
          (awaited-IsWell waiting sid d' w') in
      Sublistᴰ.trans (stepped-Sublistᴰ sid step.0 step.1 _ _ rest) (
        Sublistᴰ.trans (Sublistᴰ.append (awaited-own pb sid d' waiting) (Sublistᴰ.refl _)) (
          subst (Sublistᴰ _)
            (append_assoc (pending pb sid d) (delivered_in pb calls) (dispatched pb turns))
            (Sublistᴰ.append (perform_all-pending pb calls d sid w) (Sublistᴰ.refl _))))

  stepped-IsWell :
      (a : Anext pb) (d : Dispatcher pb) (rest : Consumed pb)
      → IsWell pb d
      → IsWell pb rest.state
      → IsWell pb (stepped pb (a, d) rest).state
  unfolding stepped
  stepped-IsWell (yields r) d rest w w' = w'
  stepped-IsWell stops d rest w w' = w
  stepped-IsWell parks d rest w w' = w'

  pub consume-IsWell :
      (waiting : Bool) (sid : ℕ) (turns : List (List (Action pb))) (d : Dispatcher pb)
      → IsWell pb d
      → IsWell pb (consume pb waiting sid turns d).state
  unfolding consume
  consume-IsWell waiting sid [] d w = w
  consume-IsWell waiting sid (calls ∷ turns) d w =
      let step = awaited pb waiting sid (perform_all pb calls d) in
      let w' = awaited-IsWell waiting sid _ (perform_all-IsWell pb calls d w) in
      stepped-IsWell step.0 step.1 _ w' (consume-IsWell (has_parked pb step.0) sid turns step.1 w')

  pending-records : (d : Dispatcher pb) → pending pb (records pb d).0 (records pb d).1 ≡ []
  unfolding records
  pending-records d = rw get-put (ground arith)

  -- On a well-formed dispatcher, whatever other tasks call on it between the pulls, the records
  -- that a consumer prints from a new stream, with those that are left in it at the end, are some
  -- of the records dispatched since, each at most as often as it was and in the order of their
  -- dispatch.
  pub consume-history :
      (turns : List (List (Action pb))) (d : Dispatcher pb)
      → IsWell pb d
      → let (sid, e) = records pb d in
        let run = consume pb false sid turns e in
        Sublistᴰ (run.printed ++ pending pb sid run.state) (dispatched pb turns)
  consume-history turns d w =
      let (sid, e) = records pb d in
      let empty = pending-records d in
      let run = consume pb false sid turns e in
      subst (λ l. Sublistᴰ (run.printed ++ pending pb sid run.state) (l ++ dispatched pb turns))
        empty (consume-Sublistᴰ false sid turns e (records-IsWell pb d w))
