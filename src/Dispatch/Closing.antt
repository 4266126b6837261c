-- ===== src/Dispatch/Closing.antt =====
-- `Dispatcher.close`: every stream that was open comes to its end, and none opens again.
use mathlib.Core.Option
use python_fleet_telemetry.Prelude.{
  ℕ, zero, suc, ◌+◌, ◌≤◌, ◌<◌, ◌≡◌, refl, ap, ◌∙◌, Bool, true, false, Option, none, some, List, [],
  ◌∷◌, ◌++◌, map, arith, ◌⊎◌, ◌&&◌, ltb, leb, contains, nat_eq, Bool-cases, inl, inr, if◌then◌else◌,
}
use python_fleet_telemetry.Prelude.Lists.{length, length-append}
use python_fleet_telemetry.Prelude.Dict
use python_fleet_telemetry.Prelude.Dict.{get-put}
use python_fleet_telemetry.Errors.{Result}
use python_fleet_telemetry.Queue.{get_nowait}
use python_fleet_telemetry.Queue.Window.{window, window_short, window_cons, pushed}
use python_fleet_telemetry.Protobuf.{Protobuf}
use python_fleet_telemetry.Records.{Record}
use python_fleet_telemetry.Dispatch.State.{Item, item, sentinel, Stream, Dispatcher, records}
use python_fleet_telemetry.Dispatch.Streams.{
  yields, stops, parks, receive, forget, pull, anext, close,
}
use python_fleet_telemetry.Dispatch.Loop.{Action, perform_all}
use python_fleet_telemetry.Dispatch.Turns.{turned}
use python_fleet_telemetry.Dispatch.Invariant.{IsWell, AllBounded-of_IsWell}
use python_fleet_telemetry.Dispatch.Invariant.Streams.{close-Turned, close-IsWell}
use python_fleet_telemetry.Dispatch.Reach.{perform_all-IsWell, perform_all-Later}

module _ (pb : Protobuf) where
  closed-close : (d : Dispatcher pb) → IsWell pb d → (close pb d).1.closed ≡ true
  closed-close d w =
      let (d', e, t) = close-Turned pb d w in
      ap (λ (x : Result (Unit {0}) × Dispatcher pb). x.1.closed) e ∙ ap (λ x. x.closed) t.rest

  pull-closed :
      (sid : ℕ) (s : Stream pb) (c : Bool) (d : Dispatcher pb)
      → c ≡ true
      → (pull pb sid s c d).0 ≡ stops
  unfolding pull
  pull-closed sid s true d h = refl
  pull-closed sid s false d h = cc

  exhausted :
      (e : Dispatcher pb) → e.closed ≡ true → (anext pb (records pb e).0 (records pb e).1).0 ≡ stops
  unfolding records anext
  exhausted e c =
      let s : Stream pb = record {
        closed = e.closed;
        queue = record { maxsize = e.queue_maxsize; items = [] };
      } in
      let got : Dict.get (Dict.put e.streams e.made s) e.made ≡ some s =
        rw get-put (ground arith) in
      rw (got, anext) (pull-closed e.made s e.closed (records pb e).1 c)

  -- After `close` of a well-formed dispatcher, and any calls after that, no queue is registered,
  -- and a stream that `records` then returns is exhausted.
  pub close-forever :
      (calls : List (Action pb)) (d : Dispatcher pb)
      → IsWell pb d
      → let e = perform_all pb calls (close pb d).1 in
        (e.queues ≡ []) × ((anext pb (records pb e).0 (records pb e).1).0 ≡ stops)
  close-forever calls d w =
      let e = perform_all pb calls (close pb d).1 in
      let w' = close-IsWell pb d w in
      let e-IsWell = perform_all-IsWell pb calls (close pb d).1 w' in
      let shut : e.closed ≡ true =
        (perform_all-Later pb calls (close pb d).1 w').1 (closed-close d w) in
      (e-IsWell.shut shut, exhausted e shut)

  -- Pulling from a stream until it stops: its records, `none` if it parks or the fuel runs out.
  unfoldable pub drain : ℕ → ℕ → Dispatcher pb → Option (List (Record pb))
  drain zero sid d = none
  drain (suc fuel) sid d =
      let rest = drain fuel sid (anext pb sid d).1 in
      elim (anext pb sid d).0 [
        | yields r ↦ Option.map (λ rs. r ∷ rs) rest
        | stops ↦ some []
        | parks ↦ none
      ]

  anext-item :
      (sid : ℕ) (d : Dispatcher pb) (m : ℕ) (r : Record pb) (items : List (Item pb))
      → Dict.get d.streams sid
        ≡ some (record { closed = false; queue = record { maxsize = m; items = item r ∷ items } })
      → ((anext pb sid d).0 ≡ yields r)
        × (Dict.get (anext pb sid d).1.streams sid
            ≡ some (record { closed = false; queue = record { maxsize = m; items = items } }))
  unfolding anext pull receive get_nowait forget
  anext-item sid d m r items e = rw (e, anext) (refl, rw get-put (ground arith))

  anext-sentinel :
      (sid : ℕ) (d : Dispatcher pb) (m : ℕ) (items : List (Item pb))
      → Dict.get d.streams sid
        ≡ some (record { closed = false; queue = record { maxsize = m; items = sentinel ∷ items } })
      → (anext pb sid d).0 ≡ stops
  unfolding anext pull receive get_nowait forget
  anext-sentinel sid d m items e = rw (e, anext) refl

  drain-items :
      (rs : List (Record pb)) (fuel sid : ℕ) (d : Dispatcher pb) (m : ℕ)
      → length rs < fuel
      → Dict.get d.streams sid
        ≡ some (record {
          closed = false;
          queue = record { maxsize = m; items = map item rs ++ (sentinel ∷ []) };
        })
      → drain fuel sid d ≡ some rs
  unfolding drain
  drain-items rs zero sid d m h e = absurd (omega arith)
  drain-items [] (suc fuel) sid d m h e = rw (anext-sentinel sid d m [] e, drain) refl
  drain-items (r ∷ rs) (suc fuel) sid d m h e =
      let (got, left) = anext-item sid d m r (map item rs ++ (sentinel ∷ [])) e in
      rw (got, drain) (rw (drain-items rs fuel sid (anext pb sid d).1 m (omega arith) left) refl)

  -- What is left of the records of a queue that takes in one more item.
  abbrev pub kept : ℕ → List (Record pb) → List (Record pb)
  kept m [] = []
  kept m (r ∷ rs) = if ltb 0 m && leb m (length (r ∷ rs)) then rs else r ∷ rs

  abbrev ended : List (Record pb) → List (Item pb)
  ended rs = map item rs ++ (sentinel ∷ [])

  length-items : (rs : List (Record pb)) → length {A = Item pb} (map item rs) ≡ length rs
  length-items [] = refl
  length-items (r ∷ rs) = omega (arith, length-items rs)

  length-ended : (rs : List (Record pb)) → length (ended rs) ≡ length rs + 1
  length-ended rs =
      omega (arith, length-items rs, length-append {A = Item pb} (map item rs) (sentinel ∷ []))

  window-ended :
      (m : ℕ) (rs : List (Record pb))
      → (m ≡ 0) ⊎ (length rs ≤ m)
      → window m (ended rs) ≡ ended (kept m rs)
  window-ended m [] b = window_short m (ended []) (omega arith)
  window-ended m (r ∷ rs) b = elim (Bool-cases (ltb 0 m && leb m (length (r ∷ rs)))) [
    | inl full_ ↦ rw full_ (
        window_cons m (item r) (ended rs) (ground arith) (ground (arith, length-ended rs))
        ∙ window_short m (ended rs) (inr (ground (arith, length-ended rs))))
    | inr room ↦ rw room (window_short m (ended (r ∷ rs)) (ground (arith, length-ended (r ∷ rs))))
  ]

  length-kept : (m : ℕ) (rs : List (Record pb)) → length (kept m rs) < length rs + 1
  length-kept m [] = omega arith
  length-kept m (r ∷ rs) = ground arith

  turned_at :
      (j : ℕ) (d : Dispatcher pb) (m : ℕ) (rs : List (Record pb))
      → contains d.queues j ≡ true
      → Dict.get d.streams j
        ≡ some (record { closed = false; queue = record { maxsize = m; items = map item rs } })
      → (if contains d.queues j
          then turned pb (pushed sentinel) (Dict.get d.streams j)
          else Dict.get d.streams j)
        ≡ some
            (record { closed = false; queue = record { maxsize = m; items = window m (ended rs) } })
  turned_at j d m rs c e = rw (c, e) refl

  -- On `close` of a well-formed dispatcher, a stream that is open and whose queue is registered
  -- gets its end: it yields the records that it holds, but for the oldest if the queue is full, and
  -- then stops, within one pull more.
  pub close-drain :
      (d : Dispatcher pb) (j : ℕ) (m : ℕ) (rs : List (Record pb))
      → IsWell pb d
      → contains d.queues j ≡ true
      → Dict.get d.streams j
        ≡ some (record { closed = false; queue = record { maxsize = m; items = map item rs } })
      → drain (length rs + 1) j (close pb d).1 ≡ some (kept m rs)
  close-drain d j m rs w c e =
      let (d', closes, t) = close-Turned pb d w in
      let b = AllBounded-of_IsWell pb d w j _ e in
      let at : Dict.get d'.streams j
          ≡ some (record {
            closed = false;
            queue = record { maxsize = m; items = ended (kept m rs) };
          }) =
        t.at j
        ∙ turned_at j d m rs c e
        ∙ ap (λ x. some (record { closed = false; queue = record { maxsize = m; items = x } }))
            (window-ended m rs (omega (arith, length-items rs))) in
      rw closes (
        drain-items (kept m rs) (length rs + 1) j (record d' { queues = [] }) m (length-kept m rs)
          at)
