-- ===== src/Dispatch/Frozen.antt =====
-- A stream that has closed, and what later calls on the dispatcher do to it.
pub mod Kept
use python_fleet_telemetry.Prelude.{
  ℕ, ◌≡◌, ◌≢◌, refl, sym, ap, ◌∙◌, Bool, true, false, some, List, [], ◌∷◌, ◌++◌, ◌+◌, ◌≤◌, ◌==◌,
  if◌then◌else◌, arith, contains, nat_eq, Option-cases, Bool-cases, inl, inr,
}
use mathlib.Core.List.{append_assoc}
use python_fleet_telemetry.Prelude.Lists.{length, length-append}
use python_fleet_telemetry.Queue.{get_nowait}
use python_fleet_telemetry.Prelude.Dict
use python_fleet_telemetry.Prelude.Dict.{get-put}
use python_fleet_telemetry.Protobuf.{Protobuf}
use python_fleet_telemetry.Records.{Record}
use python_fleet_telemetry.Dispatch.State.{
  Item, item, sentinel, Stream, Dispatcher, add_listener, unsubscribe, records,
}
use python_fleet_telemetry.Dispatch.Streams.{
  receive, forget, pull, resume, anext, aclose, drop_stream, fan_out, close,
}
use python_fleet_telemetry.Dispatch.Loop.{
  Action, listen, unlisten, open_stream, wake, end_stream, drop, deliver, shut_down, perform,
  perform_all,
}
use python_fleet_telemetry.Dispatch.Invariant.{IsWell}
use python_fleet_telemetry.Dispatch.Invariant.Streams.{fan_out-Turned, close-Turned, aclose-IsWell}
use python_fleet_telemetry.Dispatch.Reach.{perform-IsWell}
use python_fleet_telemetry.Dispatch.Frozen.Kept.{
  IsHeld, IsHeld-unregistered, IsHeld-made, put-IsHeld, same_stream, anext-IsHeld, aclose-IsHeld,
  fan_out-IsHeld, close-IsHeld,
}

module _ (pb : Protobuf) (sid : ℕ) (s : Stream pb) (shut : s.closed ≡ true) where
  -- What is left of the stream: it is closed, and some items were taken off the front of its queue,
  -- at most `n` of them.
  abbrev Left : ℕ → Dispatcher pb → Type 0
  Left n d =
      (t : Stream pb) × (Dict.get d.streams sid ≡ some t)
      × (t.closed ≡ true)
      × (taken : List (Item pb)) × (s.queue.items ≡ taken ++ t.queue.items)
      × (length taken ≤ n)

  IsHeld-Left : (n : ℕ) (d : Dispatcher pb) → IsHeld pb sid s shut d → Left n d
  IsHeld-Left n d e = (s, e, shut, [], refl, omega arith)

module _ (pb : Protobuf) (sid : ℕ) where
  -- A wait of the stream itself that is taken up again.
  pull-Left :
      (c : Bool) (m : ℕ) (items : List (Item pb)) (shut : c ≡ true) (d : Dispatcher pb)
      → let s : Stream pb = record { closed = c; queue = record { maxsize = m; items = items } } in
        Left pb sid s shut 1 (pull pb sid s false d).1
  unfolding pull receive forget get_nowait
  pull-Left c m [] shut d = (
    record { closed = c; queue = record { maxsize = m; items = [] } },
    rw get-put (ground arith),
    shut,
    [],
    refl,
    omega arith,
  )
  pull-Left c m (item r ∷ items) shut d = (
    record { closed = c; queue = record { maxsize = m; items = items } },
    rw get-put (ground arith),
    shut,
    item r ∷ [],
    refl,
    omega arith,
  )
  pull-Left c m (sentinel ∷ items) shut d = (
    record { closed = true; queue = record { maxsize = m; items = items } },
    rw get-put (ground arith),
    refl,
    sentinel ∷ [],
    refl,
    omega arith,
  )

  -- The waits of this stream that a call takes up again.
  abbrev pub wakes_by : Action pb → ℕ
  wakes_by (wake j) = if sid == j then 1 else 0
  wakes_by call = 0

  abbrev pub wakes : List (Action pb) → ℕ
  wakes [] = 0
  wakes (call ∷ calls) = wakes_by call + wakes calls

  resume-Left :
      (j : ℕ) (s : Stream pb) (shut : s.closed ≡ true) (d : Dispatcher pb)
      → IsHeld pb sid s shut d
      → Left pb sid s shut (wakes_by (wake j)) (resume pb j d).1
  unfolding resume pull forget
  resume-Left j s shut d e = elim (Option-cases (Dict.get d.streams j)) [
    | inl gone ↦ rw (gone, resume) (IsHeld-Left pb sid s shut (wakes_by (wake j)) d e)
    | inr (t, there) ↦
        rw (there, resume)
          (elim (Bool-cases (sid == j)) [
            | inl same ↦
                let one : j ≡ sid = ground arith in
                let it : t ≡ s = same_stream pb sid s shut j t d e there (sym one) in
                rw same (rw one (rw it (pull-Left s.closed s.queue.maxsize s.queue.items shut d)))
            | inr differs ↦ rw differs (
                IsHeld-Left pb sid s shut 0 (pull pb j t false d).1
                  (put-IsHeld pb sid s shut d j _ e (λ same. ground arith)))
          ])
  ]

  perform-Left :
      (a : Action pb) (s : Stream pb) (shut : s.closed ≡ true) (d : Dispatcher pb)
      → IsWell pb d
      → IsHeld pb sid s shut d
      → Left pb sid s shut (wakes_by a) (perform pb a d)
  unfolding perform add_listener unsubscribe records drop_stream
  perform-Left (listen c v t f) s shut d w e = IsHeld-Left pb sid s shut 0 d e
  perform-Left (unlisten k) s shut d w e = IsHeld-Left pb sid s shut 0 d e
  perform-Left open_stream s shut d w e = IsHeld-Left pb sid s shut 0 (records pb d).1 (
      put-IsHeld pb sid s shut d d.made _ e (λ same. absurd (IsHeld-made pb sid s shut d w e same)))
  perform-Left (Action.pull j) s shut d w e =
      IsHeld-Left pb sid s shut 0 (anext pb j d).1 (anext-IsHeld pb sid s shut j d e)
  perform-Left (wake j) s shut d w e = resume-Left j s shut d e
  perform-Left (end_stream j) s shut d w e =
      IsHeld-Left pb sid s shut 0 (aclose pb j d) (aclose-IsHeld pb sid s shut j d e)
  perform-Left (drop j) s shut d w e = IsHeld-Left pb sid s shut 0 (drop_stream pb j d) e
  perform-Left (deliver r) s shut d w e =
      IsHeld-Left pb sid s shut 0 (fan_out pb r d).1 (fan_out-IsHeld pb sid s shut r d w e)
  perform-Left shut_down s shut d w e =
      IsHeld-Left pb sid s shut 0 (close pb d).1 (close-IsHeld pb sid s shut d w e)

  perform_all-Left :
      (calls : List (Action pb)) (s : Stream pb) (shut : s.closed ≡ true) (d : Dispatcher pb)
      → IsWell pb d
      → IsHeld pb sid s shut d
      → Left pb sid s shut (wakes calls) (perform_all pb calls d)
  unfolding perform_all
  perform_all-Left [] s shut d w e = IsHeld-Left pb sid s shut 0 d e
  perform_all-Left (a ∷ calls) s shut d w e =
      let (t, held, shut', first, from, few) = perform-Left a s shut d w e in
      let (u, left, shut'', rest, from', few') =
        perform_all-Left calls t shut' (perform pb a d) (perform-IsWell pb a d w) held in
      (
        u,
        left,
        shut'',
        first ++ rest,
        from ∙ ap (λ l. first ++ l) from' ∙ sym (append_assoc first rest u.queue.items),
        omega (arith, length-append first rest),
      )

  aclose-closes :
      (s : Stream pb) (d : Dispatcher pb)
      → Dict.get d.streams sid ≡ some s
      → Dict.get (aclose pb sid d).streams sid ≡ some (record s { closed = true })
  unfolding aclose forget
  aclose-closes s d e = rw (e, aclose) (rw get-put (ground arith))

module _ (pb : Protobuf) where
  -- After `aclose` of a stream of a well-formed dispatcher, whatever calls follow, the stream stays
  -- closed, and nothing is put into its queue: the queue is what `aclose` left of it without some
  -- items at its front, at most one for each wait of this stream that is taken up again. Without
  -- such a wait the queue stays as it was, and a queue that was empty stays empty.
  pub aclose-forever :
      (calls : List (Action pb)) (d : Dispatcher pb) (sid : ℕ) (s : Stream pb)
      → IsWell pb d
      → Dict.get d.streams sid ≡ some s
      → (t : Stream pb) × (Dict.get (perform_all pb calls (aclose pb sid d)).streams sid ≡ some t)
        × (t.closed ≡ true)
        × (taken : List (Item pb)) × (s.queue.items ≡ taken ++ t.queue.items)
        × (length taken ≤ wakes pb sid calls)
  aclose-forever calls d sid s w e =
      perform_all-Left pb sid calls (record s { closed = true }) refl (aclose pb sid d)
        (aclose-IsWell pb sid d w) (aclose-closes pb sid s d e)
