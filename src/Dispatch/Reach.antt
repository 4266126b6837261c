-- ===== src/Dispatch/Reach.antt =====
-- Sequences of calls on a dispatcher, and `dispatch` with all that its listeners do: the invariant,
-- and what no call undoes.
use python_fleet_telemetry.Prelude.{
  ℕ, suc, ◌≤◌, ◌<◌, ◌≡◌, refl, sym, subst, Bool, true, false, Option, none, List, [], ◌∷◌, Str,
  arith, nat_eq, Option-cases, Bool-cases, inl, inr,
}
use python_fleet_telemetry.Prelude.Dict
use python_fleet_telemetry.Prelude.Dict.{Dict, get-put, get-pop, keys, values}
use python_fleet_telemetry.Errors.{Result, ok, raise}
use python_fleet_telemetry.Protobuf.{Protobuf}
use python_fleet_telemetry.Records.{Record, fields}
use python_fleet_telemetry.Dispatch.State.{
  Registration, Stream, Dispatcher, add_listener, unsubscribe, records, matches,
}
use python_fleet_telemetry.Dispatch.Streams.{
  forget, pull, anext, resume, aclose, drop_stream, fan_out, close,
}
use python_fleet_telemetry.Dispatch.Loop.{
  Action, listen, unlisten, open_stream, wake, end_stream, drop, deliver, shut_down, perform,
  perform_all, World, caught, notify, with_fields, after_fan_out, dispatch,
}
use python_fleet_telemetry.Dispatch.Invariant.{
  IsWell, add_listener-IsWell, unsubscribe-IsWell, records-IsWell,
}
use python_fleet_telemetry.Dispatch.Invariant.Streams.{
  anext-IsWell, resume-IsWell, aclose-IsWell, drop_stream-IsWell, fan_out-Turned, fan_out-IsWell,
  close-Turned, close-IsWell,
}

module _ (pb : Protobuf) where
  pub perform-IsWell :
      (a : Action pb) (d : Dispatcher pb) → IsWell pb d → IsWell pb (perform pb a d)
  unfolding perform
  perform-IsWell (listen c v t f) d w = add_listener-IsWell pb c v t f d w
  perform-IsWell (unlisten k) d w = unsubscribe-IsWell pb k d w
  perform-IsWell open_stream d w = records-IsWell pb d w
  perform-IsWell (Action.pull sid) d w = anext-IsWell pb sid d w
  perform-IsWell (wake sid) d w = resume-IsWell pb sid d w
  perform-IsWell (end_stream sid) d w = aclose-IsWell pb sid d w
  perform-IsWell (drop sid) d w = drop_stream-IsWell pb sid d w
  perform-IsWell (deliver r) d w = fan_out-IsWell pb r d w
  perform-IsWell shut_down d w = close-IsWell pb d w

  -- Any calls, in any order, keep a dispatcher well formed (`IsWell`).
  pub perform_all-IsWell :
      (calls : List (Action pb)) (d : Dispatcher pb)
      → IsWell pb d
      → IsWell pb (perform_all pb calls d)
  unfolding perform_all
  perform_all-IsWell [] d w = w
  perform_all-IsWell (a ∷ calls) d w =
      perform_all-IsWell calls (perform pb a d) (perform-IsWell a d w)

  notify-IsWell :
      (world : World pb) (n : ℕ) (regs : List Registration) (r : Record pb) (ks : List Str)
      (d : Dispatcher pb)
      → IsWell pb d
      → IsWell pb (notify pb world n regs r ks d).state
  unfolding notify
  notify-IsWell world n [] r ks d w = w
  notify-IsWell world n (reg ∷ regs) r ks d w = elim (Bool-cases (matches pb reg r ks)) [
    | inr skip ↦ rw (skip, notify) (notify-IsWell world n regs r ks d w)
    | inl hit ↦
        let script = world n reg.callback in
        let w' = perform_all-IsWell script.actions d w in
        rw (hit, notify)
          (elim (Bool-cases (caught pb script.outcome)) [
            | inl go_on ↦ rw (go_on, notify) (notify-IsWell world (suc n) regs r ks _ w')
            | inr stop ↦ rw (stop, notify) w'
          ])
  ]

  with_fields-IsWell :
      (world : World pb) (r : Record pb) (d : Dispatcher pb)
      (fs : Result (Dict Str (Option pb.Object)))
      → IsWell pb d
      → IsWell pb (with_fields pb world r d fs).state
  unfolding with_fields
  with_fields-IsWell world r d (raise e) w = w
  with_fields-IsWell world r d (ok fs) w =
      notify-IsWell world 0 (values d.registrations) r (keys fs) d w

  -- A dispatch keeps a dispatcher well formed (`IsWell`), whatever its listeners do and however
  -- they end.
  pub dispatch-IsWell :
      (world : World pb) (r : Record pb) (d : Dispatcher pb)
      → IsWell pb d
      → IsWell pb (dispatch pb world r d).state
  unfolding dispatch
  dispatch-IsWell world r d w =
      let (d', e, t) = fan_out-Turned pb r d w in
      let w' : IsWell pb d' =
        subst (λ (x : Result (Unit {0}) × Dispatcher pb). IsWell pb x.1) e
          (fan_out-IsWell pb r d w) in
      subst (λ x. IsWell pb (after_fan_out pb world r x).state) (sym e)
        (with_fields-IsWell world r d' (fields pb r) w')

  -- What no call undoes: keys are not handed out again, and a closed dispatcher stays closed.
  abbrev pub Later : Dispatcher pb → Dispatcher pb → Type 0
  Later d d' =
      (d.ids ≤ d'.ids)
      × (d.closed ≡ true → d'.closed ≡ true)
      × ((k : ℕ)
          → k < d.ids
          → Dict.get d.registrations k ≡ none
          → Dict.get d'.registrations k ≡ none)

  abbrev SameListeners : Dispatcher pb → Dispatcher pb → Type 0
  SameListeners d d' =
      (d'.registrations ≡ d.registrations) × (d'.ids ≡ d.ids) × (d.closed ≡ true → d'.closed ≡ true)

  SameListeners-Later : (d d' : Dispatcher pb) → SameListeners d d' → Later d d'
  SameListeners-Later d d' (r, i, c) = (omega arith, c, λ k h e. rw r e)

  pull-SameListeners :
      (sid : ℕ) (s : Stream pb) (c : Bool) (d : Dispatcher pb)
      → SameListeners d (pull pb sid s c d).1
  unfolding pull forget
  pull-SameListeners sid s true d = (refl, refl, λ c. c)
  pull-SameListeners sid s false d = (refl, refl, λ c. c)

  anext-SameListeners : (sid : ℕ) (d : Dispatcher pb) → SameListeners d (anext pb sid d).1
  unfolding anext
  anext-SameListeners sid d = elim (Option-cases (Dict.get d.streams sid)) [
    | inl e ↦ rw (e, anext) (refl, refl, λ c. c)
    | inr (s, e) ↦ rw (e, anext) (pull-SameListeners sid s s.closed d)
  ]

  resume-SameListeners : (sid : ℕ) (d : Dispatcher pb) → SameListeners d (resume pb sid d).1
  unfolding resume
  resume-SameListeners sid d = elim (Option-cases (Dict.get d.streams sid)) [
    | inl e ↦ rw (e, resume) (refl, refl, λ c. c)
    | inr (s, e) ↦ rw (e, resume) (pull-SameListeners sid s false d)
  ]

  aclose-SameListeners : (sid : ℕ) (d : Dispatcher pb) → SameListeners d (aclose pb sid d)
  unfolding aclose forget
  aclose-SameListeners sid d = elim (Option-cases (Dict.get d.streams sid)) [
    | inl e ↦ rw (e, aclose) (refl, refl, λ c. c)
    | inr (s, e) ↦ rw (e, aclose) (refl, refl, λ c. c)
  ]

  pub fan_out-SameListeners :
      (r : Record pb) (d : Dispatcher pb) → IsWell pb d → SameListeners d (fan_out pb r d).1
  fan_out-SameListeners r d w =
      let (d', e, t) = fan_out-Turned pb r d w in rw e (rw t.rest (refl, refl, λ c. c))

  close-SameListeners : (d : Dispatcher pb) → IsWell pb d → SameListeners d (close pb d).1
  close-SameListeners d w =
      let (d', e, t) = close-Turned pb d w in rw e (rw t.rest (refl, refl, λ c. refl))

  perform-Later : (a : Action pb) (d : Dispatcher pb) → IsWell pb d → Later d (perform pb a d)
  unfolding perform add_listener unsubscribe records drop_stream
  perform-Later (listen c v t f) d w = (omega arith, λ c. c, λ k h e. rw get-put (ground arith))
  perform-Later (unlisten k) d w = (omega arith, λ c. c, λ j h e. rw get-pop (ground arith))
  perform-Later open_stream d w = (omega arith, λ c. c, λ k h e. e)
  perform-Later (Action.pull sid) d w =
      SameListeners-Later d (anext pb sid d).1 (anext-SameListeners sid d)
  perform-Later (wake sid) d w =
      SameListeners-Later d (resume pb sid d).1 (resume-SameListeners sid d)
  perform-Later (end_stream sid) d w =
      SameListeners-Later d (aclose pb sid d) (aclose-SameListeners sid d)
  perform-Later (drop sid) d w = (omega arith, λ c. c, λ k h e. e)
  perform-Later (deliver r) d w =
      SameListeners-Later d (fan_out pb r d).1 (fan_out-SameListeners r d w)
  perform-Later shut_down d w = SameListeners-Later d (close pb d).1 (close-SameListeners d w)

  pub perform_all-Later :
      (calls : List (Action pb)) (d : Dispatcher pb)
      → IsWell pb d
      → Later d (perform_all pb calls d)
  unfolding perform_all
  perform_all-Later [] d w = (omega arith, λ c. c, λ k h e. e)
  perform_all-Later (a ∷ calls) d w =
      let (i, c, k) = perform-Later a d w in
      let (i', c', k') = perform_all-Later calls (perform pb a d) (perform-IsWell a d w) in
      (omega arith, λ h. c' (c h), λ j h e. k' j (omega arith) (k j h e))
