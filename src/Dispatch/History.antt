-- ===== src/Dispatch/History.antt =====
-- What calls on a dispatcher leave in a stream, against what they dispatched.
use mathlib.Core.List.Sublistᴰ
use mathlib.Core.List.{Sublistᴰ, append_assoc}
use python_fleet_telemetry.Prelude.{
  ℕ, ◌≡◌, refl, subst, arith, List, [], ◌∷◌, ◌++◌, nat_eq, ◌==◌, contains, Option-cases, Bool-cases,
  inl, inr,
}
use python_fleet_telemetry.Prelude.Dict
use python_fleet_telemetry.Prelude.Dict.{get-put}
use python_fleet_telemetry.Protobuf.{Protobuf}
use python_fleet_telemetry.Records.{Record}
use python_fleet_telemetry.Dispatch.State.{
  item, sentinel, Dispatcher, add_listener, unsubscribe, records,
}
use python_fleet_telemetry.Dispatch.Streams.{forget, aclose, drop_stream, fan_out, close}
use python_fleet_telemetry.Dispatch.Loop.{
  Action, listen, unlisten, open_stream, wake, end_stream, deliver, shut_down, perform, perform_all,
}
use python_fleet_telemetry.Dispatch.Invariant.{IsWell}
use python_fleet_telemetry.Dispatch.Invariant.Streams.{fan_out-Turned, close-Turned}
use python_fleet_telemetry.Dispatch.Reach.{perform-IsWell}
use python_fleet_telemetry.Dispatch.Pending.{
  pending, delivered_by, delivered_in, more, turned-Sublistᴰ, anext-pending, resume-pending,
}

module _ (pb : Protobuf) where
  aclose-pending :
      (sid : ℕ) (d : Dispatcher pb) (j : ℕ) → pending pb j (aclose pb sid d) ≡ pending pb j d
  unfolding aclose forget
  aclose-pending sid d j = elim (Option-cases (Dict.get d.streams sid)) [
    | inl e ↦ rw (e, aclose) refl
    | inr (s, e) ↦ elim (Bool-cases (j == sid)) [
      | inr differs ↦ rw (e, aclose) (rw get-put (rw differs refl))
      | inl same ↦
          let one : j ≡ sid = ground arith in
          rw (e, aclose) (rw get-put (rw same (rw (one, e) refl)))
    ]
  ]

  records-pending :
      (d : Dispatcher pb) (j : ℕ) → Sublistᴰ (pending pb j (records pb d).1) (pending pb j d)
  unfolding records
  records-pending d j = elim (Bool-cases (j == d.made)) [
    | inl same ↦ rw get-put (rw same (Sublistᴰ.nil-sublist _))
    | inr differs ↦ rw get-put (rw differs (Sublistᴰ.refl _))
  ]

  fan_out-pending :
      (r : Record pb) (d : Dispatcher pb) (j : ℕ)
      → IsWell pb d
      → Sublistᴰ (pending pb j (fan_out pb r d).1) (pending pb j d ++ (r ∷ []))
  fan_out-pending r d j w =
      let (d', e, t) = fan_out-Turned pb r d w in
      rw e (rw (t.at j) (turned-Sublistᴰ pb (item r) (contains d.queues j) (Dict.get d.streams j)))

  close-pending :
      (d : Dispatcher pb) (j : ℕ)
      → IsWell pb d
      → Sublistᴰ (pending pb j (close pb d).1) (pending pb j d ++ [])
  close-pending d j w =
      let (d', e, t) = close-Turned pb d w in
      rw e (rw (t.at j) (turned-Sublistᴰ pb sentinel (contains d.queues j) (Dict.get d.streams j)))

  -- What a call leaves of a stream: in order, of what it held and of the record that is dispatched.
  perform-pending :
      (call : Action pb) (d : Dispatcher pb) (j : ℕ)
      → IsWell pb d
      → Sublistᴰ (pending pb j (perform pb call d)) (pending pb j d ++ delivered_by pb call)
  unfolding perform add_listener unsubscribe records drop_stream aclose
  perform-pending (listen c v t f) d j w = more pb _ _
  perform-pending (unlisten k) d j w = more pb _ _
  perform-pending open_stream d j w = Sublistᴰ.trans (records-pending d j) (more pb _ _)
  perform-pending (Action.pull sid) d j w = Sublistᴰ.trans (anext-pending pb sid d j) (more pb _ _)
  perform-pending (wake sid) d j w = Sublistᴰ.trans (resume-pending pb sid d j) (more pb _ _)
  perform-pending (end_stream sid) d j w = rw (aclose-pending sid d j) (more pb _ _)
  perform-pending (Action.drop sid) d j w = more pb _ _
  perform-pending (deliver r) d j w = fan_out-pending r d j w
  perform-pending shut_down d j w = close-pending d j w

  pub perform_all-pending :
      (calls : List (Action pb)) (d : Dispatcher pb) (j : ℕ)
      → IsWell pb d
      → Sublistᴰ (pending pb j (perform_all pb calls d)) (pending pb j d ++ delivered_in pb calls)
  unfolding perform_all
  perform_all-pending [] d j w = more pb _ _
  perform_all-pending (call ∷ calls) d j w =
      let first =
        Sublistᴰ.append (perform-pending call d j w) (Sublistᴰ.refl (delivered_in pb calls)) in
      let rest = perform_all-pending calls (perform pb call d) j (perform-IsWell pb call d w) in
      Sublistᴰ.trans rest (
        subst (Sublistᴰ _)
          (append_assoc (pending pb j d) (delivered_by pb call) (delivered_in pb calls)) first)
