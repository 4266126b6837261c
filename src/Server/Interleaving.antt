-- ===== src/Server/Interleaving.antt =====
-- Sessions that begin and end while the dispatches of others are under way. `_connect` and
-- `_disconnect` change the registry and put their record into the streams without a wait between;
-- their listeners are called later, among whatever else runs then.
use python_fleet_telemetry.Prelude.{
  ℕ, suc, ◌≡◌, refl, sym, ap, ◌∙◌, true, Option, List, [], ◌∷◌, ◌++◌, Str, arith, nat_eq, str_eq,
  Bool-cases, inl, inr,
}
use python_fleet_telemetry.Prelude.Dict
use python_fleet_telemetry.Prelude.Dict.{Dict, keys, values, contains-put, contains-pop}
use python_fleet_telemetry.Errors.{Result, ok, raise}
use python_fleet_telemetry.Protobuf.{Protobuf, ConnectivityEvent, connected, disconnected}
use python_fleet_telemetry.Records.{Record, fields}
use python_fleet_telemetry.Dispatch.State.{Registration, Dispatcher, matches}
use python_fleet_telemetry.Dispatch.Streams.{fan_out}
use python_fleet_telemetry.Dispatch.Loop.{
  Action, perform, perform_all, World, caught, notify, with_fields, after_fan_out, dispatch,
}
use python_fleet_telemetry.Dispatch.Invariant.{IsWell}
use python_fleet_telemetry.Dispatch.Invariant.Streams.{fan_out-IsWell}
use python_fleet_telemetry.Dispatch.Reach.{perform-IsWell}
use python_fleet_telemetry.Server.State.{Connection, Server, is_connected}
use python_fleet_telemetry.Server.Sessions.{
  connectivity_record, announce, connection, register, connect, is_current, deregister, disconnect,
}
use python_fleet_telemetry.Server.Registry.{last_announced, last_announced-append}

module _ (pb : Protobuf) where
  abbrev with_dispatcher : Server pb → Dispatcher pb → Server pb
  with_dispatcher s d = record s { dispatcher = d }

  -- The record put into the streams.
  abbrev told : Str → ConnectivityEvent → ℕ → Server pb → Server pb
  told vin status now s =
      with_dispatcher s (fan_out pb (connectivity_record pb vin status now) s.dispatcher).1

  -- What runs between two waits of any task, with what it announces to the streams.
  pub data Moment : Server pb → List (Str × ConnectivityEvent) → Server pb → Type 0 where
    begins :
        {s : Server pb} (vin peer : Str) (version : Option Str) (now : ℕ)
        → Moment s
            ((vin, connected) ∷ [])
            (told vin connected now (register pb vin (connection pb vin peer version now s) s))
    leaves :
        {s : Server pb} (vin : Str) (conn : Connection) (now : ℕ)
        → is_current pb (Dict.get s.connections vin) conn ≡ true
        → Moment s ((vin, disconnected) ∷ []) (told vin disconnected now (deregister pb vin s))
    acts :
        {s : Server pb} (call : Action pb)
        → Moment s [] (with_dispatcher s (perform pb call s.dispatcher))

  pub data Moments : Server pb → List (Str × ConnectivityEvent) → Server pb → Type 0 where
    none_ : {s : Server pb} → Moments s [] s
    next :
        {s t u : Server pb} {first rest : List (Str × ConnectivityEvent)}
        → Moment s first t
        → Moments t rest u
        → Moments s (first ++ rest) u

  performed :
      (calls : List (Action pb)) {s t : Server pb}
      → Moments (with_dispatcher s (perform_all pb calls s.dispatcher)) [] t
      → Moments s [] t
  unfolding perform_all
  performed [] m = m
  performed (call ∷ calls) m = next (acts call) (performed calls m)

  -- The loop over the listeners.
  notified :
      (world : World pb) (n : ℕ) (regs : List Registration) (r : Record pb) (ks : List Str)
      (s : Server pb)
      → Moments s [] (with_dispatcher s (notify pb world n regs r ks s.dispatcher).state)
  unfolding notify
  notified world n [] r ks s = none_
  notified world n (reg ∷ regs) r ks s = elim (Bool-cases (matches pb reg r ks)) [
    | inr skip ↦ rw (skip, notify) (notified world n regs r ks s)
    | inl hit ↦
        let script = world n reg.callback in
        let s' = with_dispatcher s (perform_all pb script.actions s.dispatcher) in
        rw (hit, notify)
          (elim (Bool-cases (caught pb script.outcome)) [
            | inl go_on ↦
                rw (go_on, notify) (performed script.actions (notified world (suc n) regs r ks s'))
            | inr stop ↦ rw (stop, notify) (performed script.actions none_)
          ])
  ]

  past_fields :
      (world : World pb) (r : Record pb) (fs : Result (Dict Str (Option pb.Object))) (s : Server pb)
      → Moments s [] (with_dispatcher s (with_fields pb world r s.dispatcher fs).state)
  unfolding with_fields
  past_fields world r (raise e) s = none_
  past_fields world r (ok fs) s = notified world 0 (values s.dispatcher.registrations) r (keys fs) s

  -- A dispatch from its fan-out on.
  past_fan_out :
      (world : World pb) (r : Record pb) (p : Result (Unit {0}) × Dispatcher pb) (s : Server pb)
      → Moments (with_dispatcher s p.1) [] (with_dispatcher s (after_fan_out pb world r p).state)
  unfolding after_fan_out
  past_fan_out world r (raise e, d) s = none_
  past_fan_out world r (ok _, d) s = past_fields world r (fields pb r) (with_dispatcher s d)

  announced-Moments :
      (world : World pb) (vin : Str) (status : ConnectivityEvent) (now : ℕ) (s : Server pb)
      → Moments (told vin status now s) [] (announce pb world vin status now s).server
  unfolding announce dispatch
  announced-Moments world vin status now s =
      past_fan_out world (connectivity_record pb vin status now)
        (fan_out pb (connectivity_record pb vin status now) s.dispatcher) s

  -- A whole `_connect` or `_disconnect` is such a sequence, with what it announces.
  connect-Moments :
      (world : World pb) (vin peer : Str) (version : Option Str) (now : ℕ) (s : Server pb)
      → let t = connect pb world vin peer version now s in Moments s t.announced t.server
  unfolding connect announce
  connect-Moments world vin peer version now s =
      next (begins vin peer version now) (announced-Moments world vin connected now _)

  disconnect-Moments :
      (world : World pb) (vin : Str) (conn : Connection) (now : ℕ) (s : Server pb)
      → let t = disconnect pb world vin conn now s in Moments s t.announced t.server
  unfolding disconnect announce
  disconnect-Moments world vin conn now s =
      elim (Bool-cases (is_current pb (Dict.get s.connections vin) conn)) [
        | inl own ↦
            rw own (next (leaves vin conn now own) (announced-Moments world vin disconnected now _))
        | inr other ↦ rw other none_
      ]

  is_connected-Moment :
      (s t : Server pb) (xs : List (Str × ConnectivityEvent)) (vin : Str)
      → Moment s xs t
      → is_connected pb t vin ≡ last_announced pb vin (is_connected pb s vin) xs
  unfolding is_connected register deregister
  is_connected-Moment s t xs vin (begins v peer version now) = rw contains-put (ground arith)
  is_connected-Moment s t xs vin (leaves v conn now own) = rw contains-pop (ground arith)
  is_connected-Moment s t xs vin (acts call) = refl

  Moment-IsWell :
      (s t : Server pb) (xs : List (Str × ConnectivityEvent))
      → Moment s xs t
      → IsWell pb s.dispatcher
      → IsWell pb t.dispatcher
  unfolding register deregister
  Moment-IsWell s t xs (begins v peer version now) w = fan_out-IsWell pb _ s.dispatcher w
  Moment-IsWell s t xs (leaves v conn now own) w = fan_out-IsWell pb _ s.dispatcher w
  Moment-IsWell s t xs (acts call) w = perform-IsWell pb call s.dispatcher w

  -- Sessions begin and end on a server with a well-formed dispatcher, and between any two waits run
  -- the calls that their listeners and other tasks make on it, in any interleaving, a later session
  -- among those of a dispatch that is not over: at every moment `is_connected` of a VIN says
  -- whether the last record put into the streams on its account was CONNECTED (what held before, if
  -- none was), and the dispatcher is well formed.
  pub is_connected-Moments :
      (s t : Server pb) (xs : List (Str × ConnectivityEvent)) (vin : Str)
      → Moments s xs t
      → IsWell pb s.dispatcher
      → (is_connected pb t vin ≡ last_announced pb vin (is_connected pb s vin) xs)
        × IsWell pb t.dispatcher
  is_connected-Moments s t xs vin none_ w = (refl, w)
  is_connected-Moments s t xs vin (next {t = u} {first} {rest} m more) w =
      let (e, w') = is_connected-Moments u t rest vin more (Moment-IsWell s u first m w) in
      (
        e
            ∙ ap (λ b. last_announced pb vin b rest) (is_connected-Moment s u first vin m)
            ∙ sym (last_announced-append pb vin (is_connected pb s vin) first rest),
        w',
      )
