-- ===== src/Basic/Listening.antt =====
-- Which of the three listeners a record is printed by.
use python_fleet_telemetry.Prelude.{
  ℕ, ◌≡◌, refl, ◌∙◌, ap, true, false, not, Bool-cases, inl, inr, Option, List, [], ◌∷◌, Str, codes,
  arith, contains, str_eq, nat_eq, if◌then◌else◌,
}
use python_fleet_telemetry.Prelude.Dict
use python_fleet_telemetry.Prelude.Dict.{Dict, keys, values}
use python_fleet_telemetry.Errors.{ok}
use python_fleet_telemetry.Protobuf.{Protobuf}
use python_fleet_telemetry.Records.{
  Topic, vehicle_data, alerts, errors, connectivity, Record, fields,
}
use python_fleet_telemetry.Dispatch.State
use python_fleet_telemetry.Dispatch.State.{
  init, on_data, on_connectivity, add_listener, normalize, matches, excludes, misses, isdisjoint,
}
use python_fleet_telemetry.Dispatch.Loop.{World, caught, dispatch}
use python_fleet_telemetry.Dispatch.Invariant.{init-IsWell, records-IsWell}
use python_fleet_telemetry.Dispatch.Isolation.{matching, dispatch-called}
use python_fleet_telemetry.Server.Listeners.{
  through_dispatcher, server_add_listener, server_on_data, server_on_connectivity, server_records,
}
use python_fleet_telemetry.EndToEnd.Serve.{default_maxsize}
use python_fleet_telemetry.Basic.{prints_data, prints_connectivity, prints_speed, listening}
use python_fleet_telemetry.Basic.Stopped.{bare, listening-IsWell}

-- Who prints a record of a topic with these field names.
abbrev pub printers : Topic → List Str → List ℕ
printers vehicle_data names =
    prints_data ∷ (if contains names (codes "VehicleSpeed") then prints_speed ∷ [] else [])
printers alerts names = []
printers errors names = []
printers connectivity names = prints_connectivity ∷ []

isdisjoint-single :
    (name : Str) (names : List Str) → isdisjoint (name ∷ []) names ≡ not (contains names name)
unfolding isdisjoint
isdisjoint-single name [] = refl
isdisjoint-single name (x ∷ names) = ground (arith, isdisjoint-single name names)

speed_printers :
    (names : List Str)
    → (if (if isdisjoint (codes "VehicleSpeed" ∷ []) names then false else true)
        then prints_speed ∷ []
        else [])
      ≡ (if contains names (codes "VehicleSpeed") then prints_speed ∷ [] else [])
speed_printers names =
    rw (isdisjoint-single (codes "VehicleSpeed") names)
      (elim (Bool-cases (contains names (codes "VehicleSpeed"))) [
        | inl there ↦ rw there refl
        | inr gone ↦ rw gone refl
      ])

module _ (pb : Protobuf) where
  matching-topic :
      (r : Record pb) (ks : List Str) (t : Topic)
      → r.topic ≡ t
      → matching pb (values (listening pb (bare pb)).dispatcher.registrations) r ks ≡ printers t ks
  unfolding bare listening server_on_data server_on_connectivity server_add_listener
      through_dispatcher on_data on_connectivity add_listener normalize init Dict.put nat_eq matches
      str_eq
  matching-topic r ks vehicle_data e = rw e (ap (λ l. prints_data ∷ l) (speed_printers ks))
  matching-topic r ks alerts e = rw e refl
  matching-topic r ks errors e = rw e refl
  matching-topic r ks connectivity e = rw e refl

  -- Over the server that `main` comes to its loop with, a dispatch of a record whose fields
  -- compute, to listeners that return or raise an `Exception`, calls for one of the topic V the
  -- listener of `on_data` and then, exactly if its fields have VehicleSpeed, that of
  -- `add_listener`; for one of the topic connectivity that of `on_connectivity`; for any other
  -- none; and it ends without an error.
  pub dispatch-printers :
      (world : World pb) (r : Record pb) (fs : Dict Str (Option pb.Object))
      → fields pb r ≡ ok fs
      → ((n callback : ℕ) → caught pb (world n callback).outcome ≡ true)
      → let s = (server_records pb (listening pb (bare pb))).1 in
        ((dispatch pb world r s.dispatcher).called ≡ printers r.topic (keys fs))
        × ((dispatch pb world r s.dispatcher).result ≡ ok tt)
  unfolding server_records through_dispatcher State.records bare
  dispatch-printers world r fs f h =
      let s = (server_records pb (listening pb (bare pb))).1 in
      let w =
        records-IsWell pb _ (listening-IsWell pb (bare pb) (init-IsWell pb default_maxsize)) in
      let (called, done) = dispatch-called pb world r s.dispatcher fs w f h in
      (called ∙ matching-topic r (keys fs) r.topic refl, done)
