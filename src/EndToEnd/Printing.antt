-- ===== src/EndToEnd/Printing.antt =====
-- What the server of `_serve` prints.
use python_fleet_telemetry.Prelude.{
  ℕ, ◌≡◌, refl, subst, Bool, true, false, List, [], ◌∷◌, Str, str_eq, nat_eq,
}
use python_fleet_telemetry.Prelude.Dict
use python_fleet_telemetry.Prelude.Dict.{values}
use python_fleet_telemetry.Errors.{Result, ok, raise}
use python_fleet_telemetry.Protobuf.{Protobuf}
use python_fleet_telemetry.Records.{Topic, vehicle_data, alerts, errors, connectivity, Record}
use python_fleet_telemetry.Certs.Disk
use python_fleet_telemetry.Certs.Disk.{Disk, System, proceed, result}
use python_fleet_telemetry.Certs.Credentials.{SslContext, build_ssl_context}
use python_fleet_telemetry.Dispatch.State
use python_fleet_telemetry.Dispatch.State.{
  init, on_data, on_connectivity, add, add_listener, normalize, matches, excludes, misses,
}
use python_fleet_telemetry.Dispatch.Isolation.{matching}
use python_fleet_telemetry.Server.State.{Server, new_server}
use python_fleet_telemetry.Server.Sessions.{start}
use python_fleet_telemetry.Server.Listeners.{
  through_dispatcher, server_on_data, server_on_connectivity, server_records,
}
use python_fleet_telemetry.EndToEnd.Serve.{
  default_maxsize, prints_data, prints_connectivity, listening, serving_from, serve,
}

-- Who prints a record of a topic.
abbrev pub printers : Topic → List ℕ
printers vehicle_data = prints_data ∷ []
printers alerts = []
printers errors = []
printers connectivity = prints_connectivity ∷ []

module _ (pb : Protobuf) where
  abbrev IsServing : ℕ → Server pb → Type 0
  IsServing sid s =
      (s.running ≡ true)
      × (s.closed ≡ false)
      × (s.dispatcher.queues ≡ sid ∷ [])
      × ((r : Record pb) (ks : List Str)
          → matching pb (values s.dispatcher.registrations) r ks ≡ printers r.topic)

  bare : Server pb
  bare = record {
    dispatcher = init pb default_maxsize;
    connections = [];
    running = false;
    closed = false;
    made = 0;
  }

  -- by the topic of the record
  matching-topic :
      (r : Record pb) (ks : List Str) (t : Topic)
      → r.topic ≡ t
      → matching pb (values (listening pb bare).dispatcher.registrations) r ks ≡ printers t
  unfolding bare listening server_on_data server_on_connectivity through_dispatcher on_data
      on_connectivity add_listener normalize init Dict.put nat_eq matches str_eq
  matching-topic r ks vehicle_data e = rw e refl
  matching-topic r ks alerts e = rw e refl
  matching-topic r ks errors e = rw e refl
  matching-topic r ks connectivity e = rw e refl

  Serving : Result (ℕ × Server pb) → Type 0
  Serving (raise e) = Unit
  Serving (ok (sid, s)) = IsServing sid s

  started : (setup site : Result (Unit {0})) → Serving (serving_from pb true setup site)
  unfolding Serving serving_from new_server start bare listening server_on_data
      server_on_connectivity through_dispatcher on_data on_connectivity add_listener State.records
      server_records init add
  started (raise e) site = tt
  started (ok _) (raise e) = tt
  started (ok _) (ok _) = (refl, refl, refl, λ r ks. matching-topic r ks r.topic refl)

  any_start : (b : Bool) (setup site : Result (Unit {0})) → Serving (serving_from pb b setup site)
  unfolding Serving serving_from new_server
  any_start true setup site = started setup site
  any_start false setup site = tt

  -- what follows `build_ssl_context`, however that ends
  Serving-reached :
      (x : Result SslContext × Disk) (setup site : Result (Unit {0}))
      → Serving (proceed x (λ context. result (serving_from pb context.cert_required setup site))).0
  unfolding Serving result
  Serving-reached (raise e, d) setup site = tt
  Serving-reached (ok context, d) setup site = any_start context.cert_required setup site

  -- Where `_serve` comes to its loop, whatever calls fail or not, the server runs and is open, the
  -- stream of the loop is the only registered one, and of the listeners `on_data`'s alone is called
  -- for a record of the topic V, `on_connectivity`'s alone for one of the topic connectivity, and
  -- none for any other.
  pub serve-IsServing :
      (system : System) (load_cert_chain : Str → Str → Result (Unit {0}))
      (load_verify_locations : Str → Result (Unit {0})) (certs_dir : Str)
      (setup site : Result (Unit {0})) (d : Disk) (sid : ℕ) (s : Server pb)
      → (serve pb system load_cert_chain load_verify_locations certs_dir setup site d).0
        ≡ ok (sid, s)
      → (r : Record pb) (ks : List Str)
      → (s.running ≡ true)
        × (s.closed ≡ false)
        × (s.dispatcher.queues ≡ sid ∷ [])
        × (matching pb (values s.dispatcher.registrations) r ks ≡ printers r.topic)
  unfolding serve Disk.◌>>=◌ Serving
  serve-IsServing system load_cert_chain load_verify_locations certs_dir setup site d sid s h r ks =
      let (a, b, c, e) = subst Serving h (
        Serving-reached
          (build_ssl_context system load_cert_chain load_verify_locations certs_dir false d) setup
          site) in
      (a, b, c, e r ks)
