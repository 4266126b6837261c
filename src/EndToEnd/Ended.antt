-- ===== src/EndToEnd/Ended.antt =====
-- How `_serve` ends.
use python_fleet_telemetry.Prelude.{ℕ, ◌≡◌, subst, Bool, true, false, List, Str}
use python_fleet_telemetry.Errors.{Result, ok, raise}
use python_fleet_telemetry.Protobuf.{Protobuf}
use python_fleet_telemetry.Certs.Disk
use python_fleet_telemetry.Certs.Disk.{Disk, System, proceed, result}
use python_fleet_telemetry.Certs.Credentials.{SslContext, build_ssl_context}
use python_fleet_telemetry.Dispatch.State.{on_data, on_connectivity}
use python_fleet_telemetry.Dispatch.Loop.{Action}
use python_fleet_telemetry.Dispatch.Invariant.{IsWell, init-IsWell, add_listener-IsWell}
use python_fleet_telemetry.Server.State.{Server, new_server}
use python_fleet_telemetry.Server.Sessions.{Cleanup, start}
use python_fleet_telemetry.Server.Listeners.{
  through_dispatcher, server_on_data, server_on_connectivity,
}
use python_fleet_telemetry.Server.Stopping.{IsOrderly}
use python_fleet_telemetry.Server.Watching.{Watched, watch}
use python_fleet_telemetry.Server.Watched.{IsWatched, watch-IsWatched}
use python_fleet_telemetry.EndToEnd.Serve.{
  default_maxsize, listening, serving_from, serve, serve_to_end,
}

module _ (pb : Protobuf) (turns : List (List (Action pb))) (cleanup : Cleanup pb)
    (orderly : IsOrderly pb cleanup) where
  -- What a part of `_serve` gives is watched to its end.
  Ends : Result (ℕ × Server pb) → Type 0
  Ends (raise e) = Unit
  Ends (ok (sid, s)) = IsWatched pb cleanup turns (watch pb sid turns cleanup s)

  listening-IsWell :
      (s : Server pb) → IsWell pb s.dispatcher → IsWell pb (listening pb s).dispatcher
  unfolding listening server_on_data server_on_connectivity through_dispatcher on_data
      on_connectivity
  listening-IsWell s w = add_listener-IsWell pb _ _ _ _ _ (add_listener-IsWell pb _ _ _ _ _ w)

  serving_from-Ends :
      (b : Bool) (setup site : Result (Unit {0})) → Ends (serving_from pb b setup site)
  unfolding Ends serving_from new_server start
  serving_from-Ends false setup site = tt
  serving_from-Ends true (raise e) site = tt
  serving_from-Ends true (ok _) (raise e) = tt
  serving_from-Ends true (ok _) (ok _) =
      watch-IsWatched pb turns cleanup _ orderly
        (listening-IsWell _ (init-IsWell pb default_maxsize))

  reached :
      (x : Result SslContext × Disk) (setup site : Result (Unit {0}))
      → Ends (proceed x (λ context. result (serving_from pb context.cert_required setup site))).0
  unfolding Ends result
  reached (raise e, d) setup site = tt
  reached (ok context, d) setup site = serving_from-Ends context.cert_required setup site

  Over : Result (Watched pb) → Type 0
  Over (raise e) = Unit
  Over (ok ran) = IsWatched pb cleanup turns ran

  watched :
      (x : Result (ℕ × Server pb) × Disk)
      → Ends x.0
      → Over (proceed x (λ (sid, s). result (ok (watch pb sid turns cleanup s)))).0
  unfolding Ends Over result
  watched (raise e, d) h = tt
  watched (ok (sid, s), d) h = h

  -- Where `_serve` comes to its loop, whatever calls of the operating system fail or not, and
  -- whether the loop ends with its stream or is cancelled, the server is then stopped, or the
  -- clean-up of its runner raised, and what was printed from the stream are records dispatched
  -- meanwhile, in that order.
  pub serve_to_end-IsWatched :
      (system : System) (load_cert_chain : Str → Str → Result (Unit {0}))
      (load_verify_locations : Str → Result (Unit {0})) (certs_dir : Str)
      (setup site : Result (Unit {0})) (d : Disk) (ran : Watched pb)
      → (serve_to_end pb system load_cert_chain load_verify_locations certs_dir setup site turns
          cleanup d).0
        ≡ ok ran
      → IsWatched pb cleanup turns ran
  unfolding serve_to_end serve Disk.◌>>=◌ Over
  serve_to_end-IsWatched system load_cert_chain load_verify_locations certs_dir setup site d ran h =
      subst Over h (
        watched _ (
          reached (build_ssl_context system load_cert_chain load_verify_locations certs_dir false d)
            setup site))
