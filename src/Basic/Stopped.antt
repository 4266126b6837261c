-- ===== src/Basic/Stopped.antt =====
-- What `main` does when its context loads and its server starts, and where it raises if not.
use python_fleet_telemetry.Prelude.{◌≡◌, refl, ap, ◌∙◌, true, false, [], List, Str, codes}
use python_fleet_telemetry.Errors.{Result, ok, raise, ◌>>=◌}
use python_fleet_telemetry.Protobuf.{Protobuf}
use python_fleet_telemetry.Dispatch.State.{init, on_data, on_connectivity}
use python_fleet_telemetry.Dispatch.Loop.{Action}
use python_fleet_telemetry.Dispatch.Invariant.{IsWell, init-IsWell, add_listener-IsWell}
use python_fleet_telemetry.Server.State.{Server, new_server}
use python_fleet_telemetry.Server.Sessions.{Cleanup, start}
use python_fleet_telemetry.Server.Listeners.{
  through_dispatcher, server_add_listener, server_on_data, server_on_connectivity, server_records,
}
use python_fleet_telemetry.Server.Stopping.{IsOrderly}
use python_fleet_telemetry.Server.Watching.{Watched, watch}
use python_fleet_telemetry.Server.Watched.{IsWatched, watch-IsWatched}
use python_fleet_telemetry.EndToEnd.Serve.{default_maxsize}
use python_fleet_telemetry.Basic.{build_ssl_context, listening, streaming, main}

-- Two calls before a value, and what follows it.
loaded {ℓ κ} :
    {A : Type ℓ} {B : Type κ} (a b : Result (Unit {0})) (c : A) (k : A → Result B)
    → ((a >>= λ _. b >>= λ _. ok c) >>= k) ≡ (a >>= λ _. b >>= λ _. k c)
loaded (raise e) b c k = refl
loaded (ok _) (raise e) c k = refl
loaded (ok _) (ok _) c k = refl

module _ (pb : Protobuf) where
  pub listening-IsWell :
      (s : Server pb) → IsWell pb s.dispatcher → IsWell pb (listening pb s).dispatcher
  unfolding listening server_on_data server_on_connectivity server_add_listener through_dispatcher
      on_data on_connectivity
  listening-IsWell s w =
      add_listener-IsWell pb _ _ _ _ _
        (add_listener-IsWell pb _ _ _ _ _ (add_listener-IsWell pb _ _ _ _ _ w))

  unfoldable pub bare : Server pb
  bare = record {
    dispatcher = init pb default_maxsize;
    connections = [];
    running = false;
    closed = false;
    made = 0;
  }

  begun :
      (turns : List (List (Action pb))) (cleanup : Cleanup pb) (setup site : Result (Unit {0}))
      (t : Server pb)
      → let (sid, s) = server_records pb (record t { running = true }) in
        streaming pb turns cleanup (start pb setup site t)
        ≡ (setup >>= λ _. site >>= λ _. ok (watch pb sid turns cleanup s))
  unfolding streaming start
  begun turns cleanup (raise e) site t = refl
  begun turns cleanup (ok _) (raise e) t = refl
  begun turns cleanup (ok _) (ok _) t = refl

  -- `main` raises the error of the first call that fails, of loading the certificate, of loading
  -- the bundle and of the two waits of `start`. Where none fails it comes to its loop. What the
  -- loop prints from the stream are records dispatched meanwhile, each at most as often as it was
  -- and in that order. If the clean-up of the runner reopens nothing and keeps the dispatcher well
  -- formed, then whether the loop ends with its stream or is cancelled, the server is closed at the
  -- end; it is not running and none of its queues is registered, or the clean-up raised, and then
  -- `main` raises that and the server is as the clean-up left it.
  pub main-IsWatched :
      (load_cert_chain : Str → Str → Result (Unit {0}))
      (load_verify_locations : Str → Result (Unit {0})) (setup site : Result (Unit {0}))
      (turns : List (List (Action pb))) (cleanup : Cleanup pb)
      → IsOrderly pb cleanup
      → (ran : Watched pb) × (main pb load_cert_chain load_verify_locations setup site turns cleanup
          ≡ (load_cert_chain (codes "server-cert.pem") (codes "server-key.pem") >>= λ _.
              load_verify_locations (codes "tesla-ca.pem") >>= λ _.
              setup >>= λ _. site >>= λ _. ok ran))
        × IsWatched pb cleanup turns ran
  unfolding main build_ssl_context new_server start streaming bare
  main-IsWatched load_cert_chain load_verify_locations setup site turns cleanup orderly =
      let s = record (listening pb bare) { running = true } in
      let w = listening-IsWell bare (init-IsWell pb default_maxsize) in
      let (sid, s') = server_records pb s in
      (
        watch pb sid turns cleanup s',
        loaded (load_cert_chain (codes "server-cert.pem") (codes "server-key.pem"))
              (load_verify_locations (codes "tesla-ca.pem")) _ _
            ∙ ap
                (λ next. load_cert_chain (codes "server-cert.pem") (codes "server-key.pem") >>= λ _.
                  load_verify_locations (codes "tesla-ca.pem") >>= λ _. next)
                (begun turns cleanup setup site (listening pb bare)),
        watch-IsWatched pb turns cleanup s orderly w,
      )
