-- ===== src/Server/Stopping.antt =====
-- What `stop` leaves, where the runner's clean-up returns and where it raises.
use python_fleet_telemetry.Prelude.{
  ◌≡◌, refl, sym, subst, ap, Bool, true, false, [], codes, Bool-cases, inl, inr, ◌⊎◌, if◌then◌else◌,
}
use python_fleet_telemetry.Errors.{Error, Result, ok, raise}
use python_fleet_telemetry.Protobuf.{Protobuf}
use python_fleet_telemetry.Flatbuffers.{Flatbuffers}
use python_fleet_telemetry.X509.{X509}
use python_fleet_telemetry.Dispatch.State.{Dispatcher}
use python_fleet_telemetry.Dispatch.Streams.{close}
use python_fleet_telemetry.Dispatch.Invariant.{IsWell}
use python_fleet_telemetry.Dispatch.Invariant.Streams.{close-Turned}
use python_fleet_telemetry.Server.State.{Server, authorize}
use python_fleet_telemetry.Server.Sessions.{
  start, Environment, status, respond, with_authorization, handle, Cleanup, without_runner, cleaned,
  close_dispatcher, stop,
}

module _ (pb : Protobuf) where
  -- The clean-up reopens nothing and keeps the dispatcher well formed, however it ends.
  abbrev pub IsOrderly : Cleanup pb → Type 0
  IsOrderly cleanup =
      (t : Server pb)
      → t.closed ≡ true
      → IsWell pb t.dispatcher
      → ((cleanup t).1.closed ≡ true) × IsWell pb (cleanup t).1.dispatcher

  -- The server is closed, and either nothing was raised, and then there was no runner or its
  -- clean-up returned, no runner is left and no stream's queue is registered; or the clean-up of
  -- the runner raised, and then `stop` raises that and leaves the server as the clean-up did, its
  -- streams open.
  abbrev pub IsStopped : Cleanup pb → Server pb → Result (Unit {0}) × Server pb → Type 0
  IsStopped cleanup s (result, e) =
      let (gone, t) = cleanup (record s { closed = true }) in
      (e.closed ≡ true)
      × ((((s.running ≡ false) ⊎ (gone ≡ ok tt))
            × (result ≡ ok tt)
            × (e.running ≡ false)
            × (e.dispatcher.queues ≡ []))
          ⊎ ((s.running ≡ true) × ((x : Error) × (gone ≡ raise x) × (result ≡ raise x)) × (e ≡ t)))

  handle-closed :
      (x509 : X509) (fb : Flatbuffers) (env : Environment pb) (t : Server pb)
      → t.closed ≡ true
      → handle pb x509 fb env t ≡ respond pb t (ok (status 503 (codes "server is shutting down")))
  unfolding handle
  handle-closed x509 fb env t c =
      ap
        (λ b.
          if b
          then respond pb t (ok (status 503 (codes "server is shutting down")))
          else with_authorization pb fb env (authorize x509 env.request) t)
        c

  close-queues :
      (d : Dispatcher pb) → IsWell pb d → ((close pb d).0 ≡ ok tt) × ((close pb d).1.queues ≡ [])
  close-queues d w = let (d', e, _) = close-Turned pb d w in rw e (refl, refl)

  close_dispatcher-Ends :
      (t : Server pb)
      → t.closed ≡ true
      → t.running ≡ false
      → IsWell pb t.dispatcher
      → let (result, e) = close_dispatcher pb (ok tt, t) in
        (result ≡ ok tt) × (e.closed ≡ true) × (e.running ≡ false) × (e.dispatcher.queues ≡ [])
  unfolding close_dispatcher
  close_dispatcher-Ends t c r w = let (done, q) = close-queues t.dispatcher w in (done, c, r, q)

  -- how `stop` goes on after the clean-up
  stop_after : Result (Unit {0}) × Server pb → Result (Unit {0}) × Server pb
  stop_after gone = close_dispatcher pb (without_runner pb gone)

  -- The two branches after a clean-up.
  stop_after-IsStopped :
      (gone : Result (Unit {0})) (t : Server pb)
      → t.closed ≡ true
      → IsWell pb t.dispatcher
      → let (result, e) = stop_after (gone, t) in
        (e.closed ≡ true)
        × (((gone ≡ ok tt) × (result ≡ ok tt) × (e.running ≡ false) × (e.dispatcher.queues ≡ []))
            ⊎ (((x : Error) × (gone ≡ raise x) × (result ≡ raise x)) × (e ≡ t)))
  unfolding stop_after without_runner close_dispatcher
  stop_after-IsStopped (raise x) t c w = (c, inr ((x, refl, refl), refl))
  stop_after-IsStopped (ok _) t c w =
      let (done, c', r, q) = close_dispatcher-Ends (record t { running = false }) c refl w in
      (c', inl (refl, done, r, q))

  pub stop-IsStopped :
      (cleanup : Cleanup pb) (s : Server pb)
      → IsOrderly cleanup
      → IsWell pb s.dispatcher
      → IsStopped cleanup s (stop pb cleanup s)
  unfolding stop cleaned stop_after
  stop-IsStopped cleanup s orderly w =
      let s' = record s { closed = true } in
      let (gone, t) = cleanup s' in
      let branch : Bool → Result (Unit {0}) × Server pb =
        λ b. close_dispatcher pb (if b then without_runner pb (cleanup s') else (ok tt, s')) in
      elim (Bool-cases s.running) [
        | inl on ↦
            let (c, w') = orderly s' refl w in
            let (c', ends) = stop_after-IsStopped gone t c w' in
            subst (IsStopped cleanup s) (sym (ap branch on)) (
              c',
              elim ends [
                | inl (g, done, r, q) ↦ inl (inr g, done, r, q)
                | inr (raised, same) ↦ inr (on, raised, same)
              ],
            )
        | inr off ↦
            let (done, c, r, q) = close_dispatcher-Ends s' refl off w in
            subst (IsStopped cleanup s) (sym (ap branch off)) (c, inl (inl off, done, r, q))
      ]

  -- `stop` of a server, running or not, whose clean-up reopens nothing and keeps the dispatcher
  -- well formed, as it is before. It raises what the clean-up of the runner raises, which leaves
  -- the server as that did, with its runner and its streams; else it raises nothing, and the server
  -- is not running and no stream's queue is registered. In either case `_handle` answers every
  -- request with 503, without an effect or a change, and a later `start` does not alter that,
  -- whether it succeeds or not.
  pub stop-handle :
      (x509 : X509) (fb : Flatbuffers) (env : Environment pb) (cleanup : Cleanup pb)
      (setup site : Result (Unit {0})) (s : Server pb)
      → IsOrderly cleanup
      → IsWell pb s.dispatcher
      → let (result, e) = stop pb cleanup s in
        IsStopped cleanup s (result, e)
        × (handle pb x509 fb env e
            ≡ respond pb e (ok (status 503 (codes "server is shutting down"))))
        × (let again = (start pb setup site e).1 in
            handle pb x509 fb env again
            ≡ respond pb again (ok (status 503 (codes "server is shutting down"))))
  unfolding start
  stop-handle x509 fb env cleanup setup site s orderly w =
      let e = (stop pb cleanup s).1 in
      let stopped = stop-IsStopped cleanup s orderly w in
      (
        stopped,
        handle-closed x509 fb env e stopped.0,
        handle-closed x509 fb env (record e { running = true }) stopped.0,
      )
