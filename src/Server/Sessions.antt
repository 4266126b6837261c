-- ===== src/Server/Sessions.antt =====
-- fleet_telemetry/server.py: `_connect`, `_disconnect`, `_handle` and `stop`. The registry changes
-- between two waits, before the dispatch of the record that tells of it.
use python_fleet_telemetry.Prelude.{
  ℕ, ◌+◌, Bool, true, false, Option, none, some, List, [], ◌∷◌, ◌++◌, Str, Bytes, codes, ◌==◌,
  nat_eq, str_eq, if◌then◌else◌,
}
use python_fleet_telemetry.Prelude.Dict
use python_fleet_telemetry.Errors.{Result, ok, raise, finally, ◌>>=◌}
use python_fleet_telemetry.Protobuf.{Protobuf, ConnectivityEvent, connected, disconnected}
use python_fleet_telemetry.Flatbuffers.{Flatbuffers}
use python_fleet_telemetry.X509.{X509}
use python_fleet_telemetry.Records.{Record, connectivity, connectivity_message}
use python_fleet_telemetry.Dispatch.Streams.{close}
use python_fleet_telemetry.Dispatch.Loop.{Action, World, dispatch}
use python_fleet_telemetry.Server.State.{
  Connection, Server, Request, Authorization, authorized, rejected, authorize,
}
use python_fleet_telemetry.Server.Frames.{Message, Effect, Processed, handle_message}

module _ (pb : Protobuf) where
  -- `_connectivity_record`
  unfoldable pub connectivity_record : Str → ConnectivityEvent → ℕ → Record pb
  connectivity_record vin status now = record {
    vin = vin;
    topic = connectivity;
    created_at = now;
    txid = [];
    message = connectivity_message (pb.vehicle_connectivity vin status);
    raw = [];
  }

  -- What a change of the registry tells its listeners, how that ends, and the server that is left.
  pub record Transition : Type 0 where
    pub announced : List (Str × ConnectivityEvent)
    pub result : Result (Unit {0})
    pub server : Server pb

  -- the dispatch of the record that tells of the change
  unfoldable pub announce : World pb → Str → ConnectivityEvent → ℕ → Server pb → Transition
  announce world vin status now s =
      let run = dispatch pb world (connectivity_record vin status now) s.dispatcher in
      record {
        announced = (vin, status) ∷ [];
        result = run.result;
        server = record s { dispatcher = run.state };
      }

  -- The `Connection` that `_connect` makes at the time `now`.
  unfoldable pub connection : Str → Str → Option Str → ℕ → Server pb → Connection
  connection vin peer client_version now s = record {
    ident = s.made;
    vin = vin;
    connected_at = now;
    peer = peer;
    client_version = client_version;
  }

  unfoldable pub register : Str → Connection → Server pb → Server pb
  register vin conn s = record s {
    connections = Dict.put s.connections vin conn;
    made = s.made + 1;
  }

  -- `_connect`, which returns `connection …` if it does not raise
  unfoldable pub connect : World pb → Str → Str → Option Str → ℕ → Server pb → Transition
  unfolding register connection announce
  connect world vin peer client_version now s =
      announce world vin connected now (register vin (connection vin peer client_version now s) s)

  -- `self._connections.get(vin) is conn`
  unfoldable pub is_current : Option Connection → Connection → Bool
  is_current none conn = false
  is_current (some live) conn = live.ident == conn.ident

  unfoldable pub deregister : Str → Server pb → Server pb
  deregister vin s = record s { connections = Dict.pop s.connections vin }

  -- `_disconnect`
  unfoldable pub disconnect : World pb → Str → Connection → ℕ → Server pb → Transition
  unfolding deregister is_current announce
  disconnect world vin conn now s =
      if is_current (Dict.get s.connections vin) conn
      then announce world vin disconnected now (deregister vin s)
      else record { announced = []; result = ok tt; server = s }

  -- One turn of `async for msg in ws`: what other tasks do to the server while the session waits
  -- for the message, the message, how `send_bytes` ends, what other tasks call on the dispatcher
  -- while the session waits for it, and what listeners do. The registry is not read before the
  -- session ends, so that what is done to it during a send is done in the next `meanwhile` as well.
  pub record Turn : Type 0 where
    pub meanwhile : Server pb → Server pb
    pub message : Message
    pub send : Bytes → Result (Unit {0})
    pub sending : List (Action pb)
    pub world : World pb

  -- How a session ends, what it did to the outside, and the server that it leaves.
  pub record Served : Type 0 where
    pub result : Result (Unit {0})
    pub effects : List (Effect pb)
    pub server : Server pb

  -- What follows a handled message: the `rest` of the messages, unless it raised.
  unfoldable pub after_turn : Processed pb → Server pb → Served → Served
  after_turn done s rest = elim done.result [
    | raise e ↦ record { result = raise e; effects = done.effects; server = s }
    | ok _ ↦ record rest { effects = done.effects ++ rest.effects }
  ]

  -- the loop over the messages
  unfoldable pub serve : Flatbuffers → Str → List Turn → Server pb → Served
  serve fb vin [] s = record { result = ok tt; effects = []; server = s }
  serve fb vin (turn ∷ turns) s =
      let s₁ = turn.meanwhile s in
      let done =
        handle_message pb fb turn.send turn.sending turn.world vin turn.message s₁.dispatcher in
      let s₂ = record s₁ { dispatcher = done.dispatcher } in
      after_turn done s₂ (serve fb vin turns s₂)

  -- `try: … finally: await self._disconnect(vin, conn)`, after other tasks' work meanwhile
  unfoldable pub session :
      Flatbuffers
      → Str
      → Connection
      → List Turn
      → (Server pb → Server pb)
      → World pb
      → ℕ
      → Server pb
      → Served
  unfolding serve finally
  session fb vin conn turns meanwhile world now s =
      let body = serve fb vin turns s in
      let gone = disconnect world vin conn now (meanwhile body.server) in
      record {
        result = finally body.result gone.result;
        effects = body.effects;
        server = gone.server;
      }

  pub data Response : Type 0 where
    websocket : Response
    status : ℕ → Str → Response

  pub record Handled : Type 0 where
    pub response : Result Response
    pub effects : List (Effect pb)
    pub server : Server pb

  -- What is outside the server in one run of `_handle`.
  pub record Environment : Type 0 where
    pub request : Request
    -- `await ws.prepare(request)`: how it ends, and what other tasks do meanwhile
    pub prepared : Result (Unit {0})
    pub while_preparing : Server pb → Server pb
    pub connect_world : World pb
    pub connected_at : ℕ
    -- what other tasks do while `_connect` waits for the listeners: a registry that they change
    -- changes nothing about which listeners that dispatch calls
    pub while_connecting : Server pb → Server pb
    pub turns : List Turn
    pub meanwhile : Server pb → Server pb
    pub disconnect_world : World pb
    pub disconnected_at : ℕ

  unfoldable pub respond : Server pb → Result Response → Handled
  respond s r = record { response = r; effects = []; server = s }

  unfoldable pub upgraded : Served → Handled
  upgraded served = record {
    response = elim served.result [ ok _ ↦ ok websocket | raise e ↦ raise e ];
    effects = served.effects;
    server = served.server;
  }

  unfoldable pub or_empty : Option Str → Str
  or_empty none = []
  or_empty (some s) = s

  -- what follows `conn = await self._connect(…)`: no `try` holds that call
  unfoldable pub after_connect : Flatbuffers → Environment → Str → Connection → Transition → Handled
  after_connect fb env vin conn opened = elim opened.result [
    | raise e ↦ respond (env.while_connecting opened.server) (raise e)
    | ok _ ↦ upgraded (
        session fb vin conn env.turns env.meanwhile env.disconnect_world env.disconnected_at
          (env.while_connecting opened.server))
  ]

  -- from `conn = await self._connect(…)` on
  unfoldable pub prepared_with : Flatbuffers → Environment → Str → Server pb → Handled
  unfolding or_empty after_connect
  prepared_with fb env vin s =
      let peer = or_empty env.request.remote in
      after_connect fb env vin (connection vin peer env.request.version env.connected_at s)
        (connect env.connect_world vin peer env.request.version env.connected_at s)

  -- from `await ws.prepare(request)` on
  unfoldable pub with_vin : Flatbuffers → Environment → Str → Server pb → Handled
  with_vin fb env vin s = elim env.prepared [
    | raise e ↦ respond (env.while_preparing s) (raise e)
    | ok _ ↦ prepared_with fb env vin (env.while_preparing s)
  ]

  unfoldable pub with_authorization :
      Flatbuffers → Environment → Result Authorization → Server pb → Handled
  with_authorization fb env (raise e) s = respond s (raise e)
  with_authorization fb env (ok (rejected code text)) s = respond s (ok (status code text))
  with_authorization fb env (ok (authorized vin)) s = with_vin fb env vin s

  -- `_handle`
  unfoldable pub handle : X509 → Flatbuffers → Environment → Server pb → Handled
  handle x509 fb env s =
      if s.closed
      then respond s (ok (status 503 (codes "server is shutting down")))
      else with_authorization fb env (authorize x509 env.request) s

  -- `start`, of which the model keeps that there is a runner, even where its `setup` or the
  -- `site.start` raises
  unfoldable pub start :
      Result (Unit {0}) → Result (Unit {0}) → Server pb → Result (Unit {0}) × Server pb
  start setup site s = (setup >>= λ _. site, record s { running = true })

  -- What `await self._runner.cleanup()` does, the ends of the sessions among it, and how it ends:
  -- it may raise, and the task may be cancelled there.
  abbrev pub Cleanup : Type 0
  Cleanup = Server pb → Result (Unit {0}) × Server pb

  -- `self._runner = None`, unless the clean-up raised
  unfoldable pub without_runner : Result (Unit {0}) × Server pb → Result (Unit {0}) × Server pb
  without_runner (raise e, s) = (raise e, s)
  without_runner (ok _, s) = (ok tt, record s { running = false })

  -- `if self._runner is not None: …`
  unfoldable pub cleaned : Cleanup → Server pb → Result (Unit {0}) × Server pb
  unfolding without_runner
  cleaned cleanup s = if s.running then without_runner (cleanup s) else (ok tt, s)

  -- `self._dispatcher.close()`, unless the clean-up raised
  unfoldable pub close_dispatcher : Result (Unit {0}) × Server pb → Result (Unit {0}) × Server pb
  close_dispatcher (raise e, s) = (raise e, s)
  close_dispatcher (ok _, s) =
      let (result, d) = close pb s.dispatcher in (result, record s { dispatcher = d })

  -- `stop`
  unfoldable pub stop : Cleanup → Server pb → Result (Unit {0}) × Server pb
  unfolding cleaned close_dispatcher
  stop cleanup s = close_dispatcher (cleaned cleanup (record s { closed = true }))
