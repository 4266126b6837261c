-- ===== src/Server/Registry.antt =====
-- The registry of connections through connects, reconnects and disconnects in any order.
use python_fleet_telemetry.Prelude.{
  ℕ, ◌<◌, ◌≡◌, refl, sym, ap, ◌∙◌, Bool, true, false, Option, none, some, List, [], ◌∷◌, ◌++◌, Str,
  arith, ◌==◌, nat_eq, str_eq, Bool-cases, inl, inr, if◌then◌else◌,
}
use python_fleet_telemetry.Prelude.Dict
use python_fleet_telemetry.Prelude.Dict.{Dict, keys, get-put, get-pop, contains-put, contains-pop}
use python_fleet_telemetry.Errors.{ok}
use python_fleet_telemetry.Protobuf.{Protobuf, ConnectivityEvent, connected}
use python_fleet_telemetry.Flatbuffers.{Flatbuffers}
use python_fleet_telemetry.Dispatch.Loop.{World}
use python_fleet_telemetry.Server.State.{Connection, Server, is_connected}
use python_fleet_telemetry.Server.Sessions.{
  Transition, connection, connect, is_current, disconnect, Turn, serve, session,
}

module _ (pb : Protobuf) where
  pub connections-connect :
      (world : World pb) (vin peer : Str) (version : Option Str) (now : ℕ) (s : Server pb)
      → (connect pb world vin peer version now s).server.connections
        ≡ Dict.put s.connections vin (connection pb vin peer version now s)
  unfolding connect
  connections-connect world vin peer version now s = refl

  connections-disconnect :
      (world : World pb) (vin : Str) (conn : Connection) (now : ℕ) (s : Server pb)
      → (disconnect pb world vin conn now s).server.connections ≡ (
          if is_current pb (Dict.get s.connections vin) conn
          then Dict.pop s.connections vin
          else s.connections)
  unfolding disconnect
  connections-disconnect world vin conn now s = ground arith

  disconnect_stale :
      (world : World pb) (vin : Str) (conn : Connection) (now : ℕ) (s : Server pb)
      → is_current pb (Dict.get s.connections vin) conn ≡ false
      → disconnect pb world vin conn now s ≡ record { announced = []; result = ok tt; server = s }
  unfolding disconnect
  disconnect_stale world vin conn now s h = rw h

  newer_is_not_current :
      (d : Dict Str Connection) (vin : Str) (old new : Connection)
      → old.ident < new.ident
      → (Dict.get (Dict.put d vin new) vin ≡ some new)
        × (is_current pb (Dict.get (Dict.put d vin new) vin) old ≡ false)
  unfolding is_current
  newer_is_not_current d vin old new h = rw get-put (ground arith)

  left_is_not_current :
      (d : Dict Str Connection) (vin : Str) (conn : Connection)
      → is_current pb
          (Dict.get (if is_current pb (Dict.get d vin) conn then Dict.pop d vin else d) vin)
          conn
        ≡ false
  left_is_not_current d vin conn = elim (Bool-cases (is_current pb (Dict.get d vin) conn)) [
    | inl own ↦ rw own (gone (Dict.get (Dict.pop d vin) vin) (rw get-pop (ground arith)))
    | inr other ↦ rw other other
  ]
    where
      gone : (o : Option Connection) → o ≡ none → is_current pb o conn ≡ false
      gone o e = rw e (unfold is_current in refl)

  -- A vehicle reconnects under a VIN whose older session has not ended yet. When that session ends,
  -- the newer connection stays in the registry, and nothing is announced.
  pub disconnect-reconnect :
      (w₁ w₂ w₃ : World pb) (vin peer₁ peer₂ : Str) (version₁ version₂ : Option Str) (t₁ t₂ t₃ : ℕ)
      (s : Server pb)
      → let old = connection pb vin peer₁ version₁ t₁ s in
        let s₁ = (connect pb w₁ vin peer₁ version₁ t₁ s).server in
        let new = connection pb vin peer₂ version₂ t₂ s₁ in
        let s₂ = (connect pb w₂ vin peer₂ version₂ t₂ s₁).server in
        let left = disconnect pb w₃ vin old t₃ s₂ in
        (Dict.get left.server.connections vin ≡ some new) × (left.announced ≡ [])
  unfolding connect
  disconnect-reconnect w₁ w₂ w₃ vin peer₁ peer₂ version₁ version₂ t₁ t₂ t₃ s =
      let old = connection pb vin peer₁ version₁ t₁ s in
      let s₁ = (connect pb w₁ vin peer₁ version₁ t₁ s).server in
      let new = connection pb vin peer₂ version₂ t₂ s₁ in
      let s₂ = (connect pb w₂ vin peer₂ version₂ t₂ s₁).server in
      let (found, other) = newer_is_not_current s₁.connections vin old new (omega arith) in
      rw (disconnect_stale w₃ vin old t₃ s₂ other) (found, refl)

  -- However a session ends, with an error or without, and whatever other tasks did meanwhile, its
  -- own connection is then not in the registry.
  pub session-is_current :
      (fb : Flatbuffers) (vin : Str) (conn : Connection) (turns : List (Turn pb))
      (meanwhile : Server pb → Server pb) (world : World pb) (now : ℕ) (s : Server pb)
      → is_current pb
          (Dict.get (session pb fb vin conn turns meanwhile world now s).server.connections vin)
          conn
        ≡ false
  unfolding session
  session-is_current fb vin conn turns meanwhile world now s =
      let s' = meanwhile (serve pb fb vin turns s).server in
      ap (λ d. is_current pb (Dict.get d vin) conn) (connections-disconnect world vin conn now s')
      ∙ left_is_not_current s'.connections vin conn

  -- A session's begin or end, as the event loop runs them.
  pub data Event : Type 0 where
    opens : World pb → Str → Str → Option Str → ℕ → Event
    ends : World pb → Str → Connection → ℕ → Event

  unfoldable pub step : Event → Server pb → Transition pb
  step (opens world vin peer version now) s = connect pb world vin peer version now s
  step (ends world vin conn now) s = disconnect pb world vin conn now s

  -- The announcements of a sequence of such steps, and the server after it.
  unfoldable pub steps : List Event → Server pb → List (Str × ConnectivityEvent) × Server pb
  steps [] s = ([], s)
  steps (e ∷ rest) s =
      let t = step e s in let (more, s') = steps rest t.server in (t.announced ++ more, s')

  abbrev is_connected_event : ConnectivityEvent → Bool
  is_connected_event connected = true
  is_connected_event _ = false

  -- Whether the last announcement of a VIN was CONNECTED; `before` is what held before them.
  abbrev pub last_announced : Str → Bool → List (Str × ConnectivityEvent) → Bool
  last_announced vin before [] = before
  last_announced vin before ((v, event) ∷ rest) =
      last_announced vin (if vin == v then is_connected_event event else before) rest

  step_connected :
      (e : Event) (s : Server pb) (vin : Str)
      → is_connected pb (step e s).server vin
        ≡ last_announced vin (is_connected pb s vin) (step e s).announced
  unfolding step connect disconnect is_connected
  step_connected (opens world v peer version now) s vin = rw contains-put (ground arith)
  step_connected (ends world v conn now) s vin =
      elim (Bool-cases (is_current pb (Dict.get s.connections v) conn)) [
        | inl own ↦ rw own (rw contains-pop (ground arith))
        | inr other ↦ rw other refl
      ]

  pub last_announced-append :
      (vin : Str) (before : Bool) (xs ys : List (Str × ConnectivityEvent))
      → last_announced vin before (xs ++ ys) ≡ last_announced vin (last_announced vin before xs) ys
  last_announced-append vin before [] ys = refl
  last_announced-append vin before ((v, e) ∷ xs) ys =
      last_announced-append vin (if vin == v then is_connected_event e else before) xs ys

  -- Sessions begin and end in any order, on one VIN or on many, each `connect` and `disconnect` as
  -- one step: at any time `is_connected` of a VIN says whether the last record announced for it was
  -- CONNECTED (what held before, if none was).
  pub is_connected-steps :
      (events : List Event) (s : Server pb) (vin : Str)
      → is_connected pb (steps events s).1 vin
        ≡ last_announced vin (is_connected pb s vin) (steps events s).0
  unfolding steps
  is_connected-steps [] s vin = refl
  is_connected-steps (e ∷ events) s vin =
      is_connected-steps events (step e s).server vin
      ∙ ap (λ b. last_announced vin b (steps events (step e s).server).0) (step_connected e s vin)
      ∙ sym (last_announced-append vin (is_connected pb s vin) (step e s).announced _)
