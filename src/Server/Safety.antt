-- ===== src/Server/Safety.antt =====
-- A session outlives its frames: no message of a vehicle ends it with an `Exception`.
use python_fleet_telemetry.Prelude.{
  subst, ◌≡◌, refl, ◌⊎◌, inl, inr, List, [], ◌∷◌, Str, Bytes, ltb, Bool-cases,
}
use python_fleet_telemetry.Prelude.Lists.{length}
use python_fleet_telemetry.Errors.{
  Result, ok, raise, connection_error, cancelled, is_envelope_error, IsQuiet, Result-cases,
}
use python_fleet_telemetry.Protobuf.{Protobuf}
use python_fleet_telemetry.Flatbuffers.{Flatbuffers}
use python_fleet_telemetry.Records.{parse_record}
use python_fleet_telemetry.Records.Fields.{fields-parse_record}
use python_fleet_telemetry.Envelope
use python_fleet_telemetry.Envelope.{StreamFrame}
use python_fleet_telemetry.Envelope.Tags.{IsGuarded, decode-IsGuarded}
use python_fleet_telemetry.Dispatch.State.{Dispatcher}
use python_fleet_telemetry.Dispatch.Loop.{Action, perform_all, World}
use python_fleet_telemetry.Dispatch.Invariant.{IsWell}
use python_fleet_telemetry.Dispatch.Reach.{perform_all-IsWell, dispatch-IsWell}
use python_fleet_telemetry.Dispatch.Isolation.{dispatch-Prefix}
use python_fleet_telemetry.Server.State.{Server}
use python_fleet_telemetry.Server.Frames.{
  size_limit, Message, binary, other_message, Effect, acks, Processed, ends, hand_on, after_parse,
  after_send, after_decode, process_frame, handle_message,
}
use python_fleet_telemetry.Server.Sessions.{Turn, Served, after_turn, serve}
use python_fleet_telemetry.Server.Raises.{ParsesOrDecodeError, parse_record-raises}

-- The socket takes the ack, or the connection is gone.
abbrev pub SendsOrGone : (Bytes → Result (Unit {0})) → Type 0
SendsOrGone send = (b : Bytes) → (send b ≡ ok tt) ⊎ (send b ≡ raise connection_error)

module _ (pb : Protobuf) where
  -- What a handled message leaves: no `Exception`, and a dispatcher that is well formed.
  abbrev IsSafe : Processed pb → Type 0
  IsSafe done = IsQuiet done.result × IsWell pb done.dispatcher

  ends-IsSafe :
      (effects : List (Effect pb)) (result : Result (Unit {0})) (d : Dispatcher pb)
      → IsQuiet result
      → IsWell pb d
      → IsSafe (ends pb effects result d)
  unfolding ends
  ends-IsSafe effects result d q w = (q, w)

  quiet : (m : Result (Unit {0})) → (m ≡ ok tt) ⊎ (m ≡ raise cancelled) → IsQuiet m
  quiet m (inl e) = rw e tt
  quiet m (inr e) = rw e refl

  after_parse-IsSafe :
      (world : World pb) (before : List (Effect pb)) (vin : Str) (f : StreamFrame)
      (d : Dispatcher pb)
      → ParsesOrDecodeError pb
      → IsWell pb d
      → IsSafe (
          after_parse pb world before (parse_record pb vin f.topic f.txid f.created_at f.payload) d)
  unfolding after_parse hand_on
  after_parse-IsSafe world before vin f d lawful w =
      elim (Result-cases (parse_record pb vin f.topic f.txid f.created_at f.payload)) [
        | inl (r, e) ↦
            let (fs, computed, _, _) =
              fields-parse_record pb vin f.topic f.txid f.created_at f.payload r e in
            rw e (
              quiet _ ((dispatch-Prefix pb world r d fs w computed).0),
              dispatch-IsWell pb world r d w,
            )
        | inr (x, e) ↦ rw e (
            rw (parse_record-raises pb vin f.txid f.payload f.created_at f.topic x lawful e)
              (ends-IsSafe before (ok tt) d tt w))
      ]

  module _ (fb : Flatbuffers) where
    module _ (send : Bytes → Result (Unit {0})) (sending : List (Action pb))
        (sends : SendsOrGone send) (lawful : ParsesOrDecodeError pb) where
      after_send-IsSafe :
          (world : World pb) (vin : Str) (f : StreamFrame) (ack : Bytes) (d : Dispatcher pb)
          → IsWell pb d
          → IsSafe (after_send pb world vin f ack (send ack) d)
      unfolding after_send
      after_send-IsSafe world vin f ack d w = elim (sends ack) [
        | inl taken ↦ rw taken (after_parse-IsSafe world (acks ack ∷ []) vin f d lawful w)
        | inr gone ↦ rw gone (ends-IsSafe [] (ok tt) d tt w)
      ]

      after_decode-IsSafe :
          (world : World pb) (vin : Str) (r : Result StreamFrame) (d : Dispatcher pb)
          → IsGuarded r
          → IsWell pb d
          → IsSafe (after_decode pb fb send sending world vin r d)
      unfolding after_decode
      after_decode-IsSafe world vin (ok f) d g w =
          after_send-IsSafe world vin f (Envelope.encode_ack fb f.txid f.topic f.message_id)
            (perform_all pb sending d) (perform_all-IsWell pb sending d w)
      after_decode-IsSafe world vin (raise e) d (inl own) w = rw own (ends-IsSafe [] (ok tt) d tt w)
      after_decode-IsSafe world vin (raise e) d (inr base) w =
          elim (Bool-cases (is_envelope_error e)) [
            | inl own ↦ rw own (ends-IsSafe [] (ok tt) d tt w)
            | inr foreign ↦ rw foreign (ends-IsSafe [] (raise e) d base w)
          ]

    -- Whatever a message is, on whatever bytes, handling it on a well-formed dispatcher raises no
    -- `Exception` and leaves the dispatcher well formed, if a send fails only because the
    -- connection is gone and the message classes raise only `DecodeError`. Listeners may do and
    -- raise what they like, and other tasks may call what they like during the send.
    pub handle_message-IsQuiet :
        (send : Bytes → Result (Unit {0})) (sending : List (Action pb)) (world : World pb)
        (vin : Str) (m : Message) (d : Dispatcher pb)
        → SendsOrGone send
        → ParsesOrDecodeError pb
        → IsWell pb d
        → IsQuiet (handle_message pb fb send sending world vin m d).result
          × IsWell pb (handle_message pb fb send sending world vin m d).dispatcher
    unfolding handle_message process_frame
    handle_message-IsQuiet send sending world vin other_message d sends lawful w =
        ends-IsSafe [] (ok tt) d tt w
    handle_message-IsQuiet send sending world vin (binary bytes) d sends lawful w =
        elim (Bool-cases (ltb size_limit (length bytes))) [
          | inl long ↦ rw long (ends-IsSafe [] (ok tt) d tt w)
          | inr short ↦ rw short (
              after_decode-IsSafe send sending sends lawful world vin (Envelope.decode fb bytes) d
                (decode-IsGuarded fb bytes).1 w)
        ]

    -- The turns of a session whose socket and whose other tasks keep to that.
    abbrev pub AreLawful : List (Turn pb) → Type 0
    AreLawful [] = Unit
    AreLawful (t ∷ ts) =
        SendsOrGone t.send
        × ((s : Server pb) → IsWell pb s.dispatcher → IsWell pb (t.meanwhile s).dispatcher)
        × AreLawful ts

    turn-IsQuiet :
        (done : Processed pb) (rest : Served pb) (s : Server pb)
        → IsQuiet done.result
        → IsQuiet rest.result
        → IsWell pb rest.server.dispatcher
        → IsWell pb s.dispatcher
        → IsQuiet (after_turn pb done s rest).result
          × IsWell pb (after_turn pb done s rest).server.dispatcher
    unfolding after_turn
    turn-IsQuiet done rest s q q' w' w = elim (Result-cases done.result) [
      | inl (a, e) ↦ rw e (q', w')
      | inr (x, e) ↦ rw e (subst IsQuiet e q, w)
    ]

    -- A session's loop raises no `Exception` and leaves the dispatcher well formed, whatever its
    -- messages are and however many, if sends fail only because the connection is gone, the message
    -- classes raise only `DecodeError`, and other tasks keep the dispatcher well formed.
    pub serve-IsQuiet :
        (vin : Str) (turns : List (Turn pb)) (s : Server pb)
        → ParsesOrDecodeError pb
        → AreLawful turns
        → IsWell pb s.dispatcher
        → IsQuiet (serve pb fb vin turns s).result
          × IsWell pb (serve pb fb vin turns s).server.dispatcher
    unfolding serve
    serve-IsQuiet vin [] s lawful turns_lawful w = (tt, w)
    serve-IsQuiet vin (t ∷ ts) s lawful (sends, keeps, rest_lawful) w =
        let s₁ = t.meanwhile s in
        let done = handle_message pb fb t.send t.sending t.world vin t.message s₁.dispatcher in
        let s₂ = record s₁ { dispatcher = done.dispatcher } in
        let (q, w') =
          handle_message-IsQuiet t.send t.sending t.world vin t.message s₁.dispatcher sends lawful
            (keeps s w) in
        let (q', w'') = serve-IsQuiet vin ts s₂ lawful rest_lawful w' in
        turn-IsQuiet done (serve pb fb vin ts s₂) s₂ q q' w'' w'
