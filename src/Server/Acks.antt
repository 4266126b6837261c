-- ===== src/Server/Acks.antt =====
-- What a message does to the outside: the ack comes first, and no frame ends a session.
use python_fleet_telemetry.Prelude.{
  ℕ, ◌≡◌, ◌≤◌, ◌<◌, ◌↔◌, refl, sym, ◌∙◌, true, false, List, [], ◌∷◌, Str, Bytes, arith, ltb,
  Bool-cases, inl, inr,
}
use python_fleet_telemetry.Prelude.Lists.{length}
use python_fleet_telemetry.Errors.{
  Error, Result, ok, raise, is_envelope_error, is_connection_error, Result-cases,
}
use python_fleet_telemetry.Protobuf.{Protobuf}
use python_fleet_telemetry.Flatbuffers.{Flatbuffers}
use python_fleet_telemetry.Records.{Record, parse_record}
use python_fleet_telemetry.Envelope
use python_fleet_telemetry.Envelope.{StreamFrame}
use python_fleet_telemetry.Dispatch.State.{Dispatcher}
use python_fleet_telemetry.Dispatch.Loop.{Action, perform_all, World}
use python_fleet_telemetry.Server.Frames.{
  size_limit, Message, binary, other_message, Effect, acks, dispatches, ends, hand_on, after_parse,
  after_send, after_decode, process_frame, handle_message,
}

-- The ack of a decoded frame.
abbrev pub ack_of : Flatbuffers → StreamFrame → Bytes
ack_of fb f = Envelope.encode_ack fb f.txid f.topic f.message_id

pub small-ltb : (n : ℕ) → n ≤ size_limit → ltb size_limit n ≡ false
small-ltb n h = ground arith

module _ (pb : Protobuf) (fb : Flatbuffers) (send : Bytes → Result (Unit {0}))
    (sending : List (Action pb)) where
  -- The record that a decoded frame is dispatched as, if it parses.
  abbrev pub parsed : Str → StreamFrame → Result (Record pb)
  parsed vin f = parse_record pb vin f.topic f.txid f.created_at f.payload

  abbrev pub dispatches_of : Result (Record pb) → List (Effect pb)
  dispatches_of (ok r) = dispatches r ∷ []
  dispatches_of (raise e) = []

  after_parse-effects :
      (world : World pb) (r : Result (Record pb)) (d : Dispatcher pb) (ack : Bytes)
      → (after_parse pb world (acks ack ∷ []) r d).effects ≡ acks ack ∷ dispatches_of r
  unfolding after_parse hand_on ends
  after_parse-effects world (ok r) d ack = refl
  after_parse-effects world (raise e) d ack = ground arith

  -- A binary message within the size limit that decodes, over a socket that takes the ack, is
  -- acknowledged first, with the frame's own txid, topic and message id. Then the record is
  -- dispatched, once, if the frame parses; the ack does not depend on that.
  pub effects-handle_message :
      (world : World pb) (vin : Str) (bytes : Bytes) (d : Dispatcher pb) (f : StreamFrame)
      → length bytes ≤ size_limit
      → Envelope.decode fb bytes ≡ ok f
      → send (ack_of fb f) ≡ ok tt
      → (handle_message pb fb send sending world vin (binary bytes) d).effects
        ≡ acks (ack_of fb f) ∷ dispatches_of (parsed vin f)
  unfolding handle_message process_frame after_decode after_send after_parse hand_on ends
  effects-handle_message world vin bytes d f small decoded sent =
      rw (small-ltb (length bytes) small) (
        rw decoded (
          rw sent
            (after_parse-effects world (parsed vin f) (perform_all pb sending d) (ack_of fb f))))

  -- The messages that are not used, each for its reason.
  pub data IsDropped : Message → Type 0 where
    not_binary : IsDropped other_message
    too_long : (bytes : Bytes) → size_limit < length bytes → IsDropped (binary bytes)
    undecodable :
        (bytes : Bytes) (e : Error)
        → Envelope.decode fb bytes ≡ raise e
        → is_envelope_error e ≡ true
        → IsDropped (binary bytes)
    unsendable :
        (bytes : Bytes) (f : StreamFrame) (e : Error)
        → Envelope.decode fb bytes ≡ ok f
        → send (ack_of fb f) ≡ raise e
        → is_connection_error e ≡ true
        → IsDropped (binary bytes)

  IsDropped-handle_message :
      (world : World pb) (vin : Str) (m : Message) (d : Dispatcher pb)
      → IsDropped m
      → let done = handle_message pb fb send sending world vin m d in
        (done.effects ≡ []) × (done.result ≡ ok tt)
  unfolding handle_message process_frame after_decode after_send ends
  IsDropped-handle_message world vin other_message d not_binary = (refl, refl)
  IsDropped-handle_message world vin (binary bytes) d (too_long _ h) = (ground arith, ground arith)
  IsDropped-handle_message world vin (binary bytes) d (undecodable _ e h g) =
      elim (Bool-cases (ltb size_limit (length bytes))) [
        | inl l ↦ rw l (refl, refl)
        | inr l ↦ rw l (rw h (rw g (refl, refl)))
      ]
  IsDropped-handle_message world vin (binary bytes) d (unsendable _ f e h g k) =
      elim (Bool-cases (ltb size_limit (length bytes))) [
        | inl l ↦ rw l (refl, refl)
        | inr l ↦ rw l (rw h (rw g (rw k (refl, refl))))
      ]

  after_send-IsDropped :
      (world : World pb) (vin : Str) (bytes : Bytes) (f : StreamFrame) (d : Dispatcher pb)
      → Envelope.decode fb bytes ≡ ok f
      → let done = after_send pb world vin f (ack_of fb f) (send (ack_of fb f)) d in
        done.effects ≡ [] → done.result ≡ ok tt → IsDropped (binary bytes)
  unfolding after_send ends
  after_send-IsDropped world vin bytes f d decoded quiet done =
      elim (Result-cases (send (ack_of fb f))) [
        | inl (a, e) ↦
            let told : (acks (ack_of fb f) ∷ dispatches_of (parsed vin f)) ≡ [] =
              sym (after_parse-effects world (parsed vin f) d (ack_of fb f)) ∙ (rw e at quiet) in
            absurd cc
        | inr (x, e) ↦ elim (Bool-cases (is_connection_error x)) [
          | inl gone ↦ unsendable bytes f x decoded e gone
          | inr other ↦ let raised : raise x ≡ ok tt = rw other at (rw e at done) in absurd cc
        ]
      ]

  after_decode-IsDropped :
      (world : World pb) (vin : Str) (bytes : Bytes) (d : Dispatcher pb)
      → let done = after_decode pb fb send sending world vin (Envelope.decode fb bytes) d in
        done.effects ≡ [] → done.result ≡ ok tt → IsDropped (binary bytes)
  unfolding after_decode ends
  after_decode-IsDropped world vin bytes d quiet done =
      elim (Result-cases (Envelope.decode fb bytes)) [
        | inl (f, e) ↦
            after_send-IsDropped world vin bytes f (perform_all pb sending d) e
              (rw (e, after_decode) at quiet) (rw (e, after_decode) at done)
        | inr (x, e) ↦ elim (Bool-cases (is_envelope_error x)) [
          | inl own ↦ undecodable bytes x e own
          | inr other ↦ let raised : raise x ≡ ok tt = rw other at (rw e at done) in absurd cc
        ]
      ]

  -- Handling a message does nothing to the outside and raises nothing exactly when the message is
  -- not binary, or too long, or does not decode, or its ack finds the connection gone.
  pub handle_message-IsDropped :
      (world : World pb) (vin : Str) (m : Message) (d : Dispatcher pb)
      → let done = handle_message pb fb send sending world vin m d in
        ((done.effects ≡ []) × (done.result ≡ ok tt)) ↔ IsDropped m
  unfolding handle_message process_frame
  handle_message-IsDropped world vin other_message d =
      (λ _. not_binary, IsDropped-handle_message world vin other_message d)
  handle_message-IsDropped world vin (binary bytes) d = (
    λ (quiet, done). elim (Bool-cases (ltb size_limit (length bytes))) [
      | inl l ↦ too_long bytes (ground arith)
      | inr l ↦
          after_decode-IsDropped world vin bytes d (sym (rw l refl) ∙ quiet)
            (sym (rw l refl) ∙ done)
    ],
    IsDropped-handle_message world vin (binary bytes) d,
  )
