-- ===== src/Server/Conversation.antt =====
-- A whole session of a device that writes frames.
use python_fleet_telemetry.Prelude.{◌≡◌, ◌≤◌, refl, true, List, [], ◌∷◌, ◌++◌, Str, ℕ}
use python_fleet_telemetry.Prelude.Lists.{length}
use python_fleet_telemetry.Errors.{ok}
use python_fleet_telemetry.Protobuf.{Protobuf}
use python_fleet_telemetry.Flatbuffers.{Flatbuffers}
use python_fleet_telemetry.Flatbuffers.Laws.{IsLawful}
use python_fleet_telemetry.Records.{Topic, topic_value, Message, parse_message}
use python_fleet_telemetry.Envelope
use python_fleet_telemetry.Envelope.{StreamFrame}
use python_fleet_telemetry.Envelope.Streams.{Fits, written}
use python_fleet_telemetry.Dispatch.Loop.{caught}
use python_fleet_telemetry.Dispatch.Invariant.{IsWell}
use python_fleet_telemetry.Server.State.{Server}
use python_fleet_telemetry.Server.Frames.{
  size_limit, binary, Effect, acks, dispatches, Processed, handle_message,
}
use python_fleet_telemetry.Server.Sessions.{Turn, Served, after_turn, serve}
use python_fleet_telemetry.Server.Delivered.{
  record_of, handle_message-written, handle_message-IsWell,
}

module _ (pb : Protobuf) (fb : Flatbuffers) (laws : IsLawful fb) (vin : Str) where
  -- A turn in which the device sends this frame, with one of the four topics and a payload that its
  -- class parses, within the size limit; the socket takes the ack, the listeners return or raise an
  -- `Exception`, and other tasks keep the dispatcher well formed.
  pub record Sends (turn : Turn pb) (f : StreamFrame) (t : Topic) (m : Message pb) : Type 0 where
    pub message_is : turn.message ≡ binary (written fb f)
    pub fits : Fits f
    pub topic_is : f.topic ≡ topic_value t
    pub parses : parse_message pb t f.payload ≡ ok m
    pub small : length (written fb f) ≤ size_limit
    pub taken : turn.send (Envelope.encode_ack fb f.txid f.topic f.message_id) ≡ ok tt
    pub polite : (n callback : ℕ) → caught pb (turn.world n callback).outcome ≡ true
    pub orderly : (s : Server pb) → IsWell pb s.dispatcher → IsWell pb (turn.meanwhile s).dispatcher

  -- The turns of a session, with what it is to do to the outside: an ack and a dispatch for each
  -- frame, in turn.
  pub data Frames : List (Turn pb) → List (Effect pb) → Type 0 where
    no_frames : Frames [] []
    next_frame :
        {turn : Turn pb} {turns : List (Turn pb)} {effects : List (Effect pb)} (f : StreamFrame)
        (t : Topic) (m : Message pb)
        → Sends turn f t m
        → Frames turns effects
        → Frames (turn ∷ turns) (
            acks (Envelope.encode_ack fb f.txid f.topic f.message_id)
            ∷ dispatches (record_of pb vin f t m)
            ∷ effects)

  after_turn-ok :
      (p : Processed pb) (s : Server pb) (rest : Served pb)
      → p.result ≡ ok tt
      → after_turn pb p s rest ≡ record rest { effects = p.effects ++ rest.effects }
  unfolding after_turn
  after_turn-ok p s rest h = rw (h, after_turn) refl

  -- Over a lawful runtime, a device sends any number of frames in a session, each of them with one
  -- of the four topics, bytes and a 32-bit time in its fields, a payload that its class parses and
  -- a size within the limit. The socket takes the acks, listeners return or raise an `Exception`,
  -- and other tasks keep the dispatcher, well formed at first, so. The session's loop ends without
  -- an error: for each frame in turn an ack of it is sent and then its record is dispatched, and
  -- nothing else. The dispatcher is well formed after it.
  pub serve-Frames :
      (turns : List (Turn pb)) (effects : List (Effect pb)) (s : Server pb)
      → Frames turns effects
      → IsWell pb s.dispatcher
      → let served = serve pb fb vin turns s in
        (served.effects ≡ effects) × (served.result ≡ ok tt) × IsWell pb served.server.dispatcher
  unfolding serve
  serve-Frames turns effects s no_frames w = (refl, refl, w)
  serve-Frames turns effects s (next_frame {turn} {turns = later} f t m sends rest) w =
      let s₁ = turn.meanwhile s in
      let w₁ = sends.orderly s w in
      let p =
        handle_message pb fb turn.send turn.sending turn.world vin (binary (written fb f))
          s₁.dispatcher in
      let (fs, computed, told, acked, called, ended) =
        handle_message-written pb fb laws turn.send turn.sending turn.world vin s₁.dispatcher f t m
          w₁ sends.fits sends.topic_is sends.parses sends.small sends.taken sends.polite in
      let w₂ =
        handle_message-IsWell pb fb laws turn.send turn.sending turn.world vin s₁.dispatcher f t m
          w₁ sends.fits sends.topic_is sends.parses sends.small sends.taken in
      let (same, finished, w₃) =
        serve-Frames later _ (record s₁ { dispatcher = p.dispatcher }) rest w₂ in
      rw sends.message_is (
        rw
          (after_turn-ok p (record s₁ { dispatcher = p.dispatcher })
            (serve pb fb vin later (record s₁ { dispatcher = p.dispatcher })) ended)
          (rw told (rw same refl), finished, w₃))
