-- ===== src/Server/Delivered.antt =====
-- A frame from the device that writes it to the listeners: the parts of the program together.
use python_fleet_telemetry.Prelude.{
  ℕ, ◌≡◌, ◌≤◌, ◌<◌, refl, ◌∙◌, true, Option, List, [], ◌∷◌, Str, Bytes, arith,
}
use python_fleet_telemetry.Prelude.Lists.{length}
use python_fleet_telemetry.Prelude.Dict.{Dict, keys, values}
use python_fleet_telemetry.Errors.{Result, ok}
use python_fleet_telemetry.Text.Utf8
use python_fleet_telemetry.Protobuf.{Protobuf}
use python_fleet_telemetry.Flatbuffers.{Flatbuffers}
use python_fleet_telemetry.Flatbuffers.Laws.{IsLawful}
use python_fleet_telemetry.Records.{
  Topic, topic_value, Message, Record, parse_message, parse_record, fields,
}
use python_fleet_telemetry.Records.Fields.{fields-parse_record}
use python_fleet_telemetry.Records.Parse.{parse_record_topic}
use python_fleet_telemetry.Envelope
use python_fleet_telemetry.Envelope.{StreamFrame}
use python_fleet_telemetry.Envelope.Streams.{Fits, written, decode-written}
use python_fleet_telemetry.Envelope.Acks.{decode_ack-encode_ack}
use python_fleet_telemetry.Dispatch.State.{Dispatcher}
use python_fleet_telemetry.Dispatch.Loop.{Action, perform_all, World, caught}
use python_fleet_telemetry.Dispatch.Invariant.{IsWell}
use python_fleet_telemetry.Dispatch.Reach.{perform_all-IsWell, dispatch-IsWell}
use python_fleet_telemetry.Dispatch.Isolation.{matching, dispatch-called}
use python_fleet_telemetry.Server.Frames.{
  size_limit, binary, acks, dispatches, hand_on, after_parse, after_send, after_decode,
  process_frame, handle_message,
}
use python_fleet_telemetry.Server.Acks.{ack_of, small-ltb}

module _ (pb : Protobuf) where
  -- The record of a frame with a topic and a parsed message.
  abbrev pub record_of : Str → StreamFrame → (t : Topic) → Message pb → Record pb
  record_of vin f t m = record {
    vin = vin;
    topic = t;
    created_at = f.created_at;
    txid = Utf8.decode f.txid;
    message = m;
    raw = f.payload;
  }

module _ (pb : Protobuf) (fb : Flatbuffers) (laws : IsLawful fb) (send : Bytes → Result (Unit {0}))
    (sending : List (Action pb)) where
  parsed-record_of :
      (vin : Str) (f : StreamFrame) (t : Topic) (m : Message pb)
      → f.topic ≡ topic_value t
      → f.created_at < 4294967296
      → parse_message pb t f.payload ≡ ok m
      → parse_record pb vin f.topic f.txid f.created_at f.payload ≡ ok (record_of pb vin f t m)
  parsed-record_of vin f t m topic_ time parses =
      rw topic_
        (parse_record_topic pb vin f.txid f.payload f.created_at t (omega arith) ∙ rw parses refl)

  handle_message-hand_on :
      (world : World pb) (vin : Str) (bytes : Bytes) (d : Dispatcher pb) (f : StreamFrame)
      (r : Record pb)
      → length bytes ≤ size_limit
      → Envelope.decode fb bytes ≡ ok f
      → send (ack_of fb f) ≡ ok tt
      → parse_record pb vin f.topic f.txid f.created_at f.payload ≡ ok r
      → handle_message pb fb send sending world vin (binary bytes) d
        ≡ hand_on pb world (acks (ack_of fb f) ∷ []) r (perform_all pb sending d)
  unfolding handle_message process_frame after_decode after_send after_parse
  handle_message-hand_on world vin bytes d f r small decoded sent parses =
      rw (small-ltb (length bytes) small) (rw decoded (rw sent (rw parses refl)))

  -- Over a lawful runtime, a frame of bytes and a 32-bit time that a device wrote with one of the
  -- four topics and a payload that its class parses, within the size limit, comes over a socket
  -- that takes the ack to a server with a well-formed dispatcher whose listeners return or raise an
  -- `Exception`. The server first sends an ack, which decodes to the frame's own topic, txid and
  -- message id, and then dispatches the record with the frame's topic, time and payload: its fields
  -- compute, exactly the listeners that match are called, in order, of those that are registered
  -- after what other tasks called during the send, and no error is left.
  pub handle_message-written :
      (world : World pb) (vin : Str) (d : Dispatcher pb) (f : StreamFrame) (t : Topic)
      (m : Message pb)
      → IsWell pb d
      → Fits f
      → f.topic ≡ topic_value t
      → parse_message pb t f.payload ≡ ok m
      → length (written fb f) ≤ size_limit
      → send (ack_of fb f) ≡ ok tt
      → ((n callback : ℕ) → caught pb (world n callback).outcome ≡ true)
      → let done = handle_message pb fb send sending world vin (binary (written fb f)) d in
        let ack = ack_of fb f in
        let r = record_of pb vin f t m in
        (fs : Dict Str (Option pb.Object)) × (fields pb r ≡ ok fs)
        × (done.effects ≡ acks ack ∷ dispatches r ∷ [])
        × (Envelope.decode_ack fb ack
            ≡ ok (record { topic = f.topic; txid = f.txid; message_id = f.message_id }))
        × (done.called ≡ matching pb (values (perform_all pb sending d).registrations) r (keys fs))
        × (done.result ≡ ok tt)
  unfolding hand_on
  handle_message-written world vin d f t m w fits topic_ parses small sent polite =
      let r = record_of pb vin f t m in
      let parsed_ = parsed-record_of vin f t m topic_ fits.created_at_fits parses in
      let (decoded, _) = decode-written fb laws f fits in
      let (acked, _) =
        decode_ack-encode_ack fb laws f.txid f.topic f.message_id fits.txid_fits fits.topic_fits
          fits.message_id_fits in
      let (fs, computed, keyed, valued) =
        fields-parse_record pb vin f.topic f.txid f.created_at f.payload r parsed_ in
      let (called, done) =
        dispatch-called pb world r (perform_all pb sending d) fs (perform_all-IsWell pb sending d w)
          computed polite in
      let handled =
        handle_message-hand_on world vin (written fb f) d f r small decoded sent parsed_ in
      (fs, computed, rw handled refl, acked, rw handled called, rw handled done)

  pub handle_message-IsWell :
      (world : World pb) (vin : Str) (d : Dispatcher pb) (f : StreamFrame) (t : Topic)
      (m : Message pb)
      → IsWell pb d
      → Fits f
      → f.topic ≡ topic_value t
      → parse_message pb t f.payload ≡ ok m
      → length (written fb f) ≤ size_limit
      → send (ack_of fb f) ≡ ok tt
      → IsWell pb (handle_message pb fb send sending world vin (binary (written fb f)) d).dispatcher
  unfolding hand_on
  handle_message-IsWell world vin d f t m w fits topic_ parses small sent =
      let r = record_of pb vin f t m in
      let parsed_ = parsed-record_of vin f t m topic_ fits.created_at_fits parses in
      let (decoded, _) = decode-written fb laws f fits in
      let handled =
        handle_message-hand_on world vin (written fb f) d f r small decoded sent parsed_ in
      rw handled
        (dispatch-IsWell pb world r (perform_all pb sending d) (perform_all-IsWell pb sending d w))
