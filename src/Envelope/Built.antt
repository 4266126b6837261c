-- ===== src/Envelope/Built.antt =====
-- `decode` and `decode_ack` on the bytes of a builder, and the round trip of `encode_ack`.
use python_fleet_telemetry.Prelude.{ℕ, ◌≡◌, refl, some, Bytes, nat_eq}
use python_fleet_telemetry.Prelude.Dict
use python_fleet_telemetry.Errors.{ok}
use python_fleet_telemetry.Flatbuffers.{Flatbuffers, Table}
use python_fleet_telemetry.Flatbuffers.Laws.{IsLawful, Fields, reference, uint8}
use python_fleet_telemetry.Envelope.Bindings.{
  get_root_as, envelope_txid, envelope_txid_length, envelope_topic, envelope_topic_length,
  envelope_message_id, envelope_message_id_length, stream_sender_id, stream_sender_id_length,
  stream_payload, stream_payload_length, stream_device_type, stream_device_type_length,
  stream_device_id, stream_device_id_length,
}
use python_fleet_telemetry.Envelope.{
  message_type_stream, message_type_stream_ack, StreamFrame, AckFrame, only_envelope_error, root,
  message_type, stream_frame, union_frame, tagged_frame, decode, ack_frame, tagged_ack, decode_ack,
}
use python_fleet_telemetry.Envelope.Reading.{
  HasBytes, HasUint32, read_vector-HasBytes, stream_created_at-HasUint32,
  envelope_message_type-uint8, envelope_message-reference,
}

module _ (fb : Flatbuffers) (laws : IsLawful fb) (b : fb.Builder) where
  root-finish :
      (o : ℕ) (env : Fields)
      → laws.HasTable b o env
      → (t : Table) × (root fb (fb.output (fb.finish b o)) ≡ ok t) × laws.At b t env
  unfolding root get_root_as only_envelope_error
  root-finish o env h = let (n, found, at) = laws.root-finish b o env h in (_, rw found refl, at)

  -- The three vectors of an envelope.
  pub record EnvelopeHas (env : Fields) (txid topic message_id : Bytes) (tag : ℕ) : Type 0 where
    pub txid_held : HasBytes fb laws b env 0 txid
    pub topic_held : HasBytes fb laws b env 1 topic
    pub tag_held : Dict.get env 2 ≡ some (uint8 tag)
    pub message_id_held : HasBytes fb laws b env 4 message_id

  -- The fields of a stream table.
  pub record StreamHas (stream : Fields) (f : StreamFrame) : Type 0 where
    pub created_at_held : HasUint32 fb laws b stream 0 f.created_at
    pub sender_id_held : HasBytes fb laws b stream 1 f.sender_id
    pub payload_held : HasBytes fb laws b stream 2 f.payload
    pub device_type_held : HasBytes fb laws b stream 3 f.device_type
    pub device_id_held : HasBytes fb laws b stream 4 f.device_id

  ack_frame-EnvelopeHas :
      (t : Table) (env : Fields) (f : AckFrame) (tag : ℕ)
      → laws.At b t env
      → EnvelopeHas env f.txid f.topic f.message_id tag
      → ack_frame fb t ≡ ok f
  unfolding ack_frame envelope_txid envelope_txid_length envelope_topic envelope_topic_length
      envelope_message_id envelope_message_id_length
  ack_frame-EnvelopeHas t env f tag at h =
      rw (read_vector-HasBytes fb laws b env t at 1 f.topic h.topic_held) (
        rw (read_vector-HasBytes fb laws b env t at 0 f.txid h.txid_held)
          (rw (read_vector-HasBytes fb laws b env t at 4 f.message_id h.message_id_held) refl))

  stream_frame-Has :
      (t t' : Table) (env stream : Fields) (f : StreamFrame) (tag : ℕ)
      → laws.At b t env
      → laws.At b t' stream
      → EnvelopeHas env f.txid f.topic f.message_id tag
      → StreamHas stream f
      → stream_frame fb t t' ≡ ok f
  unfolding stream_frame envelope_txid envelope_txid_length envelope_topic envelope_topic_length
      envelope_message_id envelope_message_id_length stream_sender_id stream_sender_id_length
      stream_payload stream_payload_length stream_device_type stream_device_type_length
      stream_device_id stream_device_id_length
  stream_frame-Has t t' env stream f tag at at' h s =
      rw (read_vector-HasBytes fb laws b env t at 1 f.topic h.topic_held) (
        rw (read_vector-HasBytes fb laws b env t at 0 f.txid h.txid_held) (
          rw (read_vector-HasBytes fb laws b stream t' at' 1 f.sender_id s.sender_id_held) (
            rw (read_vector-HasBytes fb laws b stream t' at' 3 f.device_type s.device_type_held) (
              rw (read_vector-HasBytes fb laws b stream t' at' 4 f.device_id s.device_id_held) (
                rw (read_vector-HasBytes fb laws b stream t' at' 2 f.payload s.payload_held) (
                  rw
                    (stream_created_at-HasUint32 fb laws b stream t' at' f.created_at
                      s.created_at_held)
                    (rw (read_vector-HasBytes fb laws b env t at 4 f.message_id h.message_id_held)
                      refl)))))))

  -- A buffer whose root is an envelope with the tag of a stream ack and these vectors, each of them
  -- left out or empty for no bytes: `decode_ack` returns them, and `message_type` the tag.
  pub decode_ack-EnvelopeHas :
      (o : ℕ) (env : Fields) (f : AckFrame)
      → laws.HasTable b o env
      → EnvelopeHas env f.txid f.topic f.message_id message_type_stream_ack
      → let frame = fb.output (fb.finish b o) in
        (decode_ack fb frame ≡ ok f) × (message_type fb frame ≡ ok message_type_stream_ack)
  unfolding decode_ack message_type tagged_ack only_envelope_error nat_eq
  decode_ack-EnvelopeHas o env f held h =
      let (t, rooted, at) = root-finish o env held in
      let tagged = envelope_message_type-uint8 fb laws b env t at 5 h.tag_held in
      (
        rw rooted (rw tagged (rw (ack_frame-EnvelopeHas t env f 5 at h) refl)),
        rw rooted (rw tagged refl),
      )

  -- A buffer whose root is an envelope with the tag of a stream, a stream table and these vectors,
  -- each of them left out or empty for no bytes, and the time left out for 0: `decode` returns
  -- exactly these fields, and `message_type` the tag.
  pub decode-Has :
      (o so : ℕ) (env stream : Fields) (f : StreamFrame)
      → laws.HasTable b o env
      → EnvelopeHas env f.txid f.topic f.message_id message_type_stream
      → Dict.get env 3 ≡ some (reference so)
      → laws.HasTable b so stream
      → StreamHas stream f
      → let frame = fb.output (fb.finish b o) in
        (decode fb frame ≡ ok f) × (message_type fb frame ≡ ok message_type_stream)
  unfolding decode message_type tagged_frame union_frame only_envelope_error nat_eq
  decode-Has o so env stream f held h joined held' s =
      let (t, rooted, at) = root-finish o env held in
      let (t', union, at') = envelope_message-reference fb laws b env t at so stream joined held' in
      let tagged = envelope_message_type-uint8 fb laws b env t at 4 h.tag_held in
      (
        rw rooted
            (rw tagged (rw union (rw (stream_frame-Has t t' env stream f 4 at at' h s) refl))),
        rw rooted (rw tagged refl),
      )
