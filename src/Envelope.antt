-- ===== src/Envelope.antt =====
-- fleet_telemetry/_envelope.py: the transport envelope, over the generated bindings.
pub mod Bindings
pub mod Accessors
pub mod Tags
pub mod Reading
pub mod Built
pub mod Acks
pub mod Streams
use Bindings.{
  get_root_as, envelope_txid, envelope_txid_length, envelope_topic, envelope_topic_length,
  envelope_message_type, envelope_message, envelope_message_id, envelope_message_id_length,
  stream_created_at, stream_sender_id, stream_sender_id_length, stream_payload,
  stream_payload_length, stream_device_type, stream_device_type_length, stream_device_id,
  stream_device_id_length, stream_ack_start, stream_ack_end, envelope_start, envelope_end,
  envelope_add_txid, envelope_add_topic, envelope_add_message_type, envelope_add_message,
  envelope_add_message_id,
}
use python_fleet_telemetry.Prelude.{
  ℕ, zero, suc, ◌+◌, Option, none, some, [], ◌∷◌, Bytes, codes, ltb, ◌==◌, nat_eq, if◌then◌else◌,
}
use python_fleet_telemetry.Errors.{
  Error, Result, ok, raise, value_error, envelope_error, is_envelope_error, is_exception, ◌>>=◌,
}
use python_fleet_telemetry.Flatbuffers.{Flatbuffers, Table}

abbrev pub message_type_stream : ℕ
message_type_stream = 4

abbrev pub message_type_stream_ack : ℕ
message_type_stream_ack = 5

pub record StreamFrame : Type 0 where
  pub topic : Bytes
  pub txid : Bytes
  pub sender_id : Bytes
  pub device_type : Bytes
  pub device_id : Bytes
  pub payload : Bytes
  pub created_at : ℕ
  pub message_id : Bytes

pub record AckFrame : Type 0 where
  pub topic : Bytes
  pub txid : Bytes
  pub message_id : Bytes

-- What `bytes(…)` does with one number.
check_byte : ℕ → Result ℕ
check_byte b =
    if ltb b 256 then ok b else raise (value_error (codes "bytes must be in range(0, 256)"))

-- The bytes from index `i` on, of `left` indices.
read_from : (ℕ → Result ℕ) → ℕ → ℕ → Result Bytes
read_from accessor zero i = ok []
read_from accessor (suc left) i = do
  number ← accessor i
  b ← check_byte number
  rest ← read_from accessor left (suc i)
  ok (b ∷ rest)

-- `_read_vector(accessor, accessor_length())`
unfoldable pub read_vector : (ℕ → Result ℕ) → Result ℕ → Result Bytes
unfolding read_from check_byte
read_vector accessor length = do n ← length; read_from accessor n 0

-- `except EnvelopeError: raise` and `except Exception as exc: raise EnvelopeError(message)`
unfoldable pub only_envelope_error {ℓ} : {A : Type ℓ} → Error → Result A → Result A
only_envelope_error failure (ok a) = ok a
only_envelope_error failure (raise e) =
    if is_envelope_error e then raise e else if is_exception e then raise failure else raise e

module _ (fb : Flatbuffers) where
  -- `_root`
  unfoldable pub root : Bytes → Result Table
  root frame =
      only_envelope_error (envelope_error (codes "frame is not a valid envelope"))
        (get_root_as fb frame 0)

  unfoldable pub message_type : Bytes → Result ℕ
  message_type frame =
      only_envelope_error (envelope_error (codes "failed to read envelope message type"))
        (do env ← root frame; envelope_message_type fb env)

  -- the `StreamFrame(…)` of `decode`
  unfoldable pub stream_frame : Table → Table → Result StreamFrame
  stream_frame env stream = do
    topic ← read_vector (envelope_topic fb env) (envelope_topic_length fb env)
    txid ← read_vector (envelope_txid fb env) (envelope_txid_length fb env)
    sender_id ← read_vector (stream_sender_id fb stream) (stream_sender_id_length fb stream)
    device_type ← read_vector (stream_device_type fb stream) (stream_device_type_length fb stream)
    device_id ← read_vector (stream_device_id fb stream) (stream_device_id_length fb stream)
    payload ← read_vector (stream_payload fb stream) (stream_payload_length fb stream)
    created_at ← stream_created_at fb stream
    message_id ← read_vector (envelope_message_id fb env) (envelope_message_id_length fb env)
    ok (record {
      topic = topic;
      txid = txid;
      sender_id = sender_id;
      device_type = device_type;
      device_id = device_id;
      payload = payload;
      created_at = created_at;
      message_id = message_id;
    })

  unfoldable pub union_frame : Table → Option Table → Result StreamFrame
  union_frame env none = raise (envelope_error (codes "Stream envelope has no message value"))
  union_frame env (some stream) = stream_frame env stream

  -- `env` once its tag is read
  unfoldable pub tagged_frame : Table → ℕ → Result StreamFrame
  tagged_frame env tag =
      if tag == message_type_stream
      then (do union ← envelope_message fb env; union_frame env union)
      else raise (envelope_error (codes "expected Stream"))

  unfoldable pub decode : Bytes → Result StreamFrame
  decode frame =
      only_envelope_error (envelope_error (codes "failed to decode stream frame"))
        (do env ← root frame; tag ← envelope_message_type fb env; tagged_frame env tag)

  unfoldable pub ack_frame : Table → Result AckFrame
  ack_frame env = do
    topic ← read_vector (envelope_topic fb env) (envelope_topic_length fb env)
    txid ← read_vector (envelope_txid fb env) (envelope_txid_length fb env)
    message_id ← read_vector (envelope_message_id fb env) (envelope_message_id_length fb env)
    ok (record { topic = topic; txid = txid; message_id = message_id })

  unfoldable pub tagged_ack : Table → ℕ → Result AckFrame
  tagged_ack env tag =
      if tag == message_type_stream_ack
      then ack_frame env
      else raise (envelope_error (codes "expected StreamAck"))

  unfoldable pub decode_ack : Bytes → Result AckFrame
  decode_ack frame =
      only_envelope_error (envelope_error (codes "failed to decode ack frame"))
        (do env ← root frame; tag ← envelope_message_type fb env; tagged_ack env tag)

  unfoldable pub encode_ack : Bytes → Bytes → Bytes → Bytes
  encode_ack txid topic message_id =
      let b₀ = fb.builder 0 in
      let (txid_off, b₁) = fb.create_byte_vector b₀ txid in
      let (topic_off, b₂) = fb.create_byte_vector b₁ topic in
      let (message_id_off, b₃) = fb.create_byte_vector b₂ message_id in
      let (ack_off, b₄) = stream_ack_end fb (stream_ack_start fb b₃) in
      let b₅ = envelope_add_txid fb (envelope_start fb b₄) txid_off in
      let b₆ = envelope_add_topic fb b₅ topic_off in
      let b₇ = envelope_add_message_type fb b₆ message_type_stream_ack in
      let b₈ = envelope_add_message fb b₇ ack_off in
      let b₉ = envelope_add_message_id fb b₈ message_id_off in
      let (env_off, b) = envelope_end fb b₉ in fb.output (fb.finish b env_off)
