-- ===== src/Envelope/Accessors.antt =====
-- fleet_telemetry/_flatbuffers/tesla_generated.py: the accessors and builders that no code of the
-- package calls. The padding classes are as `FlatbuffersStreamAck`, without fields.
use python_fleet_telemetry.Prelude.{
  ℕ, ◌+◌, Bool, Option, none, some, Bytes, ◌==◌, nat_eq, if◌then◌else◌,
}
use python_fleet_telemetry.Errors.{Result, ok, ◌>>=◌}
use python_fleet_telemetry.Flatbuffers.{Flatbuffers, Table}
use python_fleet_telemetry.Envelope.Bindings.{get_root_as}

-- `Message`, the tags of the union
pub data Message : Type 0 where
  none_ : Message
  pad1 : Message
  pad2 : Message
  pad3 : Message
  flatbuffers_stream : Message
  flatbuffers_stream_ack : Message

unfoldable pub tag_value : Message → ℕ
tag_value none_ = 0
tag_value pad1 = 1
tag_value pad2 = 2
tag_value pad3 = 3
tag_value flatbuffers_stream = 4
tag_value flatbuffers_stream_ack = 5

-- `Init`
unfoldable pub init : Bytes → ℕ → Table
init buf pos = record { bytes = buf; pos = pos }

module _ (fb : Flatbuffers) where
  open fb use {
    offset, get_uint64, get_vector_as_numpy, Builder, start_vector, prepend_uint64_slot,
    start_object, end_object,
  }

  -- whether the slot is set
  unfoldable pub vector_is_none : ℕ → Table → Result Bool
  vector_is_none slot tab = do o ← offset tab slot; ok (o == 0)

  -- the elements at once, `none` for the 0 of a slot that is not set
  unfoldable pub vector_as_numpy : ℕ → Table → Result (Option Bytes)
  vector_as_numpy slot tab = do
    o ← offset tab slot
    if o == 0 then ok none else do array ← get_vector_as_numpy tab o; ok (some array)

  unfoldable pub stream_get_root_as : Bytes → ℕ → Result Table
  unfolding get_root_as
  stream_get_root_as = get_root_as fb

  unfoldable pub stream_ack_get_root_as : Bytes → ℕ → Result Table
  unfolding get_root_as
  stream_ack_get_root_as = get_root_as fb

  -- the deprecated names
  unfoldable pub get_root_as_flatbuffers_stream : Bytes → ℕ → Result Table
  unfolding stream_get_root_as
  get_root_as_flatbuffers_stream = stream_get_root_as

  unfoldable pub get_root_as_flatbuffers_stream_ack : Bytes → ℕ → Result Table
  unfolding stream_ack_get_root_as
  get_root_as_flatbuffers_stream_ack = stream_ack_get_root_as

  unfoldable pub get_root_as_flatbuffers_envelope : Bytes → ℕ → Result Table
  unfolding get_root_as
  get_root_as_flatbuffers_envelope = get_root_as fb

  unfoldable pub stream_sender_id_is_none : Table → Result Bool
  stream_sender_id_is_none = vector_is_none 6

  unfoldable pub stream_sender_id_as_numpy : Table → Result (Option Bytes)
  stream_sender_id_as_numpy = vector_as_numpy 6

  unfoldable pub stream_payload_is_none : Table → Result Bool
  stream_payload_is_none = vector_is_none 8

  unfoldable pub stream_payload_as_numpy : Table → Result (Option Bytes)
  stream_payload_as_numpy = vector_as_numpy 8

  unfoldable pub stream_device_type_is_none : Table → Result Bool
  stream_device_type_is_none = vector_is_none 10

  unfoldable pub stream_device_type_as_numpy : Table → Result (Option Bytes)
  stream_device_type_as_numpy = vector_as_numpy 10

  unfoldable pub stream_device_id_is_none : Table → Result Bool
  stream_device_id_is_none = vector_is_none 12

  unfoldable pub stream_device_id_as_numpy : Table → Result (Option Bytes)
  stream_device_id_as_numpy = vector_as_numpy 12

  unfoldable pub envelope_txid_is_none : Table → Result Bool
  envelope_txid_is_none = vector_is_none 4

  unfoldable pub envelope_txid_as_numpy : Table → Result (Option Bytes)
  envelope_txid_as_numpy = vector_as_numpy 4

  unfoldable pub envelope_topic_is_none : Table → Result Bool
  envelope_topic_is_none = vector_is_none 6

  unfoldable pub envelope_topic_as_numpy : Table → Result (Option Bytes)
  envelope_topic_as_numpy = vector_as_numpy 6

  unfoldable pub envelope_message_id_is_none : Table → Result Bool
  envelope_message_id_is_none = vector_is_none 12

  unfoldable pub envelope_message_id_as_numpy : Table → Result (Option Bytes)
  envelope_message_id_as_numpy = vector_as_numpy 12

  unfoldable pub stream_delivered_at_epoch_ms : Table → Result ℕ
  stream_delivered_at_epoch_ms tab = do
    o ← offset tab 14
    if o == 0 then ok 0 else get_uint64 tab (o + tab.pos)

  unfoldable pub stream_add_delivered_at_epoch_ms : Builder → ℕ → Builder
  stream_add_delivered_at_epoch_ms b delivered_at_epoch_ms =
      prepend_uint64_slot b 5 delivered_at_epoch_ms 0

  -- a vector of `elements` bytes, to be put in one by one
  unfoldable pub start_byte_vector : Builder → ℕ → ℕ × Builder
  start_byte_vector b elements = start_vector b 1 elements 1

  unfoldable pub stream_start_sender_id_vector : Builder → ℕ → ℕ × Builder
  unfolding start_byte_vector
  stream_start_sender_id_vector = start_byte_vector

  unfoldable pub stream_start_payload_vector : Builder → ℕ → ℕ × Builder
  unfolding start_byte_vector
  stream_start_payload_vector = start_byte_vector

  unfoldable pub stream_start_device_type_vector : Builder → ℕ → ℕ × Builder
  unfolding start_byte_vector
  stream_start_device_type_vector = start_byte_vector

  unfoldable pub stream_start_device_id_vector : Builder → ℕ → ℕ × Builder
  unfolding start_byte_vector
  stream_start_device_id_vector = start_byte_vector

  unfoldable pub envelope_start_txid_vector : Builder → ℕ → ℕ × Builder
  unfolding start_byte_vector
  envelope_start_txid_vector = start_byte_vector

  unfoldable pub envelope_start_topic_vector : Builder → ℕ → ℕ × Builder
  unfolding start_byte_vector
  envelope_start_topic_vector = start_byte_vector

  unfoldable pub envelope_start_message_id_vector : Builder → ℕ → ℕ × Builder
  unfolding start_byte_vector
  envelope_start_message_id_vector = start_byte_vector

  unfoldable pub pad1_get_root_as : Bytes → ℕ → Result Table
  unfolding get_root_as
  pad1_get_root_as = get_root_as fb

  unfoldable pub pad1_start : Builder → Builder
  pad1_start b = start_object b 0

  unfoldable pub pad1_end : Builder → ℕ × Builder
  pad1_end b = end_object b

  unfoldable pub pad2_get_root_as : Bytes → ℕ → Result Table
  unfolding get_root_as
  pad2_get_root_as = get_root_as fb

  unfoldable pub pad2_start : Builder → Builder
  pad2_start b = start_object b 0

  unfoldable pub pad2_end : Builder → ℕ × Builder
  pad2_end b = end_object b

  unfoldable pub pad3_get_root_as : Bytes → ℕ → Result Table
  unfolding get_root_as
  pad3_get_root_as = get_root_as fb

  unfoldable pub pad3_start : Builder → Builder
  pad3_start b = start_object b 0

  unfoldable pub pad3_end : Builder → ℕ × Builder
  pad3_end b = end_object b
