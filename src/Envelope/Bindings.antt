-- ===== src/Envelope/Bindings.antt =====
-- fleet_telemetry/_flatbuffers/tesla_generated.py: the accessors and builders that _envelope.py
-- calls. Each accessor reads the table's vtable slot, and returns its default where that is 0.
use python_fleet_telemetry.Prelude.{ℕ, ◌+◌, Option, none, some, Bytes, ◌==◌, nat_eq, if◌then◌else◌}
use python_fleet_telemetry.Errors.{Result, ok, ◌>>=◌}
use python_fleet_telemetry.Flatbuffers.{Flatbuffers, Table}

module _ (fb : Flatbuffers) where
  open fb use {
    get_uoffset, offset, get_uint8, get_uint32, vector, vector_len, union, Builder, start_object,
    prepend_uoffset_slot, prepend_uint8_slot, prepend_uint32_slot, end_object,
  }

  -- `FlatbuffersEnvelope.GetRootAs`
  unfoldable pub get_root_as : Bytes → ℕ → Result Table
  get_root_as buf at = do n ← get_uoffset buf at; ok (record { bytes = buf; pos = n + at })

  -- the accessors of a `[ubyte]` vector: one byte, and the number of them
  unfoldable pub vector_byte : ℕ → Table → ℕ → Result ℕ
  vector_byte slot tab j = do
    o ← offset tab slot
    if o == 0 then ok 0 else do a ← vector tab o; get_uint8 tab (a + j)

  unfoldable pub vector_length : ℕ → Table → Result ℕ
  vector_length slot tab = do o ← offset tab slot; if o == 0 then ok 0 else vector_len tab o

  -- `FlatbuffersEnvelope`
  unfoldable pub envelope_txid : Table → ℕ → Result ℕ
  envelope_txid = vector_byte 4

  unfoldable pub envelope_txid_length : Table → Result ℕ
  envelope_txid_length = vector_length 4

  unfoldable pub envelope_topic : Table → ℕ → Result ℕ
  envelope_topic = vector_byte 6

  unfoldable pub envelope_topic_length : Table → Result ℕ
  envelope_topic_length = vector_length 6

  unfoldable pub envelope_message_type : Table → Result ℕ
  envelope_message_type tab = do
    o ← offset tab 8
    if o == 0 then ok 0 else get_uint8 tab (o + tab.pos)

  -- `Message`: the table of the union, if the slot is set
  unfoldable pub envelope_message : Table → Result (Option Table)
  envelope_message tab = do
    o ← offset tab 10
    if o == 0 then ok none else do obj ← union tab o; ok (some obj)

  unfoldable pub envelope_message_id : Table → ℕ → Result ℕ
  envelope_message_id = vector_byte 12

  unfoldable pub envelope_message_id_length : Table → Result ℕ
  envelope_message_id_length = vector_length 12

  -- `FlatbuffersStream`
  unfoldable pub stream_created_at : Table → Result ℕ
  stream_created_at tab = do o ← offset tab 4; if o == 0 then ok 0 else get_uint32 tab (o + tab.pos)

  unfoldable pub stream_sender_id : Table → ℕ → Result ℕ
  stream_sender_id = vector_byte 6

  unfoldable pub stream_sender_id_length : Table → Result ℕ
  stream_sender_id_length = vector_length 6

  unfoldable pub stream_payload : Table → ℕ → Result ℕ
  stream_payload = vector_byte 8

  unfoldable pub stream_payload_length : Table → Result ℕ
  stream_payload_length = vector_length 8

  unfoldable pub stream_device_type : Table → ℕ → Result ℕ
  stream_device_type = vector_byte 10

  unfoldable pub stream_device_type_length : Table → Result ℕ
  stream_device_type_length = vector_length 10

  unfoldable pub stream_device_id : Table → ℕ → Result ℕ
  stream_device_id = vector_byte 12

  unfoldable pub stream_device_id_length : Table → Result ℕ
  stream_device_id_length = vector_length 12

  unfoldable pub stream_start : Builder → Builder
  stream_start b = start_object b 6

  unfoldable pub stream_add_created_at : Builder → ℕ → Builder
  stream_add_created_at b created_at = prepend_uint32_slot b 0 created_at 0

  unfoldable pub stream_add_sender_id : Builder → ℕ → Builder
  stream_add_sender_id b sender_id = prepend_uoffset_slot b 1 sender_id 0

  unfoldable pub stream_add_payload : Builder → ℕ → Builder
  stream_add_payload b payload = prepend_uoffset_slot b 2 payload 0

  unfoldable pub stream_add_device_type : Builder → ℕ → Builder
  stream_add_device_type b device_type = prepend_uoffset_slot b 3 device_type 0

  unfoldable pub stream_add_device_id : Builder → ℕ → Builder
  stream_add_device_id b device_id = prepend_uoffset_slot b 4 device_id 0

  unfoldable pub stream_end : Builder → ℕ × Builder
  stream_end b = end_object b

  -- `FlatbuffersStreamAck` has no fields.
  unfoldable pub stream_ack_start : Builder → Builder
  stream_ack_start b = start_object b 0

  unfoldable pub stream_ack_end : Builder → ℕ × Builder
  stream_ack_end b = end_object b

  unfoldable pub envelope_start : Builder → Builder
  envelope_start b = start_object b 5

  unfoldable pub envelope_add_txid : Builder → ℕ → Builder
  envelope_add_txid b txid = prepend_uoffset_slot b 0 txid 0

  unfoldable pub envelope_add_topic : Builder → ℕ → Builder
  envelope_add_topic b topic = prepend_uoffset_slot b 1 topic 0

  unfoldable pub envelope_add_message_type : Builder → ℕ → Builder
  envelope_add_message_type b message_type = prepend_uint8_slot b 2 message_type 0

  unfoldable pub envelope_add_message : Builder → ℕ → Builder
  envelope_add_message b message = prepend_uoffset_slot b 3 message 0

  unfoldable pub envelope_add_message_id : Builder → ℕ → Builder
  envelope_add_message_id b message_id = prepend_uoffset_slot b 4 message_id 0

  unfoldable pub envelope_end : Builder → ℕ × Builder
  envelope_end b = end_object b
