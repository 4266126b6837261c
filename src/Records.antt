-- ===== src/Records.antt =====
-- fleet_telemetry/records.py: topics, records, `Record.fields` and `parse_record`. The protobuf
-- messages (google.protobuf and the generated fleet_telemetry/proto) are the parameter `Protobuf`.

pub mod Datetime
pub mod Parse
pub mod Fields
use python_fleet_telemetry.Prelude.{
  ℕ, ◌≡◌, Option, none, some, List, [], ◌∷◌, ◌++◌, Str, Bytes, codes, ◌==◌, str_eq, if◌then◌else◌,
}
use python_fleet_telemetry.Prelude.Dict
use python_fleet_telemetry.Prelude.Dict.{Dict}
use python_fleet_telemetry.Errors.{Error, Result, ok, raise, value_error, assertion_error, ◌>>=◌}
use python_fleet_telemetry.Text.Utf8.{decode}
use python_fleet_telemetry.Text.Decimal.{ℤ, show}
use python_fleet_telemetry.Protobuf.{Protobuf}
use python_fleet_telemetry.Records.Datetime.{fromtimestamp}

-- `class Topic(StrEnum)`; DATA is `vehicle_data`
pub data Topic : Type 0 where
  vehicle_data alerts errors connectivity : Topic

-- the `str` that a topic is
abbrev pub topic_value : Topic → Str
topic_value vehicle_data = codes "V"
topic_value alerts = codes "alerts"
topic_value errors = codes "errors"
topic_value connectivity = codes "connectivity"

-- `Topic(s)`, `none` for its ValueError
unfoldable pub topic_of : Str → Option Topic
topic_of s =
    if s == topic_value vehicle_data
    then some vehicle_data
    else if s == topic_value alerts
    then some alerts
    else if s == topic_value errors
    then some errors
    else if s == topic_value connectivity
    then some connectivity
    else none

module _ (pb : Protobuf) where
  open pb use {
    Payload, VehicleAlerts, VehicleErrors, VehicleConnectivity, Datum, Value, Object, datums, key,
    value, field_name, which_oneof, get_attr,
  }

  pub data Message : Type 0 where
    payload_message : Payload → Message
    alerts_message : VehicleAlerts → Message
    errors_message : VehicleErrors → Message
    connectivity_message : VehicleConnectivity → Message

  pub record Record : Type 0 where
    pub vin : Str
    pub topic : Topic
    pub created_at : ℕ
    pub txid : Str
    pub message : Message
    pub raw : Bytes

  -- `name` of a datum: `Field_<int>` for a key that `Field` does not know
  unfoldable pub signal_name : ℤ → Str
  signal_name k = elim (field_name k) [ some name ↦ name | none ↦ codes "Field_" ++ show k ]

  unfoldable pub signal_value : Value → Option Object
  signal_value v = elim (which_oneof v) [ none ↦ none | some which ↦ some (get_attr v which) ]

  -- the loop over `message.data`
  unfoldable pub collect : Dict Str (Option Object) → List Datum → Dict Str (Option Object)
  unfolding signal_name signal_value
  collect result [] = result
  collect result (datum ∷ rest) =
      collect (Dict.put result (signal_name (key datum)) (signal_value (value datum))) rest

  unfoldable pub message_fields : Message → Result (Dict Str (Option Object))
  message_fields (payload_message m) = ok (collect [] (datums m))
  message_fields _ = raise assertion_error

  unfoldable pub topic_fields : Topic → Message → Result (Dict Str (Option Object))
  topic_fields vehicle_data m = message_fields m
  topic_fields _ m = ok []

  -- `Record.fields`
  unfoldable pub fields : Record → Result (Dict Str (Option Object))
  unfolding topic_fields message_fields
  fields self = topic_fields self.topic self.message

  -- `_PARSERS[topic]()` and `ParseFromString`
  unfoldable pub parse_message : Topic → Bytes → Result Message
  parse_message vehicle_data payload = do m ← pb.parse_payload payload; ok (payload_message m)
  parse_message alerts payload = do m ← pb.parse_alerts payload; ok (alerts_message m)
  parse_message errors payload = do m ← pb.parse_errors payload; ok (errors_message m)
  parse_message connectivity payload = do
    m ← pb.parse_connectivity payload
    ok (connectivity_message m)

  -- `Topic(topic.decode(errors="replace"))` under its `try`
  unfoldable pub parse_topic : Bytes → Result Topic
  parse_topic topic = elim (topic_of (decode topic)) [
    | some t ↦ ok t
    | none ↦ raise (value_error (codes "unknown topic"))
  ]

  unfoldable pub parse_record : Str → Bytes → Bytes → ℕ → Bytes → Result Record
  parse_record vin topic txid created_at payload = do
    topic_enum ← parse_topic topic
    message ← parse_message topic_enum payload
    at ← fromtimestamp created_at
    ok (record {
      vin = vin;
      topic = topic_enum;
      created_at = at;
      txid = decode txid;
      message = message;
      raw = payload;
    })
