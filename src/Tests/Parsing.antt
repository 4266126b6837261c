-- ===== src/Tests/Parsing.antt =====
-- Frames, records and certificates at concrete bytes.
use python_fleet_telemetry.Prelude.{
  ◌≡◌, ◌≢◌, refl, Option, some, [], ◌∷◌, ◌++◌, Str, codes, arith, ◌==◌, nat_eq, str_eq,
  if◌then◌else◌,
}
use python_fleet_telemetry.Prelude.Dict
use python_fleet_telemetry.Prelude.Dict.{Dict, NodupKeys}
use python_fleet_telemetry.Errors.{ok, raise, decode_error, unauthorized_certificate}
use python_fleet_telemetry.Text.Utf8
use python_fleet_telemetry.Text.Utf8.{replace}
use python_fleet_telemetry.Text.Decimal.{ℤ, pos, negsuc, int_eq, show}
use python_fleet_telemetry.Records.{
  vehicle_data, alerts, errors, connectivity, topic_of, parse_topic, Record, payload_message,
  parse_message, parse_record, fields, signal_name,
}
use python_fleet_telemetry.Records.Datetime.{fromtimestamp}
use python_fleet_telemetry.Records.Fields.{last_value, signals, fields-parse_record}
use python_fleet_telemetry.Envelope.{
  StreamFrame, AckFrame, only_envelope_error, root, tagged_frame, union_frame, stream_frame,
  read_vector, message_type, decode, decode_ack,
}
use python_fleet_telemetry.Envelope.Bindings.{
  get_root_as, envelope_message_type, envelope_message, vector_byte, vector_length, envelope_topic,
  envelope_topic_length, envelope_txid, envelope_txid_length, envelope_message_id,
  envelope_message_id_length, stream_created_at, stream_sender_id, stream_sender_id_length,
  stream_device_type, stream_device_type_length, stream_device_id, stream_device_id_length,
  stream_payload, stream_payload_length,
}
use python_fleet_telemetry.Envelope.Tags.{IsGuarded, decode-IsGuarded}
use python_fleet_telemetry.Identity.{
  Identity, known_issuers, known_oid_issuers, first_or_empty, common_name, identity_from_cert,
}
use python_fleet_telemetry.Identity.Issuers.{recognized, identity_from_cert-recognized}
use python_fleet_telemetry.Server.Raises.{ParsesOrDecodeError}
use python_fleet_telemetry.Tests.Runtimes.{small_pb, small_fb, small_x509, frame_of}

-- the record of a payload of a known key, an unknown one and the unknown one again
abbrev parsed : Record small_pb
parsed = record {
  vin = codes "5YJ";
  topic = vehicle_data;
  created_at = 1700000000;
  txid = codes "t";
  message = payload_message ((pos 4, codes "v") ∷ (pos 200, codes "v") ∷ (pos 200, codes "v") ∷ []);
  raw = 4 ∷ 200 ∷ 200 ∷ [];
}

parsed_from :
    parse_record small_pb (codes "5YJ") (codes "V") (codes "t") 1700000000 (4 ∷ 200 ∷ 200 ∷ [])
    ≡ ok parsed
unfolding parse_record parse_topic topic_of Utf8.decode Utf8.replace parse_message fromtimestamp
    str_eq nat_eq
parsed_from = refl

fields-parse_record_example :
    (d : Dict Str (Option Str)) × (fields small_pb parsed ≡ ok d)
    × NodupKeys d
    × ((name : Str)
        → Dict.get d name
          ≡ last_value small_pb (λ x. name == signal_name small_pb (x.0)) (signals small_pb parsed))
fields-parse_record_example =
    fields-parse_record small_pb (codes "5YJ") (codes "V") (codes "t") 1700000000
      (4 ∷ 200 ∷ 200 ∷ []) parsed parsed_from

apart :
    (j : ℤ) (name : Str)
    → small_pb.field_name j ≡ some name
    → name ≢ codes "Field_" ++ show (pos 200)
unfolding show
apart (pos n) name h = ground arith
apart (negsuc n) name h = ground arith

pub small_pb_parses : ParsesOrDecodeError small_pb
unfolding parse_message
small_pb_parses vehicle_data b e h = ground arith
small_pb_parses alerts b e h = ground arith
small_pb_parses errors b e h = ground arith
small_pb_parses connectivity b e h = ground arith

bad_payload : parse_record small_pb (codes "5YJ") (codes "V") [] 0 (255 ∷ []) ≡ raise decode_error
unfolding parse_record parse_topic topic_of Utf8.decode Utf8.replace parse_message fromtimestamp
    str_eq nat_eq
bad_payload = refl

-- A stream frame, an ack and a frame that is cut off.
decode-IsGuarded_example :
    IsGuarded (message_type small_fb (1 ∷ []))
    × IsGuarded (decode small_fb (1 ∷ []))
    × IsGuarded (decode_ack small_fb (1 ∷ []))
decode-IsGuarded_example = decode-IsGuarded small_fb (1 ∷ [])

abbrev pub stream : StreamFrame
stream = record {
  topic = b'V' ∷ [];
  txid = 7 ∷ [];
  sender_id = 5 ∷ [];
  device_type = 6 ∷ [];
  device_id = 8 ∷ [];
  payload = 4 ∷ [];
  created_at = 3;
  message_id = 9 ∷ [];
}

pub stream_decoded : decode small_fb (frame_of 4 b'V' 3 4) ≡ ok stream
unfolding decode only_envelope_error root get_root_as envelope_message_type nat_eq tagged_frame
    envelope_message union_frame stream_frame read_vector vector_byte vector_length envelope_topic
    envelope_topic_length envelope_txid envelope_txid_length envelope_message_id
    envelope_message_id_length stream_created_at stream_sender_id stream_sender_id_length
    stream_device_type stream_device_type_length stream_device_id stream_device_id_length
    stream_payload stream_payload_length
stream_decoded = refl

ack_tagged : message_type small_fb (frame_of 5 b'V' 3 4) ≡ ok 5
unfolding message_type only_envelope_error root get_root_as envelope_message_type nat_eq
ack_tagged = refl

abbrev ack : AckFrame
ack = record { topic = b'V' ∷ []; txid = 7 ∷ []; message_id = 9 ∷ [] }

identity_from_cert-recognized_example :
    identity_from_cert small_x509 (codes "5YJ.1", codes "TeslaMotors") ≡ (
      if recognized (common_name small_x509 (codes "TeslaMotors"))
      then ok (record {
        vin = replace b'.' b'-' (common_name small_x509 (codes "5YJ.1"));
        client_type = codes "vehicle_device";
      })
      else raise (unauthorized_certificate (common_name small_x509 (codes "TeslaMotors"))))
identity_from_cert-recognized_example =
    identity_from_cert-recognized small_x509 (codes "5YJ.1", codes "TeslaMotors")

abbrev identity : Identity
identity = record { vin = codes "5YJ-1"; client_type = codes "vehicle_device" }

identified : identity_from_cert small_x509 (codes "5YJ.1", codes "TeslaMotors") ≡ ok identity
unfolding identity_from_cert known_oid_issuers str_eq common_name first_or_empty Dict.get
    known_issuers replace nat_eq
identified = refl
