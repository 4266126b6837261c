-- ===== src/Tests/Runtimes.antt =====
-- Small stand-ins for the protobuf, FlatBuffers and X.509 libraries, for the tests.
use python_fleet_telemetry.Prelude.{
  ℕ, zero, suc, ◌+◌, Option, none, some, List, [], ◌∷◌, ◌++◌, Str, Bytes, codes, contains, ◌==◌,
  nat_eq, if◌then◌else◌,
}
use python_fleet_telemetry.Prelude.Lists.{length}
use python_fleet_telemetry.Errors.{Result, ok, raise, ◌>>=◌, decode_error, value_error, other}
use python_fleet_telemetry.Text.Decimal.{ℤ, pos, negsuc}
use python_fleet_telemetry.Protobuf.{Protobuf}
use python_fleet_telemetry.Flatbuffers.{Flatbuffers}
use python_fleet_telemetry.X509.{X509}

-- Each byte is a datum, the key of which is the byte; 255 is malformed.
abbrev data_of : Bytes → List (ℤ × Str)
data_of [] = []
data_of (b ∷ bs) = (pos b, codes "v") ∷ data_of bs

abbrev pub parse_bytes : Bytes → Result Bytes
parse_bytes b = if contains b 255 then raise decode_error else ok b

abbrev pub parse_data : Bytes → Result (List (ℤ × Str))
parse_data b = if contains b 255 then raise decode_error else ok (data_of b)

abbrev field_names : ℤ → Option Str
field_names (pos n) =
    if n == 1 then some (codes "VehicleSpeed") else if n == 4 then some (codes "Soc") else none
field_names (negsuc n) = none

abbrev pub small_pb : Protobuf
small_pb = record {
  Payload = List (ℤ × Str);
  VehicleAlerts = Bytes;
  VehicleErrors = Bytes;
  VehicleConnectivity = Bytes;
  parse_payload = parse_data;
  parse_alerts = parse_bytes;
  parse_errors = parse_bytes;
  parse_connectivity = parse_bytes;
  vehicle_connectivity = λ vin status. vin;
  Datum = ℤ × Str;
  Value = Str;
  Object = Str;
  datums = λ m. m;
  key = λ d. d.0;
  value = λ d. d.1;
  field_name = field_names;
  which_oneof = λ v. some (codes "string_value");
  get_attr = λ v which. v;
}

-- A byte of a frame; past the end, `struct.error`.
abbrev byte_at : Bytes → ℕ → Result ℕ
byte_at [] i = raise (other 0)
byte_at (b ∷ bs) zero = ok b
byte_at (b ∷ bs) (suc i) = byte_at bs i

-- Fixed slots of one byte each: the slot is the offset, and the union starts at byte 12.
abbrev pub small_fb : Flatbuffers
small_fb = record {
  get_uoffset = λ b at. byte_at b at >>= λ n. ok 0;
  offset = λ t slot. ok slot;
  get_uint8 = λ t at. byte_at t.bytes at;
  get_uint32 = λ t at. byte_at t.bytes at;
  get_uint64 = λ t at. byte_at t.bytes at;
  vector = λ t o. ok (t.pos + o);
  vector_len = λ t o. ok 1;
  get_vector_as_numpy = λ t o. ok [];
  union = λ t o. ok (record { bytes = t.bytes; pos = 12 });
  Builder = Bytes;
  builder = λ n. [];
  create_byte_vector = λ b v. (length b, b ++ v);
  start_vector = λ b size n align. (length b, b);
  start_object = λ b n. b;
  prepend_uoffset_slot = λ b slot x default. b ++ (x ∷ []);
  prepend_uint8_slot = λ b slot x default. b ++ (x ∷ []);
  prepend_uint32_slot = λ b slot x default. b ++ (x ∷ []);
  prepend_uint64_slot = λ b slot x default. b ++ (x ∷ []);
  end_object = λ b. (length b, b);
  finish = λ b at. b;
  output = λ b. b;
}

-- A certificate is its first Common Names, of the subject and of the issuer.
abbrev pub small_x509 : X509
small_x509 = record {
  Certificate = Str × Str;
  Name = Str;
  load_der = λ b. elim b [
    | [] ↦ raise (value_error (codes "malformed"))
    | c ∷ cs ↦ ok (cs, codes "TeslaMotors")
  ];
  subject = λ c. c.0;
  issuer = λ c. c.1;
  common_names = λ n. n ∷ [];
}

-- a frame with the given tag, topic byte, time and payload byte
abbrev pub frame_of : ℕ → ℕ → ℕ → ℕ → Bytes
frame_of tag topic at payload =
    0 ∷ 0 ∷ 0 ∷ 0 ∷ 7 ∷ 0 ∷ topic ∷ 0 ∷ tag ∷ 0 ∷ 0 ∷ 0 ∷ 9 ∷ 0 ∷ 0 ∷ 0 ∷ at ∷ 0 ∷ 5 ∷ 0 ∷ payload
    ∷ 0 ∷ 6 ∷ 0 ∷ 8 ∷ []
