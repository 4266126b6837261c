-- ===== src/Protobuf.antt =====
-- The protobuf runtime and the messages of fleet_telemetry/proto: what records.py and server.py
-- call of them.
use python_fleet_telemetry.Prelude.{Option, List, Str, Bytes}
use python_fleet_telemetry.Errors.{Result}
use python_fleet_telemetry.Text.Decimal.{ℤ}

-- vehicle_connectivity.proto
pub data ConnectivityEvent : Type 0 where
  unknown connected disconnected : ConnectivityEvent

pub record Protobuf : Type 1 where
  pub Payload : Type 0
  pub VehicleAlerts : Type 0
  pub VehicleErrors : Type 0
  pub VehicleConnectivity : Type 0
  -- `M().ParseFromString(payload)`, for each class of message
  pub parse_payload : Bytes → Result Payload
  pub parse_alerts : Bytes → Result VehicleAlerts
  pub parse_errors : Bytes → Result VehicleErrors
  pub parse_connectivity : Bytes → Result VehicleConnectivity
  -- `vc.VehicleConnectivity(vin=vin, status=status)`
  pub vehicle_connectivity : Str → ConnectivityEvent → VehicleConnectivity
  pub Datum : Type 0
  pub Value : Type 0
  pub Object : Type 0
  -- `message.data`, `datum.key`, `datum.value`
  pub datums : Payload → List Datum
  pub key : Datum → ℤ
  pub value : Datum → Value
  -- `vd.Field.Name(key)`, `none` for its ValueError
  pub field_name : ℤ → Option Str
  -- `value.WhichOneof("value")` and `getattr(value, which)`
  pub which_oneof : Value → Option Str
  pub get_attr : Value → Str → Object
