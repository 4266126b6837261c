-- ===== src/Server/Frames.antt =====
-- fleet_telemetry/server.py: `_handle_message` and `_process_frame`.
use python_fleet_telemetry.Prelude.{
  ℕ, Bool, ◌||◌, List, [], ◌∷◌, ◌++◌, Str, Bytes, ltb, if◌then◌else◌,
}
use python_fleet_telemetry.Prelude.Lists.{length}
use python_fleet_telemetry.Errors.{
  Error, Result, ok, raise, is_envelope_error, is_connection_error, is_value_error, is_decode_error,
  is_os_error, is_overflow_error,
}
use python_fleet_telemetry.Protobuf.{Protobuf}
use python_fleet_telemetry.Flatbuffers.{Flatbuffers}
use python_fleet_telemetry.Records.{Record, parse_record}
use python_fleet_telemetry.Envelope
use python_fleet_telemetry.Envelope.{StreamFrame}
use python_fleet_telemetry.Dispatch.State.{Dispatcher}
use python_fleet_telemetry.Dispatch.Loop.{Action, perform_all, World, dispatch}

abbrev pub size_limit : ℕ
size_limit = 1_000_000

-- `WSMsgType`, as far as it is told apart
pub data Message : Type 0 where
  binary : Bytes → Message
  other_message : Message

-- `except (ValueError, DecodeError, OSError, OverflowError)`
abbrev pub unparsable : Error → Bool
unparsable e = is_value_error e || is_decode_error e || is_os_error e || is_overflow_error e

module _ (pb : Protobuf) where
  -- What a frame does to the outside, in order.
  pub data Effect : Type 0 where
    acks : Bytes → Effect
    dispatches : Record pb → Effect

  -- Its effects, the listeners that were called, how it ends and the dispatcher that is left.
  pub record Processed : Type 0 where
    pub effects : List Effect
    pub called : List ℕ
    pub result : Result (Unit {0})
    pub dispatcher : Dispatcher pb

  -- the end without a dispatch
  unfoldable pub ends : List Effect → Result (Unit {0}) → Dispatcher pb → Processed
  ends effects result d = record { effects = effects; called = []; result = result; dispatcher = d }

  unfoldable pub hand_on : World pb → List Effect → Record pb → Dispatcher pb → Processed
  hand_on world before r d =
      let run = dispatch pb world r d in
      record {
        effects = before ++ (dispatches r ∷ []);
        called = run.called;
        result = run.result;
        dispatcher = run.state;
      }

  unfoldable pub after_parse :
      World pb → List Effect → Result (Record pb) → Dispatcher pb → Processed
  after_parse world before (ok r) d = hand_on world before r d
  after_parse world before (raise e) d =
      if unparsable e then ends before (ok tt) d else ends before (raise e) d

  -- `send` is the outcome of `ws.send_bytes`.
  unfoldable pub after_send :
      World pb → Str → StreamFrame → Bytes → Result (Unit {0}) → Dispatcher pb → Processed
  after_send world vin frame ack (ok _) d =
      after_parse world (acks ack ∷ [])
        (parse_record pb vin frame.topic frame.txid frame.created_at frame.payload) d
  after_send world vin frame ack (raise e) d =
      if is_connection_error e then ends [] (ok tt) d else ends [] (raise e) d

  -- `send` is how `ws.send_bytes` ends, `sending` what other tasks call on the dispatcher
  -- meanwhile.
  module _ (fb : Flatbuffers) (send : Bytes → Result (Unit {0})) (sending : List (Action pb)) where
    unfoldable pub after_decode : World pb → Str → Result StreamFrame → Dispatcher pb → Processed
    after_decode world vin (raise e) d =
        if is_envelope_error e then ends [] (ok tt) d else ends [] (raise e) d
    after_decode world vin (ok frame) d =
        let ack = Envelope.encode_ack fb frame.txid frame.topic frame.message_id in
        after_send world vin frame ack (send ack) (perform_all pb sending d)

    -- `_process_frame`
    unfoldable pub process_frame : World pb → Str → Bytes → Dispatcher pb → Processed
    process_frame world vin frame d = after_decode world vin (Envelope.decode fb frame) d

    -- `_handle_message`
    unfoldable pub handle_message : World pb → Str → Message → Dispatcher pb → Processed
    handle_message world vin other_message d = ends [] (ok tt) d
    handle_message world vin (binary bytes) d =
        if ltb size_limit (length bytes) then ends [] (ok tt) d else process_frame world vin bytes d
