-- ===== src/Server/Raises.antt =====
-- What `parse_record` raises, against what `_process_frame` catches.
use python_fleet_telemetry.Prelude.{ℕ, ◌≡◌, inl, inr, true, Str, Bytes, arith}
use python_fleet_telemetry.Errors.{Error, raise, >>=-eq-raise, is_decode_error}
use python_fleet_telemetry.Protobuf.{Protobuf}
use python_fleet_telemetry.Records.Datetime.{fromtimestamp}
use python_fleet_telemetry.Records.{Topic, parse_message, parse_topic, parse_record}
use python_fleet_telemetry.Server.Frames.{unparsable}

fromtimestamp-raises : (t : ℕ) (e : Error) → fromtimestamp t ≡ raise e → unparsable e ≡ true
unfolding fromtimestamp
fromtimestamp-raises t e h = ground arith

module _ (pb : Protobuf) where
  -- The classes of messages raise nothing but `DecodeError` on the bytes they parse.
  abbrev pub ParsesOrDecodeError : Type 0
  ParsesOrDecodeError =
      (t : Topic) (b : Bytes) (e : Error)
      → parse_message pb t b ≡ raise e
      → is_decode_error e ≡ true

  parse_topic-raises : (b : Bytes) (e : Error) → parse_topic pb b ≡ raise e → unparsable e ≡ true
  unfolding parse_topic
  parse_topic-raises b e h = ground arith

  module _ (vin : Str) (txid payload : Bytes) (created_at : ℕ) where
    -- Whatever the topic, the time and the payload, an error of `parse_record` is one of the four
    -- classes that `_process_frame` catches, if the message classes raise only `DecodeError`.
    pub parse_record-raises :
        (topic : Bytes) (e : Error)
        → ParsesOrDecodeError
        → parse_record pb vin topic txid created_at payload ≡ raise e
        → unparsable e ≡ true
    unfolding parse_record
    parse_record-raises topic e lawful h = elim (>>=-eq-raise (parse_topic pb topic) _ h) [
      | inl bad_topic ↦ parse_topic-raises topic e bad_topic
      | inr (t, _, h') ↦ elim (>>=-eq-raise (parse_message pb t payload) _ h') [
        | inl bad_payload ↦ ground (arith, lawful t payload e bad_payload)
        | inr (m, _, h'') ↦ elim (>>=-eq-raise (fromtimestamp created_at) _ h'') [
          | inl bad_time ↦ fromtimestamp-raises created_at e bad_time
          | inr (at, _, h''') ↦ cc
        ]
      ]
    ]
