-- ===== src/Records/Parse.antt =====
-- `parse_record`: which frames become records, and what a record holds.
use python_fleet_telemetry.Prelude.{
  ℕ, ◌≤◌, ◌≡◌, ◌≢◌, refl, ap, ◌∙◌, some, inl, inr, Option-cases, Str, Bytes, codes, arith, str_eq,
}
use python_fleet_telemetry.Prelude.Lists.{All}
use python_fleet_telemetry.Errors.{ok, raise, value_error, ◌>>=◌, >>=-eq-ok}
use python_fleet_telemetry.Text.Utf8.{decode}
use python_fleet_telemetry.Text.Ascii.{IsAscii, decode-eq_ascii}
use python_fleet_telemetry.Protobuf.{Protobuf}
use python_fleet_telemetry.Records.Datetime.{fromtimestamp, fromtimestamp_u32}
use python_fleet_telemetry.Records.{
  Topic, vehicle_data, alerts, errors, connectivity, topic_value, topic_of, Record, parse_message,
  parse_topic, parse_record,
}

topic_value-IsAscii : (t : Topic) → All IsAscii (topic_value t)
topic_value-IsAscii vehicle_data = omega arith
topic_value-IsAscii alerts = omega arith
topic_value-IsAscii errors = omega arith
topic_value-IsAscii connectivity = omega arith

topic_of-topic_value : (t : Topic) → topic_of (topic_value t) ≡ some t
unfolding topic_of str_eq
topic_of-topic_value vehicle_data = refl
topic_of-topic_value alerts = refl
topic_of-topic_value errors = refl
topic_of-topic_value connectivity = refl

topic_of-some : (s : Str) (t : Topic) → topic_of s ≡ some t → s ≡ topic_value t
unfolding topic_of
topic_of-some s t h = ground arith

parse_topic-topic_value : (pb : Protobuf) (t : Topic) → parse_topic pb (topic_value t) ≡ ok t
unfolding parse_topic
parse_topic-topic_value pb t =
    rw
      (
        (decode-eq_ascii (topic_value t) (topic_value t) (topic_value-IsAscii t)).1 refl,
        parse_topic,
      )
      (rw (topic_of-topic_value, parse_topic))

parse_topic_ok :
    (pb : Protobuf) (b : Bytes) (t : Topic) → parse_topic pb b ≡ ok t → b ≡ topic_value t
unfolding parse_topic
parse_topic_ok pb b t h =
    (decode-eq_ascii (topic_value t) b (topic_value-IsAscii t)).0
      (topic_of-some (decode b) t (ground arith))

parse_topic_none :
    (pb : Protobuf) (b : Bytes)
    → ((t : Topic) → b ≢ topic_value t)
    → parse_topic pb b ≡ raise (value_error (codes "unknown topic"))
unfolding parse_topic
parse_topic_none pb b h = elim (Option-cases (topic_of (decode b))) [
  | inl e ↦ rw (e, parse_topic)
  | inr (t, e) ↦ absurd (h t (parse_topic_ok pb b t (rw (e, parse_topic))))
]

module _ (pb : Protobuf) (vin : Str) (topic txid : Bytes) (created_at : ℕ) (payload : Bytes) where
  -- A record is parsed only from the exact bytes of its topic, and its message is what the class
  -- of that topic parsed; vin, raw, time and txid are the frame's.
  pub record Parsed (r : Record pb) : Type 0 where
    pub topic_bytes : topic ≡ topic_value r.topic
    pub message_parsed : parse_message pb r.topic payload ≡ ok r.message
    pub time_parsed : fromtimestamp created_at ≡ ok r.created_at
    pub vin_kept : r.vin ≡ vin
    pub raw_kept : r.raw ≡ payload
    pub txid_decoded : r.txid ≡ decode txid

  pub parse_record-Parsed :
      (r : Record pb) → parse_record pb vin topic txid created_at payload ≡ ok r → Parsed r
  unfolding parse_record
  parse_record-Parsed r h =
      let (t, et, h') = >>=-eq-ok (parse_topic pb topic) _ h in
      let (m, em, h'') = >>=-eq-ok (parse_message pb t payload) _ h' in
      let (at, ea, e) = >>=-eq-ok (fromtimestamp created_at) _ h'' in
      record {
        topic_bytes = ground (arith, parse_topic_ok pb topic t et);
        message_parsed = ground arith;
        time_parsed = ground arith;
        vin_kept = ground arith;
        raw_kept = ground arith;
        txid_decoded = ground arith;
      }

  pub Parsed-parse_record :
      (r : Record pb) → Parsed r → parse_record pb vin topic txid created_at payload ≡ ok r
  unfolding parse_record
  Parsed-parse_record r h =
      let et : parse_topic pb topic ≡ ok r.topic =
        ap (parse_topic pb) h.topic_bytes ∙ parse_topic-topic_value pb r.topic in
      ground arith

module _ (pb : Protobuf) (vin : Str) (txid payload : Bytes) (created_at : ℕ) where
  -- A topic that is not one of the four, byte for byte, raises the `ValueError` for it, whatever
  -- the time and the payload are.
  pub parse_record_unknown_topic :
      (topic : Bytes)
      → ((t : Topic) → topic ≢ topic_value t)
      → parse_record pb vin topic txid created_at payload
        ≡ raise (value_error (codes "unknown topic"))
  unfolding parse_record
  parse_record_unknown_topic topic h = rw (parse_topic_none pb topic h, parse_record)

  -- With one of the four topics and a time of 32 bits, as the wire has it, the record is parsed
  -- exactly if its message is, and otherwise the message's error is raised.
  pub parse_record_topic :
      (t : Topic)
      → created_at ≤ 4294967295
      → parse_record pb vin (topic_value t) txid created_at payload ≡ (
          parse_message pb t payload >>= λ m. ok (record {
            vin = vin;
            topic = t;
            created_at = created_at;
            txid = decode txid;
            message = m;
            raw = payload;
          }))
  unfolding parse_record
  parse_record_topic t h =
      rw (parse_topic-topic_value pb t) (rw (fromtimestamp_u32 created_at h) refl)
