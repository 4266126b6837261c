-- ===== src/Records/Fields.antt =====
-- `Record.fields`: what the dict of a record's signals holds.
use mathlib.Core.Path.{fun_ext}
use mathlib.Core.Option.{or_else}
use python_fleet_telemetry.Prelude.{
  Bool, Bytes, ℕ, ◌≡◌, ◌≢◌, refl, sym, ap, ◌∙◌, inl, inr, Option-cases, Option, none, some, List,
  [], ◌∷◌, ◌++◌, Str, codes, arith, ◌==◌, str_eq, if◌then◌else◌,
}
use python_fleet_telemetry.Prelude.Dict
use python_fleet_telemetry.Prelude.Dict.{Dict, get-put, NodupKeys, put-NodupKeys}
use python_fleet_telemetry.Errors.{ok, >>=-eq-ok}
use python_fleet_telemetry.Text.Decimal.{ℤ, int_eq, show, show-injective}
use python_fleet_telemetry.Protobuf.{Protobuf}
use python_fleet_telemetry.Records.Parse.{Parsed, parse_record-Parsed}
use python_fleet_telemetry.Records.{
  Topic, vehicle_data, alerts, errors, connectivity, Message, payload_message, alerts_message,
  errors_message, connectivity_message, Record, signal_name, signal_value, collect, topic_fields,
  message_fields, parse_message, parse_record, fields,
}

or_else-none {ℓ} : {A : Type ℓ} (o : Option A) → or_else o none ≡ o
unfolding or_else
or_else-none none = refl
or_else-none (some a) = refl

module _ (pb : Protobuf) where
  open pb use {Payload, Datum, Object, datums, key, value, field_name}

  -- The value of the last datum that passes a test, `none` if there is none.
  abbrev pub last_value : (Datum → Bool) → List Datum → Option (Option Object)
  last_value test [] = none
  last_value test (d ∷ rest) =
      or_else (last_value test rest) (if test d then some (signal_value pb (value d)) else none)

  collect-get :
      (ds : List Datum) (result : Dict Str (Option Object)) (name : Str)
      → Dict.get (collect pb result ds) name
        ≡ or_else (last_value (λ d. name == signal_name pb (key d)) ds) (Dict.get result name)
  unfolding collect or_else
  collect-get [] result name = refl
  collect-get (d ∷ ds) result name =
      collect-get ds (Dict.put result (signal_name pb (key d)) (signal_value pb (value d))) name
      ∙ rw get-put (ground arith)

  collect-NodupKeys :
      (ds : List Datum) (result : Dict Str (Option Object))
      → NodupKeys result
      → NodupKeys (collect pb result ds)
  unfolding collect
  collect-NodupKeys [] result h = h
  collect-NodupKeys (d ∷ ds) result h =
      collect-NodupKeys ds _
        (put-NodupKeys result (signal_name pb (key d)) (signal_value pb (value d)) h)

  -- The data of a DATA record; other records have none.
  abbrev pub message_signals : Message pb → List Datum
  message_signals (payload_message m) = datums m
  message_signals _ = []

  abbrev pub topic_signals : Topic → Message pb → List Datum
  topic_signals vehicle_data m = message_signals m
  topic_signals _ m = []

  abbrev pub signals : Record pb → List Datum
  signals r = topic_signals r.topic r.message

  -- The message is of the class that belongs to the topic.
  abbrev pub Fits : Topic → Message pb → Type 0
  Fits vehicle_data m = (p : Payload) × (m ≡ payload_message p)
  Fits _ m = Unit

  parse_message-Fits :
      (t : Topic) (payload : Bytes) (m : Message pb) → parse_message pb t payload ≡ ok m → Fits t m
  unfolding parse_message
  parse_message-Fits vehicle_data payload m h =
      let (p, _, e) = >>=-eq-ok (pb.parse_payload payload) _ h in (p, ground arith)
  parse_message-Fits alerts payload m h = tt
  parse_message-Fits errors payload m h = tt
  parse_message-Fits connectivity payload m h = tt

  topic_fields-Fits :
      (t : Topic) (m : Message pb)
      → Fits t m
      → topic_fields pb t m ≡ ok (collect pb [] (topic_signals t m))
  unfolding topic_fields message_fields collect
  topic_fields-Fits vehicle_data (payload_message p) h = refl
  topic_fields-Fits vehicle_data (alerts_message m) (p, e) = cc
  topic_fields-Fits vehicle_data (errors_message m) (p, e) = cc
  topic_fields-Fits vehicle_data (connectivity_message m) (p, e) = cc
  topic_fields-Fits alerts m h = refl
  topic_fields-Fits errors m h = refl
  topic_fields-Fits connectivity m h = refl

  pub fields-Fits :
      (r : Record pb) → Fits r.topic r.message → fields pb r ≡ ok (collect pb [] (signals r))
  unfolding fields
  fields-Fits r h = topic_fields-Fits r.topic r.message h

  -- The fields of a record that `parse_record` returns are computed without an error. Each name is
  -- a key once, and it holds the value of the last datum of that name; other names are no keys.
  pub fields-parse_record :
      (vin : Str) (topic txid : Bytes) (created_at : ℕ) (payload : Bytes) (r : Record pb)
      → parse_record pb vin topic txid created_at payload ≡ ok r
      → (d : Dict Str (Option Object)) × (fields pb r ≡ ok d)
        × NodupKeys d
        × ((name : Str)
            → Dict.get d name ≡ last_value (λ x. name == signal_name pb (key x)) (signals r))
  unfolding Dict.get or_else
  fields-parse_record vin topic txid created_at payload r h =
      let p : Parsed pb vin topic txid created_at payload r =
        parse_record-Parsed pb vin topic txid created_at payload r h in
      (
        collect pb [] (signals r),
        fields-Fits r (parse_message-Fits r.topic payload r.message p.message_parsed),
        collect-NodupKeys (signals r) [] tt,
        λ name. collect-get (signals r) [] name ∙ or_else-none _,
      )

  module _ (k : ℤ) (unknown : field_name k ≡ none)
      (apart : (j : ℤ) (name : Str)
        → field_name j ≡ some name
        → name ≢ codes "Field_" ++ show k) where
    signal_name-eq_iff : (j : ℤ) → (signal_name pb k == signal_name pb j) ≡ (k == j)
    unfolding signal_name
    signal_name-eq_iff j = elim (Option-cases (field_name j)) [
      | inl e ↦ ground (arith, show-injective k j)
      | inr (n, e) ↦ ground (arith, apart j n e)
    ]

    -- Under the synthetic name of a key that `Field` does not know stands the value of the last
    -- datum of that key, in any parsed record, if no field of `Field` has that name: two unknown
    -- keys never share a name.
    pub fields-get_unknown :
        (vin : Str) (topic txid : Bytes) (created_at : ℕ) (payload : Bytes) (r : Record pb)
        → parse_record pb vin topic txid created_at payload ≡ ok r
        → (d : Dict Str (Option Object)) × (fields pb r ≡ ok d)
          × (Dict.get d (codes "Field_" ++ show k) ≡ last_value (λ x. k == key x) (signals r))
    unfolding signal_name
    fields-get_unknown vin topic txid created_at payload r h =
        let (d, e, _, at) = fields-parse_record vin topic txid created_at payload r h in
        let name : signal_name pb k ≡ codes "Field_" ++ show k = rw (unknown, signal_name) in
        (
          d,
          e,
          ap (Dict.get d) (sym name)
              ∙ at (signal_name pb k)
              ∙ ap (λ f. last_value f (signals r)) (fun_ext (λ x. signal_name-eq_iff (key x))),
        )
