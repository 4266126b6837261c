-- ===== src/Tests/Framing.antt =====
-- Frames over a small runtime that meets the laws.
use python_fleet_telemetry.Prelude.{◌≡◌, arith, List, [], ◌∷◌}
use python_fleet_telemetry.Errors.{ok}
use python_fleet_telemetry.Envelope.{
  StreamFrame, encode_ack, decode_ack, decode, message_type, message_type_stream,
  message_type_stream_ack,
}
use python_fleet_telemetry.Envelope.Acks.{decode_ack-encode_ack}
use python_fleet_telemetry.Envelope.Streams.{Fits, written, decode-written}
use python_fleet_telemetry.Prelude.{Option, Str, Bytes, codes, refl, ◌≤◌, nat_eq}
use python_fleet_telemetry.Prelude.Lists.{length}
use python_fleet_telemetry.Prelude.Dict.{Dict, keys, values}
use python_fleet_telemetry.Errors.{Result, raise, value_error}
use python_fleet_telemetry.Text.Decimal.{pos}
use python_fleet_telemetry.Records.{Message, vehicle_data, payload_message, parse_message, fields}
use python_fleet_telemetry.Dispatch.State.{Dispatcher, init, unconstrained}
use python_fleet_telemetry.Dispatch.Loop.{Action, World, listen, perform_all}
use python_fleet_telemetry.Dispatch.Invariant.{IsWell, init-IsWell}
use python_fleet_telemetry.Dispatch.Reach.{perform_all-IsWell}
use python_fleet_telemetry.Dispatch.Isolation.{matching}
use python_fleet_telemetry.Server.Frames.{size_limit, binary, acks, dispatches, handle_message}
use python_fleet_telemetry.Server.Acks.{ack_of}
use python_fleet_telemetry.Prelude.{true, false}
use python_fleet_telemetry.Server.State.{Server}
use python_fleet_telemetry.Server.Sessions.{Turn, serve}
use python_fleet_telemetry.Server.Conversation.{Sends, next_frame, no_frames, serve-Frames}
use python_fleet_telemetry.Server.Delivered.{record_of, handle_message-written}
use python_fleet_telemetry.Envelope.Streams.{stream_table}
use python_fleet_telemetry.Envelope.Bindings.{
  stream_start, stream_add_created_at, stream_add_sender_id, stream_add_payload,
  stream_add_device_type, stream_add_device_id, stream_end, envelope_start, envelope_add_txid,
  envelope_add_topic, envelope_add_message_type, envelope_add_message, envelope_add_message_id,
  envelope_end,
}
use python_fleet_telemetry.Tests.Runtimes.{small_pb}
use python_fleet_telemetry.Tests.Wire.{wire_fb}
use python_fleet_telemetry.Tests.Wire.Laws.{wire_fb-IsLawful}

abbrev sent : StreamFrame
sent = record {
  topic = 86 ∷ [];
  txid = 1 ∷ 2 ∷ [];
  sender_id = 53 ∷ [];
  device_type = [];
  device_id = 255 ∷ [];
  payload = 7 ∷ 0 ∷ [];
  created_at = 1700000000;
  message_id = [];
}

sent-Fits : Fits sent
sent-Fits = record {
  topic_fits = (omega arith, tt);
  txid_fits = (omega arith, (omega arith, tt));
  sender_id_fits = (omega arith, tt);
  device_type_fits = tt;
  device_id_fits = (omega arith, tt);
  payload_fits = (omega arith, (omega arith, tt));
  created_at_fits = omega arith;
  message_id_fits = tt;
}

decode-written_example :
    (decode wire_fb (written wire_fb sent) ≡ ok sent)
    × (message_type wire_fb (written wire_fb sent) ≡ ok message_type_stream)
decode-written_example = decode-written wire_fb wire_fb-IsLawful sent sent-Fits

decode_ack-encode_ack_example :
    let frame = encode_ack wire_fb (116 ∷ []) (86 ∷ []) [] in
    (decode_ack wire_fb frame ≡ ok (record { topic = 86 ∷ []; txid = 116 ∷ []; message_id = [] }))
    × (message_type wire_fb frame ≡ ok message_type_stream_ack)
decode_ack-encode_ack_example =
    decode_ack-encode_ack wire_fb wire_fb-IsLawful (116 ∷ []) (86 ∷ []) [] (omega arith, tt)
      (omega arith, tt) tt

-- A server with no listener but one, which raises.
abbrev live : Dispatcher small_pb
live =
    perform_all small_pb (listen 10 unconstrained unconstrained unconstrained ∷ [])
      (init small_pb 2)

live-IsWell : IsWell small_pb live
live-IsWell =
    perform_all-IsWell small_pb (listen 10 unconstrained unconstrained unconstrained ∷ [])
      (init small_pb 2) (init-IsWell small_pb 2)

abbrev takes : Bytes → Result (Unit {0})
takes b = ok tt

-- another listener comes while the ack is sent
abbrev during : List (Action small_pb)
during = listen 11 unconstrained unconstrained unconstrained ∷ []

abbrev raising : World small_pb
raising n callback = record { actions = []; outcome = raise (value_error []) }

abbrev payload : Message small_pb
payload = payload_message ((pos 7, codes "v") ∷ (pos 0, codes "v") ∷ [])

payload_parsed : parse_message small_pb vehicle_data (7 ∷ 0 ∷ []) ≡ ok payload
unfolding parse_message nat_eq
payload_parsed = refl

sent_small : length (written wire_fb sent) ≤ size_limit
unfolding written stream_table nat_eq stream_start stream_add_created_at stream_add_sender_id
    stream_add_payload stream_add_device_type stream_add_device_id stream_end envelope_start
    envelope_add_txid envelope_add_topic envelope_add_message_type envelope_add_message
    envelope_add_message_id envelope_end
sent_small = omega arith

handle_message-written_example :
    let done =
      handle_message small_pb wire_fb takes during raising
        (codes "5YJ")
        (binary (written wire_fb sent))
        live in
    let ack = ack_of wire_fb sent in
    let r = record_of small_pb (codes "5YJ") sent vehicle_data payload in
    (fs : Dict Str (Option Str)) × (fields small_pb r ≡ ok fs)
    × (done.effects ≡ acks ack ∷ dispatches r ∷ [])
    × (decode_ack wire_fb ack
        ≡ ok (record { topic = codes "V"; txid = 1 ∷ 2 ∷ []; message_id = [] }))
    × (done.called
        ≡ matching small_pb (values (perform_all small_pb during live).registrations) r (keys fs))
    × (done.result ≡ ok tt)
handle_message-written_example =
    handle_message-written small_pb wire_fb wire_fb-IsLawful takes during raising (codes "5YJ") live
      sent vehicle_data payload live-IsWell sent-Fits refl payload_parsed sent_small refl
      (λ n callback. refl)

-- A session of two such frames.
abbrev turn : Turn small_pb
turn = record {
  meanwhile = λ s. s;
  message = binary (written wire_fb sent);
  send = takes;
  sending = during;
  world = raising;
}

turn-Sends : Sends small_pb wire_fb wire_fb-IsLawful (codes "5YJ") turn sent vehicle_data payload
turn-Sends = record {
  message_is = refl;
  fits = sent-Fits;
  topic_is = refl;
  parses = payload_parsed;
  small = sent_small;
  taken = refl;
  polite = λ n callback. refl;
  orderly = λ s w. w;
}

abbrev server : Server small_pb
server = record { dispatcher = live; connections = []; running = true; closed = false; made = 0 }

serve-Frames_example :
    let ack = encode_ack wire_fb (1 ∷ 2 ∷ []) (codes "V") [] in
    let r = record_of small_pb (codes "5YJ") sent vehicle_data payload in
    let served = serve small_pb wire_fb (codes "5YJ") (turn ∷ turn ∷ []) server in
    (served.effects ≡ acks ack ∷ dispatches r ∷ acks ack ∷ dispatches r ∷ [])
    × (served.result ≡ ok tt)
    × IsWell small_pb served.server.dispatcher
serve-Frames_example =
    serve-Frames small_pb wire_fb wire_fb-IsLawful (codes "5YJ") (turn ∷ turn ∷ []) _ server
      (next_frame sent vehicle_data payload turn-Sends
        (next_frame sent vehicle_data payload turn-Sends no_frames))
      live-IsWell
