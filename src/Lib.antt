-- ===== src/Lib.antt =====
-- python-fleet-telemetry receives the telemetry of vehicles over mutual TLS, acknowledges each
-- frame, and hands its records to listeners and to asynchronous iterators.
--
-- How the parts interact. A vehicle connects; `_authorize` of fleet_telemetry/server.py reads its
-- VIN from the client certificate by fleet_telemetry/identity.py; `_connect` enters the connection
-- in a registry and dispatches a CONNECTED record. Each binary message is decoded by
-- fleet_telemetry/_envelope.py over fleet_telemetry/_flatbuffers/tesla_generated.py, acknowledged,
-- parsed by fleet_telemetry/records.py, and dispatched by fleet_telemetry/dispatch.py. At the end
-- of the session `_disconnect` takes the connection out and dispatches a DISCONNECTED record.
--
-- The certificates of the server come from fleet_telemetry/certs.py: `ensure` creates a CA and a
-- server certificate in a directory unless they are there, and `rotate_server_cert` renews the
-- latter. examples/end_to_end.py calls `ensure`, pushes the CA to the vehicle through the Fleet
-- API, polls until the vehicle has it, and serves; examples/basic.py only serves. Both then read
-- one stream of records until it ends or they are interrupted.
--
-- Which file models which part.
--   Prelude, Errors, Text: shared notation, dictionaries, exceptions as values (`Result`), UTF-8 with
--     `errors="replace"`, and decimal numerals. Text and bytes are lists of code points.
--   Protobuf, Flatbuffers, X509: the libraries that the code calls, as parameters. Flatbuffers/Laws
--     is what the runtime documents: a table is read as it was built.
--   Records: `Topic`, `Record`, `Record.fields` (`fields`), `parse_record`. Records/Datetime writes
--     out `datetime.fromtimestamp`; an aware datetime is its number of seconds.
--   Queue: `asyncio.Queue` without its waiting: `put_nowait`, `get_nowait`.
--   Dispatch: `Dispatcher` and `_RecordStream`. Dispatch/State holds listeners and registration
--     filters, Dispatch/Streams the streams (`anext`, `aclose`), `fan_out` (the first loop of
--     `dispatch`) and `close`, Dispatch/Loop the whole of `dispatch`, Dispatch/Consume the loop
--     `async for` of a consumer. Its other files are proofs.
--   Envelope: `message_type`, `decode`, `decode_ack`, `encode_ack`; Envelope/Bindings the generated
--     accessors and builders that are called, Envelope/Accessors the others. Its other files are
--     proofs; Envelope/Streams also says how a device writes a stream frame with those builders
--     (`written`). Identity: `identity_from_cert`.
--   Server: Server/State holds the state and `_authorize` (`authorize`), Server/Frames
--     `_handle_message` and `_process_frame`, Server/Sessions `_connect`, `_disconnect`, `_handle`,
--     `start` and `stop`, Server/Listeners the calls passed on to the dispatcher, Server/Watching the
--     end of an example: its loop and the two `__aexit__`. Its other files are proofs.
--   Text/Address, Text/Integer: `ipaddress.ip_address` and `int` of a text. Crypto: what
--     fleet_telemetry/certs.py calls of `cryptography`, as a parameter, and what is read back of it.
--   Certs: Certs/Disk holds the directory of a `ServerCredentials` with its four files, and the
--     calls of the operating system on it; Certs/Issue `_write_key`, `_write_cert`, `_create_ca`,
--     `_create_leaf` and what they call; Certs/Credentials `ensure`, `rotate_server_cert`,
--     `ca_certificate_pem`, `build_ssl_context`. Its other files are proofs.
--   EndToEnd: examples/end_to_end.py. EndToEnd/Settings holds `load_settings`, EndToEnd/Config
--     `build_config_body`, EndToEnd/Push `_push_config` and `_poll_until_synced`, EndToEnd/Run `_run`
--     up to its call of `_serve`, and `main`, EndToEnd/Serve `_serve`. Its other files are proofs.
--   Basic: examples/basic.py. Its other files are proofs.
--   Tests: runs at concrete data over small stand-ins for the libraries. That of Tests/Wire for the
--     FlatBuffers runtime meets the laws, in Tests/Wire/Laws.
--
-- State and steps. A method that changes an object takes its state and returns the new one. An
-- object that is compared by identity (a stream's queue, a connection) has a number. What runs
-- between the waits of a method is a parameter: a listener is a number, and a `World` says which
-- calls it makes on the dispatcher and how it ends; `Turn` and `Environment` say what other tasks
-- do to the server while a session waits for a message, for the upgrade or for the listeners of
-- its CONNECTED record, and what they call on the dispatcher while it waits for a send. How the
-- clean-up of the runner in `stop` ends and what it does to the server is a `Cleanup`. A `connect`
-- or a `disconnect` is a function from server to server; Server/Interleaving cuts it at its waits
-- into a step relation, in which steps of other sessions and tasks may stand between its own. The
-- loop over a stream takes, for each of its pulls, the calls that other tasks make on the
-- dispatcher before it; when those run out the task is cancelled. A pull that waits is taken up
-- again where it waits, without a second look at whether the stream has closed. What an example
-- prints is the list of the records.
--
-- A method of the certificates takes the directory and returns it with the result, so that what
-- was written before an error stays written. Each call of the operating system has a number, and a
-- `System` says which calls fail. Fresh keys, serial numbers and readings of the clock go by the
-- number of the draw; the answers of the Fleet API by the number of the attempt.
--
-- Bounds and fuel. Numbers are unbounded, as in Python; the wire's 32-bit time appears as a
-- hypothesis. The loop of `Dispatcher.close` runs on fuel, the length of the queue and two, which
-- is enough; the poll of the example on fuel, one more than the sleeps that cover the timeout,
-- which is enough; the decimal digits of `n` run on the fuel `n + 1`; all other loops are
-- structural.
--
-- Not modelled: logging; a write of the operating system that stops short without an error;
-- aiohttp, asyncio's scheduler and TLS themselves; the text of an exception, but for its class;
-- the rounding of a float; the generated protobuf modules; a frame over the size that a
-- FlatBuffers offset can reach, which the laws of the runtime leave out; a `print` that fails; the
-- command-line parser; a digit limit of `int` other than CPython's default.
pub mod Prelude
pub mod Errors
pub mod Text
pub mod Protobuf
pub mod Records
pub mod Queue
pub mod Dispatch
pub mod Flatbuffers
pub mod Envelope
pub mod X509
pub mod Crypto
pub mod Identity
pub mod Certs
pub mod EndToEnd
pub mod Basic
pub mod Server
pub mod Tests
