-- ===== src/Tests/Printing.antt =====
-- `_serve` of examples/end_to_end.py at a concrete directory, and what holds of its server.
use python_fleet_telemetry.Prelude.{
  ◌≡◌, refl, true, false, nat_eq, str_eq, none, some, [], ◌∷◌, codes,
}
use python_fleet_telemetry.Errors.{ok}
use python_fleet_telemetry.Certs.Disk.{
  File, Disk, ca_cert_path, exists, mkdir, chmod_directory, call, inspect, result, try_finally,
  truncate, open_truncated, in_directory, write, close, chmod, read_bytes,
}
use python_fleet_telemetry.Certs.Disk
use python_fleet_telemetry.Certs.Credentials.{build_ssl_context, tesla_ca_bundle_path}
use python_fleet_telemetry.Certs.Works.{no_faults, files_of, file_of}
use python_fleet_telemetry.EndToEnd.Serve.{serve, serving_from, listening}
use python_fleet_telemetry.Prelude.Dict
use python_fleet_telemetry.Prelude.Dict.{values}
use python_fleet_telemetry.Dispatch.State
use python_fleet_telemetry.Dispatch.State.{
  on_data, on_connectivity, add_listener, normalize, init, add,
}
use python_fleet_telemetry.Server.State.{Server, new_server}
use python_fleet_telemetry.Server.Sessions.{start}
use python_fleet_telemetry.Server.Listeners.{
  through_dispatcher, server_on_data, server_on_connectivity, server_records,
}
use python_fleet_telemetry.Tests.Runtimes.{small_pb}
use python_fleet_telemetry.Tests.Certifying.{no_umask}

abbrev printing : Server small_pb
printing = record {
  dispatcher = record {
    queue_maxsize = 1000;
    registrations =
        (0, record { callback = 0; vins = none; topics = some (codes "V" ∷ []); fields = none })
        ∷ (
          1,
          record {
            callback = 1;
            vins = none;
            topics = some (codes "connectivity" ∷ []);
            fields = none;
          },
        )
        ∷ [];
    queues = 0 ∷ [];
    ids = 2;
    closed = false;
    streams = (0, record { closed = false; queue = record { maxsize = 1000; items = [] } }) ∷ [];
    made = 1;
  };
  connections = [];
  running = true;
  closed = false;
  made = 0;
}

abbrev server_disk : Disk
server_disk = record {
  directory = some 0o700;
  files =
      files_of none none (some (file_of (codes "cert") 0o644)) (some (file_of (codes "key") 0o600));
  calls = 0;
  drawn = 0;
}

printing_served :
    (serve small_pb
      (no_faults no_umask)
      (λ cert key. ok tt)
      (λ path. ok tt)
      (codes "/certs")
      (ok tt)
      (ok tt)
      server_disk).0
    ≡ ok (0, printing)
unfolding serve serving_from new_server start listening server_on_data server_on_connectivity
    through_dispatcher on_data on_connectivity add_listener normalize State.records server_records
    init add Dict.put nat_eq build_ssl_context tesla_ca_bundle_path Disk.◌>>=◌ call inspect result
    read_bytes
printing_served = refl
