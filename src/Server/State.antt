-- ===== src/Server/State.antt =====
-- fleet_telemetry/server.py: the state of a `TelemetryServer`, and who may open a session. The HTTP
-- and WebSocket layer (aiohttp) and the TLS session are inputs: what a request shows of them.
use python_fleet_telemetry.Prelude.{
  ℕ, Bool, false, Option, none, some, [], ◌∷◌, Str, Bytes, codes, contains, ◌==◌, str_eq,
  if◌then◌else◌,
}
use python_fleet_telemetry.Prelude.Dict.{Dict, keys}
use python_fleet_telemetry.Errors.{Result, ok, raise, value_error, unauthorized_certificate, ◌>>=◌}
use python_fleet_telemetry.Protobuf.{Protobuf}
use python_fleet_telemetry.X509.{X509}
use python_fleet_telemetry.Identity.{Identity, identity_from_cert}
use python_fleet_telemetry.Dispatch.State.{Dispatcher, init}

-- `Connection`; objects are told apart by `ident`, which stands for `is`.
pub record Connection : Type 0 where
  pub ident : ℕ
  pub vin : Str
  pub connected_at : ℕ
  pub peer : Str
  pub client_version : Option Str

module _ (pb : Protobuf) where
  -- `made` is the number of connections made so far, the `ident` of the next.
  pub record Server : Type 0 where
    pub dispatcher : Dispatcher pb
    pub connections : Dict Str Connection
    pub running : Bool
    pub closed : Bool
    pub made : ℕ

  -- `__init__`: `required` says that `verify_mode` is `CERT_REQUIRED`
  unfoldable pub new_server : Bool → ℕ → Result Server
  new_server required queue_maxsize =
      if required
      then ok (record {
        dispatcher = init pb queue_maxsize;
        connections = [];
        running = false;
        closed = false;
        made = 0;
      })
      else raise
          (value_error (codes "ssl_context must set verify_mode = ssl.CERT_REQUIRED for mTLS"))

  -- `is_connected`
  unfoldable pub is_connected : Server → Str → Bool
  is_connected s vin = contains (keys s.connections) vin

-- What `_handle` reads of a request: the transport, its TLS session, the peer's certificate in DER
-- form, the remote address and the `Version` header.
pub record Request : Type 0 where
  pub has_transport : Bool
  pub has_ssl_object : Bool
  pub der : Option Bytes
  pub remote : Option Str
  pub version : Option Str

pub data Authorization : Type 0 where
  authorized : Str → Authorization
  rejected : ℕ → Str → Authorization

-- `if not der`
unfoldable pub present : Option Bytes → Option Bytes
present none = none
present (some []) = none
present (some (b ∷ bs)) = some (b ∷ bs)

-- `except UnauthorizedCertificate`, and the test of the VIN
unfoldable pub admit : Result Identity → Result Authorization
admit (ok identity) =
    if identity.vin == []
    then ok (rejected 496 (codes "client certificate has no VIN"))
    else ok (authorized identity.vin)
admit (raise (unauthorized_certificate issuer_cn)) = ok (rejected 496 issuer_cn)
admit (raise e) = raise e

module _ (x509 : X509) where
  unfoldable pub check_cert : Option Bytes → Result Authorization
  check_cert none = ok (rejected 496 (codes "no client certificate"))
  check_cert (some der) = do cert ← x509.load_der der; admit (identity_from_cert x509 cert)

  -- `_authorize`
  unfoldable pub authorize : Request → Result Authorization
  unfolding check_cert present
  authorize request =
      if request.has_transport
      then if request.has_ssl_object
        then check_cert (present request.der)
        else ok (rejected 496 (codes "no TLS session"))
      else ok (rejected 496 (codes "no transport"))
