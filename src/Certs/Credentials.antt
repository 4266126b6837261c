-- ===== src/Certs/Credentials.antt =====
-- fleet_telemetry/certs.py: `ServerCredentials` and `tesla_ca_bundle_path`.
use python_fleet_telemetry.Prelude.{
  ℕ, Bool, true, false, not, ◌&&◌, ◌||◌, List, ◌++◌, Str, Bytes, codes, if◌then◌else◌,
}
use python_fleet_telemetry.Errors.{Result, ok, raise, file_not_found}
use python_fleet_telemetry.Crypto.{Crypto}
use python_fleet_telemetry.Certs.Disk.{
  CredentialPath, ca_cert_path, ca_key_path, server_cert_path, server_key_path, System, Action,
  ◌>>=◌, ◌>>◌, result, exists, read_bytes, mkdir, chmod_directory,
}
use python_fleet_telemetry.Certs.Issue.{load_cert, san_covers, create_ca, create_leaf}

abbrev pub default_ca_common_name : Str
default_ca_common_name = codes "python-fleet-telemetry Root CA"

-- `tesla_ca_bundle_path`, under `_CERTS_DIR`
unfoldable pub tesla_ca_bundle_path : Str → Bool → Str
tesla_ca_bundle_path certs_dir staging =
    certs_dir
    ++ codes "/"
    ++ (if staging then codes "tesla_eng_ca.pem" else codes "tesla_prod_ca.pem")

-- An `SSLContext` as far as it is set: the bytes of its certificate chain and key, the path of its
-- trust anchors, and whether `verify_mode` is `CERT_REQUIRED`.
pub record SslContext : Type 0 where
  pub certfile : Bytes
  pub keyfile : Bytes
  pub cafile : Str
  pub cert_required : Bool

module _ (system : System) where
  -- `a.exists() and b.exists()`
  unfoldable pub both_exist : CredentialPath → CredentialPath → Action Bool
  both_exist a b = do
    a_exists ← exists system a
    if a_exists then exists system b else result (ok false)

  -- `_mkdir_private`
  unfoldable pub mkdir_private : Action (Unit {0})
  mkdir_private = do mkdir system; chmod_directory system 0o700

  -- `ca_certificate_pem`: PEM text is ASCII, so that its bytes are its code points.
  unfoldable pub ca_certificate_pem : Action Str
  ca_certificate_pem = do
    ca_exists ← exists system ca_cert_path
    if ca_exists
        then read_bytes system ca_cert_path
        else result (raise (file_not_found (codes "no CA")))

  -- `build_ssl_context`; the arguments are the outcomes of `load_cert_chain` on the two files and
  -- of `load_verify_locations`.
  unfoldable pub build_ssl_context :
      (Bytes → Bytes → Result (Unit {0}))
      → (Str → Result (Unit {0}))
      → Str
      → Bool
      → Action SslContext
  unfolding tesla_ca_bundle_path
  build_ssl_context load_cert_chain load_verify_locations certs_dir staging = do
    certfile ← read_bytes system server_cert_path
    keyfile ← read_bytes system server_key_path
    result (load_cert_chain certfile keyfile)
    result (load_verify_locations (tesla_ca_bundle_path certs_dir staging))
    result (
        ok (record {
          certfile = certfile;
          keyfile = keyfile;
          cafile = tesla_ca_bundle_path certs_dir staging;
          cert_required = true;
        }))

module _ (system : System) (crypto : Crypto) (clock : ℕ → ℕ) (ca_common_name : Str) where
  -- `_ensure_ca` once it is known which of the two files are there
  unfoldable pub ca_state : Bool → Bool → Action Bool
  ca_state cert_exists key_exists =
      if cert_exists && key_exists
      then result (ok false)
      else if cert_exists || key_exists
      then result (raise (file_not_found (codes "partial CA state")))
      else (create_ca system crypto clock ca_common_name >> result (ok true))

  -- `_ensure_ca`
  unfoldable pub ensure_ca : Action Bool
  ensure_ca = do
    cert_exists ← exists system ca_cert_path
    key_exists ← exists system ca_key_path
    ca_state cert_exists key_exists

  -- whether the leaf on the disk covers `fqdn`
  unfoldable pub leaf_covers : Str → Action Bool
  leaf_covers fqdn = do
    cert ← load_cert system crypto clock server_cert_path
    result (san_covers system crypto clock cert fqdn)

  -- `ca_created or not (… and …)`
  unfoldable pub need_leaf : Bool → Action Bool
  need_leaf true = result (ok true)
  need_leaf false = do
    there ← both_exist system server_cert_path server_key_path
    result (ok (not there))

  -- `if need_leaf or not _san_covers(…)`
  unfoldable pub renew_leaf : Str → List Str → Bool → Action (Unit {0})
  renew_leaf fqdn ip_addresses true = create_leaf system crypto clock fqdn ip_addresses
  renew_leaf fqdn ip_addresses false = do
    covered ← leaf_covers fqdn
    if covered then result (ok tt) else create_leaf system crypto clock fqdn ip_addresses

  unfoldable pub ensure : Str → List Str → Action (Unit {0})
  ensure fqdn ip_addresses = do
    mkdir_private system
    ca_created ← ensure_ca
    needed ← need_leaf ca_created
    renew_leaf fqdn ip_addresses needed

  unfoldable pub rotate_server_cert : Str → List Str → Action (Unit {0})
  rotate_server_cert fqdn ip_addresses = do
    ca_exists ← both_exist system ca_cert_path ca_key_path
    if ca_exists
        then create_leaf system crypto clock fqdn ip_addresses
        else result (raise (file_not_found (codes "no CA")))
