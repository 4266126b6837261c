-- ===== src/Certs/Issue.antt =====
-- fleet_telemetry/certs.py: `_write_key`, `_write_cert`, `_san_general_names`, `_san_covers`,
-- `_create_ca` and `_create_leaf`.
use python_fleet_telemetry.Prelude.{
  ℕ, suc, ◌+◌, ◌*◌, Bool, true, false, Option, none, some, List, [], ◌∷◌, Str, Bytes, codes, ◌==◌,
  contains, leb, str_eq, if◌then◌else◌,
}
use python_fleet_telemetry.Prelude.Lists.{length}
use python_fleet_telemetry.Errors.{Result, ok, raise, value_error, type_error}
use python_fleet_telemetry.Errors
use python_fleet_telemetry.Text.Address.{Address, address_eq, ip_address}
use python_fleet_telemetry.Crypto.{
  Crypto, Builder, KeyUsage, GeneralName, dns_name, ip_name, other_name,
}
use python_fleet_telemetry.Certs.Disk.{
  CredentialPath, ca_cert_path, ca_key_path, server_cert_path, server_key_path, System, Action,
  ◌>>=◌, ◌>>◌, result, try_finally, read_bytes, open_truncated, write, close, chmod,
}

-- 3650 and 730 days in seconds, and `_MAX_CN_LENGTH`
abbrev pub ca_validity : ℕ
ca_validity = 3650 * 86400

abbrev pub leaf_validity : ℕ
leaf_validity = 730 * 86400

abbrev pub max_cn_length : ℕ
max_cn_length = 64

-- `_now()` is `clock` at the number of the draw.
module _ (system : System) (crypto : Crypto) (clock : ℕ → ℕ) where
  open crypto use {
    Certificate, PrivateKey, PublicKey, Name, Identifier, generate_private_key,
    random_serial_number, public_key, private_bytes, load_pem_private_key, public_bytes,
    load_pem_certificate, common_name, check_dns_name, identifier_of, sign, subject,
    subject_key_identifier, alternative_names_of,
  }

  -- an open, a write, a close whatever the write did, and a change of the mode
  unfoldable pub write_file : CredentialPath → ℕ → Bytes → ℕ → Action (Unit {0})
  write_file path created bytes mode = do
    open_truncated system path created
    try_finally (write system path bytes) (close system)
    chmod system path mode

  -- `_write_key`
  unfoldable pub write_key : CredentialPath → PrivateKey → Action (Unit {0})
  write_key path key = write_file path 0o600 (private_bytes key) 0o600

  -- `_write_cert`
  unfoldable pub write_cert : CredentialPath → Certificate → Action (Unit {0})
  write_cert path cert = write_file path 0o666 (public_bytes cert) 0o644

  -- `_load_cert`
  unfoldable pub load_cert : CredentialPath → Action Certificate
  load_cert path = do bytes ← read_bytes system path; result (load_pem_certificate bytes)

  unfoldable pub ec_key : Option PrivateKey → Result PrivateKey
  ec_key (some key) = ok key
  ec_key none = raise type_error

  -- `_load_ec_key`
  unfoldable pub load_ec_key : CredentialPath → Action PrivateKey
  load_ec_key path = do
    bytes ← read_bytes system path
    key ← result (load_pem_private_key bytes)
    result (ec_key key)

  -- the name of `fqdn`: an address, or else a DNS name
  unfoldable pub general_name : Str → Result GeneralName
  general_name fqdn = elim (ip_address fqdn) [
    | some ip ↦ ok (ip_name ip)
    | none ↦ Errors.◌>>=◌ (check_dns_name fqdn) (λ _. ok (dns_name fqdn))
  ]

  unfoldable pub address_names : List Str → Result (List GeneralName)
  address_names [] = ok []
  address_names (ip ∷ ips) = elim (ip_address ip) [
    | none ↦ raise (value_error (codes "not an IPv4 or IPv6 address"))
    | some a ↦ Errors.◌>>=◌ (address_names ips) (λ names. ok (ip_name a ∷ names))
  ]

  -- `_san_general_names`
  unfoldable pub san_general_names : Str → List Str → Result (List GeneralName)
  unfolding general_name address_names
  san_general_names fqdn ip_addresses =
      Errors.◌>>=◌ (general_name fqdn)
        λ name. Errors.◌>>=◌ (address_names ip_addresses) λ names. ok (name ∷ names)

  -- `get_values_for_type` of either kind
  unfoldable pub dns_values : List GeneralName → List Str
  dns_values [] = []
  dns_values (dns_name s ∷ names) = s ∷ dns_values names
  dns_values (ip_name a ∷ names) = dns_values names
  dns_values (other_name b ∷ names) = dns_values names

  unfoldable pub ip_values : List GeneralName → List Address
  ip_values [] = []
  ip_values (dns_name s ∷ names) = ip_values names
  ip_values (ip_name a ∷ names) = a ∷ ip_values names
  ip_values (other_name b ∷ names) = ip_values names

  unfoldable pub covers : Option (List GeneralName) → Str → Bool
  unfolding dns_values ip_values
  covers none fqdn = false
  covers (some san) fqdn = elim (ip_address fqdn) [
    | none ↦ contains (dns_values san) fqdn
    | some ip ↦ contains (ip_values san) ip
  ]

  -- `_san_covers`
  unfoldable pub san_covers : Certificate → Str → Result Bool
  unfolding covers
  san_covers cert fqdn = Errors.◌>>=◌ (alternative_names_of cert) λ san. ok (covers san fqdn)

  -- `digital_signature` alone, or `key_cert_sign` and `crl_sign`
  abbrev pub usage : Bool → KeyUsage
  usage signs_certificates = record {
    digital_signature = if signs_certificates then false else true;
    content_commitment = false;
    key_encipherment = false;
    data_encipherment = false;
    key_agreement = false;
    key_cert_sign = signs_certificates;
    crl_sign = signs_certificates;
    encipher_only = false;
    decipher_only = false;
  }

  -- the draw of a key, a serial number and the time
  unfoldable pub draw : Action ℕ
  draw d = (ok d.drawn, record d { drawn = suc d.drawn })

  unfoldable pub ca_builder : Name → ℕ → Builder Name PublicKey Identifier
  ca_builder name n = record {
    subject_name = name;
    issuer_name = name;
    certified = public_key (generate_private_key n);
    serial_number = random_serial_number n;
    not_valid_before = clock n;
    not_valid_after = clock n + ca_validity;
    ca = true;
    path_length = some 0;
    key_usage = usage true;
    server_auth = false;
    alternative_names = none;
    subject_key = some (identifier_of (public_key (generate_private_key n)));
    authority_key = some (identifier_of (public_key (generate_private_key n)));
  }

  -- `_create_ca`
  unfoldable pub create_ca : Str → Action (Unit {0})
  create_ca ca_common_name = do
    n ← draw
    name ← result (common_name (ca_common_name ∷ []))
    cert ← result (sign (ca_builder name n) (generate_private_key n))
    write_key ca_key_path (generate_private_key n)
    write_cert ca_cert_path cert

  abbrev pub subject_attributes : Str → List Str
  subject_attributes fqdn = if leb (length fqdn) max_cn_length then fqdn ∷ [] else []

  unfoldable pub leaf_builder :
      Certificate → Identifier → Name → List GeneralName → ℕ → Builder Name PublicKey Identifier
  leaf_builder ca_cert ca_ski name names n = record {
    subject_name = name;
    issuer_name = subject ca_cert;
    certified = public_key (generate_private_key n);
    serial_number = random_serial_number n;
    not_valid_before = clock n;
    not_valid_after = clock n + leaf_validity;
    ca = false;
    path_length = none;
    key_usage = usage false;
    server_auth = true;
    alternative_names = some names;
    subject_key = none;
    authority_key = some ca_ski;
  }

  -- `_create_leaf` once `fqdn` is not empty
  unfoldable pub issue_leaf : Str → List Str → Action (Unit {0})
  issue_leaf fqdn ip_addresses = do
    ca_cert ← load_cert ca_cert_path
    ca_key ← load_ec_key ca_key_path
    n ← draw
    ca_ski ← result (subject_key_identifier ca_cert)
    name ← result (common_name (subject_attributes fqdn))
    names ← result (san_general_names fqdn ip_addresses)
    cert ← result (sign (leaf_builder ca_cert ca_ski name names n) ca_key)
    write_key server_key_path (generate_private_key n)
    write_cert server_cert_path cert

  -- `_create_leaf`
  unfoldable pub create_leaf : Str → List Str → Action (Unit {0})
  create_leaf fqdn ip_addresses =
      if fqdn == []
      then result (raise (value_error (codes "fqdn must be a non-empty hostname or IP literal")))
      else issue_leaf fqdn ip_addresses
