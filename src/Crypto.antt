-- ===== src/Crypto.antt =====
-- What fleet_telemetry/certs.py calls of `cryptography` to make, write and read keys and
-- certificates.
use python_fleet_telemetry.Prelude.{ℕ, ◌≡◌, Bool, Option, none, some, List, map, Str, Bytes}
use python_fleet_telemetry.Errors.{Result, ok}
use python_fleet_telemetry.Text.Address.{Address, v6}

-- `x509.DNSName` and `x509.IPAddress`; a loaded certificate may hold names of other kinds.
pub data GeneralName : Type 0 where
  dns_name : Str → GeneralName
  ip_name : Address → GeneralName
  other_name : Bytes → GeneralName

-- An address is stored without its scope.
abbrev pub stored_name : GeneralName → GeneralName
stored_name (ip_name (v6 n scope)) = ip_name (v6 n none)
stored_name name = name

abbrev pub stored_names : Option (List GeneralName) → Option (List GeneralName)
stored_names none = none
stored_names (some names) = some (map stored_name names)

-- `x509.KeyUsage`
pub record KeyUsage : Type 0 where
  pub digital_signature : Bool
  pub content_commitment : Bool
  pub key_encipherment : Bool
  pub data_encipherment : Bool
  pub key_agreement : Bool
  pub key_cert_sign : Bool
  pub crl_sign : Bool
  pub encipher_only : Bool
  pub decipher_only : Bool

-- What a `CertificateBuilder` has been given when it signs; an extension that was not added is
-- `none` or `false`.
pub record Builder (Name PublicKey Identifier : Type 0) : Type 0 where
  pub subject_name : Name
  pub issuer_name : Name
  pub certified : PublicKey
  pub serial_number : ℕ
  pub not_valid_before : ℕ
  pub not_valid_after : ℕ
  pub ca : Bool
  pub path_length : Option ℕ
  pub key_usage : KeyUsage
  pub server_auth : Bool
  pub alternative_names : Option (List GeneralName)
  pub subject_key : Option Identifier
  pub authority_key : Option Identifier

pub record Crypto : Type 1 where
  pub Certificate : Type 0
  pub PrivateKey : Type 0
  pub PublicKey : Type 0
  pub Name : Type 0
  pub Identifier : Type 0
  -- `ec.generate_private_key` and `x509.random_serial_number`, by the number of the draw
  pub generate_private_key : ℕ → PrivateKey
  pub random_serial_number : ℕ → ℕ
  pub public_key : PrivateKey → PublicKey
  -- unencrypted PKCS#8 in PEM form; `none` is a key of another kind than EC
  pub private_bytes : PrivateKey → Bytes
  pub load_pem_private_key : Bytes → Result (Option PrivateKey)
  -- `Encoding.PEM`
  pub public_bytes : Certificate → Bytes
  pub load_pem_certificate : Bytes → Result Certificate
  -- `x509.Name` of a `NameAttribute` of the common name for each text
  pub common_name : List Str → Result Name
  -- `x509.DNSName(s)`, for its ValueError
  pub check_dns_name : Str → Result (Unit {0})
  -- `SubjectKeyIdentifier.from_public_key`
  pub identifier_of : PublicKey → Identifier
  pub sign : Builder Name PublicKey Identifier → PrivateKey → Result Certificate
  -- `cert.subject`, and the two extensions that are read
  pub subject : Certificate → Name
  pub subject_key_identifier : Certificate → Result Identifier
  pub alternative_names_of : Certificate → Result (Option (List GeneralName))

-- What is read back of what was written: a certificate or key from its PEM form, and the
-- alternative names as they are stored, the subject and the key identifier from a certificate that
-- was signed with them.
pub record IsLawful (c : Crypto) : Type 0 where
  pub load-certificate : (x : c.Certificate) → c.load_pem_certificate (c.public_bytes x) ≡ ok x
  pub load-key : (k : c.PrivateKey) → c.load_pem_private_key (c.private_bytes k) ≡ ok (some k)
  pub names-sign :
      (b : Builder c.Name c.PublicKey c.Identifier) (k : c.PrivateKey) (x : c.Certificate)
      → c.sign b k ≡ ok x
      → c.alternative_names_of x ≡ ok (stored_names b.alternative_names)
  pub identifier-sign :
      (b : Builder c.Name c.PublicKey c.Identifier) (k : c.PrivateKey) (x : c.Certificate)
      (i : c.Identifier)
      → c.sign b k ≡ ok x
      → b.subject_key ≡ some i
      → c.subject_key_identifier x ≡ ok i
  pub subject-sign :
      (b : Builder c.Name c.PublicKey c.Identifier) (k : c.PrivateKey) (x : c.Certificate)
      → c.sign b k ≡ ok x
      → c.subject x ≡ b.subject_name
