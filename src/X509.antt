-- ===== src/X509.antt =====
-- What the program calls of `cryptography.x509` to read a certificate.
use python_fleet_telemetry.Prelude.{List, Str, Bytes}
use python_fleet_telemetry.Errors.{Result}

pub record X509 : Type 1 where
  pub Certificate : Type 0
  pub Name : Type 0
  -- `load_der_x509_certificate`
  pub load_der : Bytes → Result Certificate
  pub subject : Certificate → Name
  pub issuer : Certificate → Name
  -- `str(a.value)` of each `name.get_attributes_for_oid(NameOID.COMMON_NAME)`
  pub common_names : Name → List Str
