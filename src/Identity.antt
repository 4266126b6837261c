-- ===== src/Identity.antt =====
-- fleet_telemetry/identity.py: the VIN and the kind of a client, from its certificate.
pub mod Issuers
use python_fleet_telemetry.Prelude.{
  Option, none, some, List, [], ◌∷◌, Str, codes, contains, str_eq, if◌then◌else◌,
}
use python_fleet_telemetry.Prelude.Dict
use python_fleet_telemetry.Prelude.Dict.{Dict}
use python_fleet_telemetry.Errors.{Result, ok, raise, unauthorized_certificate}
use python_fleet_telemetry.Text.Utf8.{replace}
use python_fleet_telemetry.X509.{X509}

pub record Identity : Type 0 where
  pub vin : Str
  pub client_type : Str

-- `_KNOWN_ISSUERS`
unfoldable pub known_issuers : Dict Str Str
known_issuers =
    (codes "TeslaMotors", codes "vehicle_device")
    ∷ (codes "Tesla Issuing CA", codes "vehicle_device")
    ∷ (codes "Tesla Motors Products CA", codes "vehicle_device")
    ∷ []

-- `_KNOWN_OID_ISSUERS`
unfoldable pub known_oid_issuers : List Str
known_oid_issuers =
    codes "Tesla Motors Product Issuing CA"
    ∷ codes "Tesla Motors Product RSA Issuing CA"
    ∷ codes "Tesla Motors GF3 Product Issuing CA"
    ∷ codes "Tesla Motors GF3 Product RSA Issuing CA"
    ∷ codes "Tesla Energy Product Issuing CA"
    ∷ codes "Tesla Energy GF0 Product Issuing CA"
    ∷ codes "Tesla Motors GF0 Product Issuing CA"
    ∷ codes "Tesla Motors GF Austin Product Issuing CA"
    ∷ codes "Tesla Motors GF Berlin Product Issuing CA"
    ∷ codes "Tesla Product Access Issuing CA"
    ∷ codes "Tesla China Product Access Issuing CA"
    ∷ codes "Tesla GF0 Product Access Issuing CA"
    ∷ codes "Tesla GF3 Product Access Issuing CA"
    ∷ codes "Tesla GF Austin Product Access Issuing CA"
    ∷ codes "Tesla GF Berlin Product Access Issuing CA"
    ∷ []

-- `str(attrs[0].value) if attrs else ""`
unfoldable pub first_or_empty : List Str → Str
first_or_empty [] = []
first_or_empty (name ∷ _) = name

module _ (x509 : X509) where
  open x509 use {Certificate, Name, subject, issuer, common_names}

  unfoldable pub common_name : Name → Str
  common_name name = first_or_empty (common_names name)

  -- The exception's message names the issuer, which it carries here.
  unfoldable pub identity_from_cert : Certificate → Result Identity
  identity_from_cert cert =
      let vin = replace b'.' b'-' (common_name (subject cert)) in
      let issuer_cn = common_name (issuer cert) in
      if contains known_oid_issuers issuer_cn
      then ok (record { vin = vin; client_type = codes "vehicle_device" })
      else elim (Dict.get known_issuers issuer_cn) [
        | some client_type ↦ ok (record { vin = vin; client_type = client_type })
        | none ↦ raise (unauthorized_certificate issuer_cn)
      ]
