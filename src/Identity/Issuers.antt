-- ===== src/Identity/Issuers.antt =====
-- Which certificates give an identity, and what it holds.
use python_fleet_telemetry.Prelude.{
  ◌≡◌, refl, Bool, false, ◌||◌, none, some, [], ◌∷◌, Str, codes, arith, contains, str_eq, nat_eq,
  if◌then◌else◌,
}
use python_fleet_telemetry.Prelude.Dict
use python_fleet_telemetry.Prelude.Dict.{keys}
use python_fleet_telemetry.Errors.{ok, raise, unauthorized_certificate}
use python_fleet_telemetry.Text.Utf8.{replace}
use python_fleet_telemetry.X509.{X509}
use python_fleet_telemetry.Identity.{
  Identity, known_issuers, known_oid_issuers, common_name, identity_from_cert,
}

-- The issuers of either table.
abbrev pub recognized : Str → Bool
recognized issuer_cn =
    contains known_oid_issuers issuer_cn || contains (keys known_issuers) issuer_cn

contains-replace : (s : Str) → contains (replace b'.' b'-' s) b'.' ≡ false
unfolding replace nat_eq
contains-replace [] = refl
contains-replace (c ∷ s) = ground (arith, contains-replace s)

known_issuers_kinds :
    (cn : Str)
    → Dict.get known_issuers cn
      ≡ (if contains (keys known_issuers) cn then some (codes "vehicle_device") else none)
unfolding known_issuers Dict.get
known_issuers_kinds cn = ground arith

module _ (x509 : X509) (cert : x509.Certificate) where
  abbrev issuer_cn : Str
  issuer_cn = common_name x509 (x509.issuer cert)

  -- A certificate gives an identity exactly when the first Common Name of its issuer is in one of
  -- the two tables. The client is then a vehicle device, and the VIN is the first Common Name of
  -- the subject with dashes for dots. Any other certificate raises `UnauthorizedCertificate`.
  pub identity_from_cert-recognized : identity_from_cert x509 cert ≡ (
      if recognized (common_name x509 (x509.issuer cert))
      then ok (record {
        vin = replace b'.' b'-' (common_name x509 (x509.subject cert));
        client_type = codes "vehicle_device";
      })
      else raise (unauthorized_certificate (common_name x509 (x509.issuer cert))))
  unfolding identity_from_cert
  identity_from_cert-recognized =
      ground (arith, known_issuers_kinds (common_name x509 (x509.issuer cert)))

  -- The VIN of an identity that a certificate gives has no dot.
  pub vin_has_no_dot :
      (i : Identity) → identity_from_cert x509 cert ≡ ok i → contains i.vin b'.' ≡ false
  vin_has_no_dot i h = ground (
    arith,
    identity_from_cert-recognized,
    contains-replace (common_name x509 (x509.subject cert)),
  )
