-- ===== src/Certs/Stale.antt =====
-- `ensure` interrupted between the new CA and its leaf: what the next `ensure` makes of the old
-- leaf.
use python_fleet_telemetry.Prelude.{
  ℕ, ◌≡◌, refl, Option, none, some, true, List, [], Str, codes, str_eq,
}
use python_fleet_telemetry.Errors.{ok, raise, value_error}
use python_fleet_telemetry.Crypto.{Crypto, GeneralName}
use python_fleet_telemetry.Certs.Disk
use python_fleet_telemetry.Certs.Disk.{
  ca_cert_path, ca_key_path, server_cert_path, server_key_path, File, Disk, result, inspect, call,
  exists, read_bytes, mkdir, chmod_directory,
}
use python_fleet_telemetry.Certs.Issue.{load_cert, covers, san_covers, create_leaf}
use python_fleet_telemetry.Certs.Credentials.{
  both_exist, mkdir_private, ca_state, ensure_ca, need_leaf, leaf_covers, renew_leaf, ensure,
}
use python_fleet_telemetry.Certs.Works.{no_faults, files_of, file_of, CaIssuable, create_ca-works}

module _ (created : ℕ → ℕ) (crypto : Crypto) (clock : ℕ → ℕ) (cn : Str) where
  open crypto use {
    Certificate, generate_private_key, private_bytes, public_bytes, load_pem_certificate,
    alternative_names_of,
  }

  -- A leaf that loads, with the names it carries.
  pub record LeafNames (fqdn : Str) (s : File) : Type 0 where
    pub leaf : Certificate
    pub names : Option (List GeneralName)
    pub leaf_loads : load_pem_certificate s.content ≡ ok leaf
    pub names_read : alternative_names_of leaf ≡ ok names
    pub covering : covers (no_faults created) crypto clock names fqdn ≡ true

  -- No call of the system fails, the library issues a CA under the common name with the next key,
  -- there is no CA yet, and the server files are left from before, of which the certificate loads
  -- and its names cover `fqdn`: a call of `ensure` with an empty name writes a new CA and raises.
  -- The next call, with `fqdn`, returns and leaves every file as it is, so that the old leaf stays
  -- beside the new CA.
  pub ensure-KeepsStale :
      (fqdn : Str) (ips : List Str) (s t : File) (m : Option ℕ) (c n : ℕ)
      → (i : CaIssuable created crypto clock cn n) → LeafNames fqdn s
      → let (r, e) = ensure (no_faults created) crypto clock cn [] ips (record {
        directory = m;
        files = files_of none none (some s) (some t);
        calls = c;
        drawn = n;
      }) in
        let (r', f) = ensure (no_faults created) crypto clock cn fqdn ips e in
        (r ≡ raise (value_error (codes "fqdn must be a non-empty hostname or IP literal")))
        × (e.files
            ≡ files_of
                (some (file_of (public_bytes i.cert) 0o644))
                (some (file_of (private_bytes (generate_private_key n)) 0o600))
                (some s)
                (some t))
        × (r' ≡ ok tt)
        × (f.files ≡ e.files)
  unfolding ensure mkdir_private mkdir chmod_directory ensure_ca exists ca_state need_leaf
      both_exist renew_leaf leaf_covers load_cert read_bytes san_covers create_leaf str_eq call
      inspect result Disk.◌>>=◌
  ensure-KeepsStale fqdn ips s t m c n i l =
      rw (create_ca-works created crypto clock cn (some s) (some t) _ n i)
        (rw (l.leaf_loads) (rw (l.names_read) (rw (l.covering) (refl, refl, refl, refl))))
