-- ===== src/Certs/Works.antt =====
-- The methods of certs.py where no call of the system fails: what they return and what they leave.
use python_fleet_telemetry.Prelude.{
  ℕ, suc, ◌≡◌, ◌≢◌, refl, Option, none, some, List, [], ◌∷◌, Str, Bytes, str_eq,
}
use python_fleet_telemetry.Errors.{Result, ok}
use python_fleet_telemetry.Crypto.{Crypto, GeneralName}
use python_fleet_telemetry.Certs.Disk.{
  CredentialPath, ca_cert_path, ca_key_path, server_cert_path, server_key_path, File, Files, Disk,
  System, ◌>>=◌, ◌>>◌, result, inspect, try_finally, call, read_bytes, in_directory, truncate,
  open_truncated, write, close, chmod, set_file,
}
use python_fleet_telemetry.Certs.Issue.{
  write_file, write_key, write_cert, load_cert, load_ec_key, ec_key, draw, san_general_names,
  subject_attributes, ca_builder, create_ca, leaf_builder, issue_leaf, create_leaf,
}

abbrev pub no_faults : (ℕ → ℕ) → System
no_faults created = record { fault = λ n. none; created = created }

abbrev pub disk_of : ℕ → Files → ℕ → ℕ → Disk
disk_of mode files calls drawn = record {
  directory = some mode;
  files = files;
  calls = calls;
  drawn = drawn;
}

abbrev pub files_of : Option File → Option File → Option File → Option File → Files
files_of c k sc sk = record { ca_cert = c; ca_key = k; server_cert = sc; server_key = sk }

abbrev pub file_of : Bytes → ℕ → File
file_of content mode = record { content = content; mode = mode }

-- What a method leaves: it returned `a`, and these are the files and the draws.
abbrev pub Leaves : {A : Type 0} → Result A × Disk → A → Files → ℕ → Type 0
Leaves (r, d) a fs n = (r ≡ ok a) × (d.directory ≡ some 0o700) × (d.files ≡ fs) × (d.drawn ≡ n)

module _ (created : ℕ → ℕ) (crypto : Crypto) (clock : ℕ → ℕ) where
  open crypto use {
    Certificate, PrivateKey, Name, Identifier, PublicKey, generate_private_key, public_key,
    private_bytes, load_pem_private_key, public_bytes, load_pem_certificate, common_name, sign,
    subject_key_identifier,
  }

  write_file-works :
      (path : CredentialPath) (mode : ℕ) (bytes : Bytes) (final : ℕ) (m : ℕ) (fs : Files) (c n : ℕ)
      → write_file (no_faults created) crypto clock path mode bytes final (disk_of m fs c n)
        ≡ (ok tt, disk_of m (set_file path (file_of bytes final) fs) (suc (suc (suc (suc c)))) n)
  unfolding write_file ◌>>=◌ try_finally open_truncated call truncate in_directory write close chmod
  write_file-works ca_cert_path mode bytes final m fs c n = refl
  write_file-works ca_key_path mode bytes final m fs c n = refl
  write_file-works server_cert_path mode bytes final m fs c n = refl
  write_file-works server_key_path mode bytes final m fs c n = refl

  abbrev eight : ℕ → ℕ
  eight c = suc (suc (suc (suc (suc (suc (suc (suc c)))))))

  writes-work :
      (kp cp : CredentialPath) (key : PrivateKey) (cert : Certificate) (m : ℕ) (fs : Files)
      (c n : ℕ)
      → (write_key (no_faults created) crypto clock kp key
            >> write_cert (no_faults created) crypto clock cp cert)
          (disk_of m fs c n)
        ≡ (
          ok tt,
          disk_of m
              (set_file cp
                (file_of (public_bytes cert) 0o644)
                (set_file kp (file_of (private_bytes key) 0o600) fs))
              (eight c)
              n,
        )
  unfolding ◌>>=◌ write_key write_cert
  writes-work kp cp key cert m fs c n =
      rw (write_file-works kp 0o600 (private_bytes key) 0o600 m fs c n)
        (write_file-works cp 0o666 (public_bytes cert) 0o644 m _ _ n)

  -- What issuing a leaf for `fqdn` takes, at the draw `n`: a CA that loads, and values that the
  -- library accepts.
  pub record Issuable (fc fk : File) (fqdn : Str) (ips : List Str) (n : ℕ) : Type 0 where
    pub ca : Certificate
    pub ca_key : PrivateKey
    pub ski : Identifier
    pub name : Name
    pub names : List GeneralName
    pub leaf : Certificate
    pub ca_loads : load_pem_certificate fc.content ≡ ok ca
    pub key_loads : load_pem_private_key fk.content ≡ ok (some ca_key)
    pub identified : subject_key_identifier ca ≡ ok ski
    pub named : common_name (subject_attributes (no_faults created) crypto clock fqdn) ≡ ok name
    pub alternatives : san_general_names (no_faults created) crypto clock fqdn ips ≡ ok names
    pub signed :
        sign (leaf_builder (no_faults created) crypto clock ca ski name names n) ca_key ≡ ok leaf

  abbrev pub leaf_files : File → File → Certificate → ℕ → Files
  leaf_files fc fk leaf n =
      files_of (some fc) (some fk) (some (file_of (public_bytes leaf) 0o644))
        (some (file_of (private_bytes (generate_private_key n)) 0o600))

  pub issue_leaf-works :
      (fc fk : File) (sc sk : Option File) (fqdn : Str) (ips : List Str) (c n : ℕ)
      → (i : Issuable fc fk fqdn ips n)
      → Leaves
          (issue_leaf
            (no_faults created)
            crypto
            clock
            fqdn
            ips
            (disk_of 0o700 (files_of (some fc) (some fk) sc sk) c n))
          tt
          (leaf_files fc fk i.leaf n)
          (suc n)
  unfolding issue_leaf load_cert load_ec_key ec_key draw write_key write_cert read_bytes call
      inspect result ◌>>=◌
  issue_leaf-works fc fk sc sk fqdn ips c n i = rw (i.ca_loads) (
      rw (i.key_loads) (
        rw (i.identified) (
          rw (i.named) (
            rw (i.alternatives) (
              rw (i.signed) (
                rw
                  (writes-work server_key_path server_cert_path (generate_private_key n) i.leaf
                    0o700 (files_of (some fc) (some fk) sc sk) (suc (suc c)) (suc n))
                  (refl, refl, refl, refl)))))))

  pub create_leaf-works :
      (fc fk : File) (sc sk : Option File) (fqdn : Str) (ips : List Str) (c n : ℕ)
      → (i : Issuable fc fk fqdn ips n) → fqdn ≢ []
      → Leaves
          (create_leaf
            (no_faults created)
            crypto
            clock
            fqdn
            ips
            (disk_of 0o700 (files_of (some fc) (some fk) sc sk) c n))
          tt
          (leaf_files fc fk i.leaf n)
          (suc n)
  unfolding create_leaf str_eq
  create_leaf-works fc fk sc sk [] ips c n i nonempty = absurd (nonempty refl)
  create_leaf-works fc fk sc sk (x ∷ fqdn) ips c n i nonempty =
      issue_leaf-works fc fk sc sk (x ∷ fqdn) ips c n i

  -- A certificate of a new CA, at the draw `n`.
  pub record CaIssuable (cn : Str) (n : ℕ) : Type 0 where
    pub name : Name
    pub cert : Certificate
    pub named : common_name (cn ∷ []) ≡ ok name
    pub signed :
        sign (ca_builder (no_faults created) crypto clock name n) (generate_private_key n) ≡ ok cert

  pub create_ca-works :
      (cn : Str) (sc sk : Option File) (c n : ℕ) (i : CaIssuable cn n)
      → create_ca (no_faults created) crypto clock cn (disk_of 0o700 (files_of none none sc sk) c n)
        ≡ (
          ok tt,
          disk_of 0o700
              (files_of
                (some (file_of (public_bytes i.cert) 0o644))
                (some (file_of (private_bytes (generate_private_key n)) 0o600))
                sc
                sk)
              (eight c)
              (suc n),
        )
  unfolding create_ca draw result ◌>>=◌
  create_ca-works cn sc sk c n i = rw (i.named) (
      rw (i.signed) (
        writes-work ca_key_path ca_cert_path (generate_private_key n) i.cert 0o700
          (files_of none none sc sk) c (suc n)))
