-- ===== src/Certs/Private.antt =====
-- What `ensure` and `rotate_server_cert` do to the modes of the key files, whatever fails.
use python_fleet_telemetry.Prelude.{ℕ, ◌≡◌, refl, Option, none, some, Bool, List, Str}
use python_fleet_telemetry.Crypto.{Crypto}
use python_fleet_telemetry.Certs.Disk.{
  CredentialPath, ca_cert_path, ca_key_path, server_cert_path, server_key_path, File, Files, Disk,
  System, set_file, file_at, opened,
}
use python_fleet_telemetry.Certs.Issue.{write_key, write_cert, issue_leaf, create_leaf, create_ca}
use python_fleet_telemetry.Certs.Credentials.{ca_state, ensure_ca, ensure, rotate_server_cert}
use python_fleet_telemetry.Certs.Keeps.{Keeps, result-Keeps, >>=-Keeps, if-Keeps}
use python_fleet_telemetry.Certs.Writes.{
  Of, exists-KeepsOf, load_cert-KeepsOf, load_ec_key-KeepsOf, draw-KeepsOf, write_file-KeepsOf,
}
use python_fleet_telemetry.Certs.Trust.{ensure-KeepsOf, rotate-KeepsOf}

abbrev pub IsPrivate : Option File → Type 0
IsPrivate none = Unit
IsPrivate (some f) = f.mode ≡ 0o600

-- The key of the CA and the key of the server, if they are there, have the mode 0600.
abbrev pub KeysPrivate : Files → Type 0
KeysPrivate fs = IsPrivate fs.ca_key × IsPrivate fs.server_key

-- The certificates' paths; a file there may have any mode.
abbrev OfCertificate : CredentialPath → Type 0
OfCertificate ca_cert_path = Unit
OfCertificate server_cert_path = Unit
OfCertificate ca_key_path = ⊥
OfCertificate server_key_path = ⊥

set_certificate :
    (path : CredentialPath) (f : File) (fs : Files)
    → OfCertificate path
    → KeysPrivate fs
    → KeysPrivate (set_file path f fs)
set_certificate ca_cert_path f fs s h = h
set_certificate server_cert_path f fs s h = h
set_certificate ca_key_path f fs s h = absurd s
set_certificate server_key_path f fs s h = absurd s

set_private :
    (path : CredentialPath) (f : File) (fs : Files)
    → f.mode ≡ 0o600
    → KeysPrivate fs
    → KeysPrivate (set_file path f fs)
set_private ca_cert_path f fs e h = h
set_private server_cert_path f fs e h = h
set_private ca_key_path f fs e h = (e, h.1)
set_private server_key_path f fs e h = (h.0, e)

-- The paths of the keys.
abbrev OfKey : CredentialPath → Type 0
OfKey ca_cert_path = ⊥
OfKey server_cert_path = ⊥
OfKey ca_key_path = Unit
OfKey server_key_path = Unit

OfKey-mode :
    (path : CredentialPath) (fs : Files) → OfKey path → KeysPrivate fs → IsPrivate (file_at path fs)
OfKey-mode ca_cert_path fs s h = absurd s
OfKey-mode server_cert_path fs s h = absurd s
OfKey-mode ca_key_path fs s h = h.0
OfKey-mode server_key_path fs s h = h.1

-- `umask` takes nothing from 0600.
module _ (system : System) (owner : system.created 0o600 ≡ 0o600) (crypto : Crypto)
    (clock : ℕ → ℕ) where
  opened-IsPrivate : (o : Option File) → IsPrivate o → (opened system 0o600 o).mode ≡ 0o600
  opened-IsPrivate none h = owner
  opened-IsPrivate (some f) h = h

  write_certificate :
      (path : CredentialPath) (cert : crypto.Certificate)
      → OfCertificate path
      → Keeps (Of KeysPrivate) (write_cert system crypto clock path cert)
  unfolding write_cert
  write_certificate path cert s =
      write_file-KeepsOf KeysPrivate system path _ _ (λ fs. set_certificate path _ fs s)
        (λ fs f b e. set_certificate path _ fs s) (λ fs f e. set_certificate path _ fs s) crypto
        clock _

  write_private_key :
      (path : CredentialPath) (key : crypto.PrivateKey)
      → OfKey path
      → Keeps (Of KeysPrivate) (write_key system crypto clock path key)
  unfolding write_key
  write_private_key path key s =
      write_file-KeepsOf KeysPrivate system path _ _
        (λ fs h.
          set_private path _ fs (opened-IsPrivate (file_at path fs) (OfKey-mode path fs s h)) h)
        (λ fs f b e h. set_private path _ fs (rw e at (OfKey-mode path fs s h)) h)
        (λ fs f e h. set_private path _ fs refl h) crypto clock _

  write_ca_key :
      (key : crypto.PrivateKey)
      → Keeps (Of KeysPrivate) (write_key system crypto clock ca_key_path key)
  write_ca_key key = write_private_key ca_key_path key tt

  write_server_key :
      (key : crypto.PrivateKey)
      → Keeps (Of KeysPrivate) (write_key system crypto clock server_key_path key)
  write_server_key key = write_private_key server_key_path key tt

  write_ca_cert :
      (cert : crypto.Certificate)
      → Keeps (Of KeysPrivate) (write_cert system crypto clock ca_cert_path cert)
  write_ca_cert cert = write_certificate ca_cert_path cert tt

  write_server_cert :
      (cert : crypto.Certificate)
      → Keeps (Of KeysPrivate) (write_cert system crypto clock server_cert_path cert)
  write_server_cert cert = write_certificate server_cert_path cert tt

  create_leaf-KeysPrivate :
      (fqdn : Str) (ips : List Str)
      → Keeps (Of KeysPrivate) (create_leaf system crypto clock fqdn ips)
  unfolding create_leaf issue_leaf
  create_leaf-KeysPrivate fqdn ips =
      search
        (
          if-Keeps, >>=-Keeps, result-Keeps, load_cert-KeepsOf, load_ec_key-KeepsOf, draw-KeepsOf,
          write_server_key, write_server_cert,
        )
        depth 30

  create_ca-KeysPrivate : (cn : Str) → Keeps (Of KeysPrivate) (create_ca system crypto clock cn)
  unfolding create_ca
  create_ca-KeysPrivate cn =
      search (>>=-Keeps, result-Keeps, draw-KeepsOf, write_ca_key, write_ca_cert) depth 30

  ca_state-KeysPrivate :
      (cn : Str) (c k : Bool) → Keeps (Of KeysPrivate) (ca_state system crypto clock cn c k)
  unfolding ca_state
  ca_state-KeysPrivate cn c k =
      search (if-Keeps, >>=-Keeps, result-Keeps, create_ca-KeysPrivate) depth 20

  ensure_ca-KeysPrivate : (cn : Str) → Keeps (Of KeysPrivate) (ensure_ca system crypto clock cn)
  unfolding ensure_ca
  ensure_ca-KeysPrivate cn = search (>>=-Keeps, exists-KeepsOf, ca_state-KeysPrivate) depth 20

  -- If the key files that are there have the mode 0600, they and those that `ensure` or
  -- `rotate_server_cert` writes have it afterwards, at whatever call of the system the run breaks
  -- off, if the umask leaves the mode 0600 of a new file as it is.
  pub ensure-KeysPrivate :
      (cn fqdn : Str) (ips : List Str) (d : Disk)
      → KeysPrivate d.files
      → KeysPrivate (ensure system crypto clock cn fqdn ips d).1.files
        × KeysPrivate (rotate_server_cert system crypto clock cn fqdn ips d).1.files
  ensure-KeysPrivate cn fqdn ips d h =
      let leaf = create_leaf-KeysPrivate fqdn ips in
      (
        (ensure-KeepsOf system crypto clock cn KeysPrivate fqdn ips (ensure_ca-KeysPrivate cn)
              leaf).kept
            d h,
        (rotate-KeepsOf system crypto clock cn KeysPrivate fqdn ips leaf).kept d h,
      )
