-- ===== src/Certs/Trust.antt =====
-- What `ensure` and `rotate_server_cert` do to the two files of the CA, whatever fails.
use python_fleet_telemetry.Prelude.{
  ℕ, ◌≡◌, refl, Option, none, some, Bool, true, false, ◌||◌, List, Str, Bytes,
}
use python_fleet_telemetry.Crypto.{Crypto}
use python_fleet_telemetry.Certs.Disk.{
  CredentialPath, ca_cert_path, ca_key_path, server_cert_path, server_key_path, File, Files, Disk,
  System, set_file, present,
}
use python_fleet_telemetry.Certs.Issue.{write_file, write_key, write_cert, issue_leaf, create_leaf}
use python_fleet_telemetry.Certs.Credentials.{
  ca_state, ensure_ca, leaf_covers, need_leaf, renew_leaf, ensure, rotate_server_cert,
}
use python_fleet_telemetry.Certs.Keeps.{Keeps, result-Keeps, >>=-Keeps, if-Keeps}
use python_fleet_telemetry.Certs.Writes.{
  Of, exists_then-KeepsOf, both_exist-KeepsOf, mkdir_private-KeepsOf, load_cert-KeepsOf,
  load_ec_key-KeepsOf, draw-KeepsOf, write_file-KeepsOf,
}

-- The paths of the server's own files.
abbrev OfServer : CredentialPath → Type 0
OfServer ca_cert_path = ⊥
OfServer ca_key_path = ⊥
OfServer server_cert_path = Unit
OfServer server_key_path = Unit

module _ (c k : Option File) where
  -- The two files of the CA are these.
  abbrev CaIs : Files → Type 0
  CaIs fs = (fs.ca_cert ≡ c) × (fs.ca_key ≡ k)

  set_file-CaIs :
      (path : CredentialPath) (f : File) (fs : Files)
      → OfServer path
      → CaIs fs
      → CaIs (set_file path f fs)
  set_file-CaIs server_cert_path f fs s h = h
  set_file-CaIs server_key_path f fs s h = h
  set_file-CaIs ca_cert_path f fs s h = absurd s
  set_file-CaIs ca_key_path f fs s h = absurd s

  module _ (system : System) (crypto : Crypto) (clock : ℕ → ℕ) where
    write_file-CaIs :
        (path : CredentialPath) (created : ℕ) (bytes : Bytes) (mode : ℕ)
        → OfServer path
        → Keeps (Of CaIs) (write_file system crypto clock path created bytes mode)
    write_file-CaIs path created bytes mode s =
        write_file-KeepsOf CaIs system path mode created (λ fs. set_file-CaIs path _ fs s)
          (λ fs f b e. set_file-CaIs path _ fs s) (λ fs f e. set_file-CaIs path _ fs s) crypto clock
          bytes

    write_server_key :
        (key : crypto.PrivateKey)
        → Keeps (Of CaIs) (write_key system crypto clock server_key_path key)
    unfolding write_key
    write_server_key key = write_file-CaIs server_key_path _ _ _ tt

    write_server_cert :
        (cert : crypto.Certificate)
        → Keeps (Of CaIs) (write_cert system crypto clock server_cert_path cert)
    unfolding write_cert
    write_server_cert cert = write_file-CaIs server_cert_path _ _ _ tt

    create_leaf-CaIs :
        (fqdn : Str) (ips : List Str) → Keeps (Of CaIs) (create_leaf system crypto clock fqdn ips)
    unfolding create_leaf issue_leaf
    create_leaf-CaIs fqdn ips =
        search
          (
            if-Keeps, >>=-Keeps, result-Keeps, load_cert-KeepsOf, load_ec_key-KeepsOf, draw-KeepsOf,
            write_server_key, write_server_cert,
          )
          depth 30

module _ (system : System) (crypto : Crypto) (clock : ℕ → ℕ) (cn : Str) where
  -- A CA of which at least one file is there is not created.
  ca_state-CaIs :
      (c k : Option File)
      → present system c || present system k ≡ true
      → Keeps
          (Of (CaIs c k))
          (ca_state system crypto clock cn (present system c) (present system k))
  unfolding ca_state
  ca_state-CaIs none none h = absurd cc
  ca_state-CaIs none (some f) h = result-Keeps _ _
  ca_state-CaIs (some f) none h = result-Keeps _ _
  ca_state-CaIs (some f) (some g) h = result-Keeps _ _

  ensure_ca-CaIs :
      (c k : Option File)
      → present system c || present system k ≡ true
      → Keeps (Of (CaIs c k)) (ensure_ca system crypto clock cn)
  unfolding ensure_ca
  ensure_ca-CaIs c k h =
      exists_then-KeepsOf (CaIs c k) system ca_cert_path c _ (λ fs q. q.0)
        (exists_then-KeepsOf (CaIs c k) system ca_key_path k _ (λ fs q. q.1) (ca_state-CaIs c k h))

  need_leaf-KeepsOf :
      (Q : Files → Type 0) (created : Bool)
      → Keeps (Of Q) (need_leaf system crypto clock cn created)
  unfolding need_leaf
  need_leaf-KeepsOf Q true = search (result-Keeps)
  need_leaf-KeepsOf Q false = search (>>=-Keeps, result-Keeps, both_exist-KeepsOf)

  leaf_covers-KeepsOf :
      (Q : Files → Type 0) (fqdn : Str) → Keeps (Of Q) (leaf_covers system crypto clock cn fqdn)
  unfolding leaf_covers
  leaf_covers-KeepsOf Q fqdn = search (>>=-Keeps, result-Keeps, load_cert-KeepsOf)

  pub renew_leaf-KeepsOf :
      (Q : Files → Type 0) (fqdn : Str) (ips : List Str) (needed : Bool)
      → Keeps (Of Q) (create_leaf system crypto clock fqdn ips)
      → Keeps (Of Q) (renew_leaf system crypto clock cn fqdn ips needed)
  unfolding renew_leaf
  renew_leaf-KeepsOf Q fqdn ips true leaf = leaf
  renew_leaf-KeepsOf Q fqdn ips false leaf =
      >>=-Keeps (Of Q) _ _ (leaf_covers-KeepsOf Q fqdn)
        (λ covered. if-Keeps (Of Q) covered _ _ (result-Keeps (Of Q) _) leaf)

  pub ensure-KeepsOf :
      (Q : Files → Type 0) (fqdn : Str) (ips : List Str)
      → Keeps (Of Q) (ensure_ca system crypto clock cn)
      → Keeps (Of Q) (create_leaf system crypto clock fqdn ips)
      → Keeps (Of Q) (ensure system crypto clock cn fqdn ips)
  unfolding ensure
  ensure-KeepsOf Q fqdn ips ca leaf = >>=-Keeps (Of Q) _ _ (mkdir_private-KeepsOf Q system) λ _.
      >>=-Keeps (Of Q) _ _ ca λ created.
        >>=-Keeps (Of Q) _ _ (need_leaf-KeepsOf Q created)
          λ needed. renew_leaf-KeepsOf Q fqdn ips needed leaf

  pub rotate-KeepsOf :
      (Q : Files → Type 0) (fqdn : Str) (ips : List Str)
      → Keeps (Of Q) (create_leaf system crypto clock fqdn ips)
      → Keeps (Of Q) (rotate_server_cert system crypto clock cn fqdn ips)
  unfolding rotate_server_cert
  rotate-KeepsOf Q fqdn ips leaf =
      >>=-Keeps (Of Q) _ _ (both_exist-KeepsOf Q system ca_cert_path ca_key_path)
        (λ there. if-Keeps (Of Q) there _ _ leaf (result-Keeps (Of Q) _))

  -- Once one file of the CA is there, neither `ensure` nor `rotate_server_cert` changes the
  -- certificate or the key of the CA, whatever call of the system fails and however the run ends.
  pub ensure-CaIs :
      (fqdn : Str) (ips : List Str) (d : Disk)
      → present system d.files.ca_cert || present system d.files.ca_key ≡ true
      → let e = (ensure system crypto clock cn fqdn ips d).1.files in
        let r = (rotate_server_cert system crypto clock cn fqdn ips d).1.files in
        (e.ca_cert ≡ d.files.ca_cert)
        × (e.ca_key ≡ d.files.ca_key)
        × (r.ca_cert ≡ d.files.ca_cert)
        × (r.ca_key ≡ d.files.ca_key)
  ensure-CaIs fqdn ips d h =
      let Q = CaIs d.files.ca_cert d.files.ca_key in
      let leaf = create_leaf-CaIs d.files.ca_cert d.files.ca_key system crypto clock fqdn ips in
      let ca = ensure_ca-CaIs d.files.ca_cert d.files.ca_key h in
      let (ec, ek) = (ensure-KeepsOf Q fqdn ips ca leaf).kept d (refl, refl) in
      let (rc, rk) = (rotate-KeepsOf Q fqdn ips leaf).kept d (refl, refl) in (ec, ek, rc, rk)
