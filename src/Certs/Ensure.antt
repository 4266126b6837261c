-- ===== src/Certs/Ensure.antt =====
-- `ensure` and `rotate_server_cert` where no call fails.
use python_fleet_telemetry.Prelude.{
  ℕ, suc, ◌≡◌, ◌≢◌, refl, Option, none, some, true, false, List, [], Str, inl, inr, Bool-cases,
}
use python_fleet_telemetry.Errors.{ok}
use python_fleet_telemetry.Crypto.{Crypto, IsLawful, stored_names}
use python_fleet_telemetry.Certs.Disk
use python_fleet_telemetry.Certs.Disk.{
  ca_cert_path, ca_key_path, server_cert_path, server_key_path, File, Files, Disk, result, inspect,
  call, exists, read_bytes, mkdir, chmod_directory,
}
use python_fleet_telemetry.Certs.Issue.{load_cert, covers, san_covers, ca_builder}
use python_fleet_telemetry.Certs.Credentials.{
  both_exist, mkdir_private, ca_state, ensure_ca, need_leaf, leaf_covers, renew_leaf, ensure,
  rotate_server_cert,
}
use python_fleet_telemetry.Certs.Trust.{ensure-CaIs}
use python_fleet_telemetry.Certs.Works.{
  no_faults, disk_of, files_of, file_of, CaIssuable, create_ca-works,
}
use python_fleet_telemetry.Certs.Ready.{
  CaSound, LeafSound, SoundFiles, IsSound, ReadyFiles, IsReady, IsUnscoped, Accepts, Done,
  create_leaf-Done,
}

module _ (created : ℕ → ℕ) (crypto : Crypto) (clock : ℕ → ℕ) (lawful : IsLawful crypto) where
  -- A leaf on the disk is kept if it covers the name, and otherwise issued anew.
  leaf_covers-works :
      (cn fqdn : Str) (fc fk s t : File) (c n : ℕ) (h : CaSound created crypto clock fc fk)
      → (l : LeafSound created crypto clock h.ca h.ca_key s t)
      → leaf_covers
          (no_faults created)
          crypto
          clock
          cn
          fqdn
          (disk_of 0o700 (files_of (some fc) (some fk) (some s) (some t)) c n)
        ≡ (
          ok (
              covers
                (no_faults created)
                crypto
                clock
                (stored_names l.builder.alternative_names)
                fqdn),
          disk_of 0o700 (files_of (some fc) (some fk) (some s) (some t)) (suc c) n,
        )
  unfolding leaf_covers load_cert read_bytes call inspect result Disk.◌>>=◌ san_covers
  leaf_covers-works cn fqdn fc fk s t c n h l =
      rw (l.leaf_loads) (rw (lawful.names-sign l.builder h.ca_key l.leaf l.signed) refl)

  module _ (cn fqdn : Str) (ips : List Str) where
    -- A second `ensure` from a ready state changes no file and draws nothing.
    ensure-ready :
        (ck kk sc sk : Option File) (m : Option ℕ) (c n : ℕ)
        → ReadyFiles created crypto clock fqdn ck kk sc sk
        → let (r, d) =
            ensure
              (no_faults created)
              crypto
              clock
              cn
              fqdn
              ips
              (record { directory = m; files = files_of ck kk sc sk; calls = c; drawn = n }) in
          (r ≡ ok tt) × (d.files ≡ files_of ck kk sc sk) × (d.drawn ≡ n)
    unfolding ensure mkdir_private mkdir chmod_directory ensure_ca exists ca_state need_leaf
        both_exist renew_leaf call inspect result Disk.◌>>=◌
    ensure-ready (some fc) (some fk) (some s) (some t) m c n (h, l, covered) =
        rw (leaf_covers-works cn fqdn fc fk s t _ n h l) (rw covered (refl, refl, refl))
    ensure-ready none kk sc sk m c n h = absurd h
    ensure-ready (some fc) none sc sk m c n h = absurd h
    ensure-ready (some fc) (some fk) none sk m c n h = absurd h
    ensure-ready (some fc) (some fk) (some s) none m c n h = absurd h

  module _ (cn fqdn : Str) (ips : List Str) (accepts : Accepts created crypto clock cn fqdn ips)
      (unscoped : IsUnscoped created crypto clock accepts.names) (nonempty : fqdn ≢ []) where
    renewed :
        (fc fk s t : File) (c n : ℕ) (h : CaSound created crypto clock fc fk)
        → LeafSound created crypto clock h.ca h.ca_key s t
        → Done created crypto clock lawful cn fqdn ips accepts unscoped nonempty (
            renew_leaf
              (no_faults created)
              crypto
              clock
              cn
              fqdn
              ips
              false
              (disk_of 0o700 (files_of (some fc) (some fk) (some s) (some t)) c n))
    unfolding renew_leaf result Disk.◌>>=◌
    renewed fc fk s t c n h l =
        rw (leaf_covers-works cn fqdn fc fk s t c n h l)
          (elim (Bool-cases (
            covers (no_faults created) crypto clock (stored_names l.builder.alternative_names)
              fqdn)) [
                | inl yes_ ↦ rw yes_ (refl, refl, (h, l, yes_))
                | inr no_ ↦ rw no_ (
                    create_leaf-Done created crypto clock lawful cn fqdn ips accepts unscoped
                      nonempty fc fk (some s) (some t) (suc c) n h)
              ])

    anew :
        (fc fk : File) (sc sk : Option File) (c n : ℕ)
        → CaSound created crypto clock fc fk
        → Done created crypto clock lawful cn fqdn ips accepts unscoped nonempty (
            renew_leaf
              (no_faults created)
              crypto
              clock
              cn
              fqdn
              ips
              true
              (disk_of 0o700 (files_of (some fc) (some fk) sc sk) c n))
    unfolding renew_leaf
    anew = create_leaf-Done created crypto clock lawful cn fqdn ips accepts unscoped nonempty

    ca_issuable : (n : ℕ) → CaIssuable created crypto clock cn n
    unfolding ca_builder
    ca_issuable n =
        let key = crypto.generate_private_key n in
        let (cert, signed) =
          accepts.signs (ca_builder (no_faults created) crypto clock accepts.ca_name n) key
            (inl refl) in
        record { name = accepts.ca_name; cert = cert; named = accepts.ca_named; signed = signed }

    -- The CA that was just created loads.
    created-CaSound :
        (n : ℕ)
        → CaSound created crypto clock
            (file_of (crypto.public_bytes (ca_issuable n).cert) 0o644)
            (file_of (crypto.private_bytes (crypto.generate_private_key n)) 0o600)
    unfolding ca_issuable ca_builder
    created-CaSound n =
        let i = ca_issuable n in
        let key = crypto.generate_private_key n in
        record {
          ca = i.cert;
          ca_key = key;
          ski = crypto.identifier_of (crypto.public_key key);
          ca_loads = lawful.load-certificate i.cert;
          key_loads = lawful.load-key key;
          identified = lawful.identifier-sign _ key i.cert _ i.signed refl;
        }

    ensure_fields :
        (ck kk sc sk : Option File) (m : Option ℕ) (c n : ℕ)
        → SoundFiles created crypto clock ck kk sc sk
        → Done created crypto clock lawful cn fqdn ips accepts unscoped nonempty (
            ensure
              (no_faults created)
              crypto
              clock
              cn
              fqdn
              ips
              (record { directory = m; files = files_of ck kk sc sk; calls = c; drawn = n }))
    unfolding ensure mkdir_private mkdir chmod_directory ensure_ca exists ca_state need_leaf
        both_exist call inspect result Disk.◌>>=◌
    ensure_fields none none sc sk m c n h =
        rw (create_ca-works created crypto clock cn sc sk _ n (ca_issuable n))
          (anew _ _ sc sk _ (suc n) (created-CaSound n))
    ensure_fields (some fc) (some fk) (some s) (some t) m c n (h, l) = renewed fc fk s t _ n h l
    ensure_fields (some fc) (some fk) none sk m c n h = anew fc fk none sk _ n h
    ensure_fields (some fc) (some fk) (some s) none m c n h = anew fc fk (some s) none _ n h
    ensure_fields (some fc) none sc sk m c n h = absurd h
    ensure_fields none (some fk) sc sk m c n h = absurd h

    -- Where no call of the system fails, the library keeps its laws and accepts the names, none of
    -- which is an IPv6 address with a scope, and `fqdn` is not empty, `ensure` returns from every
    -- sound state: with no CA, whatever else is there, or with a CA that loads and no other leaf
    -- than one it issued. The directory is then private, and the four files are there: the CA
    -- loads, and its leaf belongs to the key beside it and covers `fqdn`.
    pub ensure-IsReady :
        (d : Disk)
        → IsSound created crypto clock d.files
        → let (r, e) = ensure (no_faults created) crypto clock cn fqdn ips d in
          (r ≡ ok tt) × (e.directory ≡ some 0o700) × IsReady created crypto clock fqdn e.files
    ensure-IsReady d h =
        ensure_fields d.files.ca_cert d.files.ca_key d.files.server_cert d.files.server_key
          d.directory d.calls d.drawn h

    -- Where no call of the system fails, the library keeps its laws and accepts the names, none of
    -- which is an IPv6 address with a scope, and `fqdn` is not empty: after an `ensure` from a
    -- sound state a second `ensure` of the same name, with any addresses, returns too, changes no
    -- file and draws no key.
    pub ensure-ensure :
        (more_ips : List Str) (d : Disk)
        → IsSound created crypto clock d.files
        → let e = (ensure (no_faults created) crypto clock cn fqdn ips d).1 in
          let (r, f) = ensure (no_faults created) crypto clock cn fqdn more_ips e in
          (r ≡ ok tt) × (f.files ≡ e.files) × (f.drawn ≡ e.drawn)
    ensure-ensure more_ips d h =
        let e = (ensure (no_faults created) crypto clock cn fqdn ips d).1 in
        let (_, _, ready) = ensure-IsReady d h in
        ensure-ready cn fqdn more_ips e.files.ca_cert e.files.ca_key e.files.server_cert
          e.files.server_key e.directory e.calls e.drawn ready

    rotate_fields :
        (fc fk : File) (sc sk : Option File) (c n : ℕ)
        → CaSound created crypto clock fc fk
        → Done created crypto clock lawful cn fqdn ips accepts unscoped nonempty (
            rotate_server_cert
              (no_faults created)
              crypto
              clock
              cn
              fqdn
              ips
              (disk_of 0o700 (files_of (some fc) (some fk) sc sk) c n))
    unfolding rotate_server_cert both_exist exists call inspect result Disk.◌>>=◌
    rotate_fields fc fk sc sk c n h =
        create_leaf-Done created crypto clock lawful cn fqdn ips accepts unscoped nonempty fc fk sc
          sk _ n h

    -- Where no call of the system fails, the library keeps its laws and accepts the names, none of
    -- which is an IPv6 address with a scope, and `fqdn` is not empty, `rotate_server_cert` in a
    -- private directory with a CA that loads returns, whatever the server files are, and leaves the
    -- directory ready for `fqdn` with the same CA.
    pub rotate_server_cert-IsReady :
        (fc fk : File) (sc sk : Option File) (c n : ℕ)
        → CaSound created crypto clock fc fk
        → let (r, e) =
            rotate_server_cert
              (no_faults created)
              crypto
              clock
              cn
              fqdn
              ips
              (disk_of 0o700 (files_of (some fc) (some fk) sc sk) c n) in
          (r ≡ ok tt)
          × (e.directory ≡ some 0o700)
          × IsReady created crypto clock fqdn e.files
          × (e.files.ca_cert ≡ some fc)
          × (e.files.ca_key ≡ some fk)
    rotate_server_cert-IsReady fc fk sc sk c n h =
        let d = disk_of 0o700 (files_of (some fc) (some fk) sc sk) c n in
        let (r, m, ready) = rotate_fields fc fk sc sk c n h in
        let (_, _, same_cert, same_key) =
          ensure-CaIs (no_faults created) crypto clock cn fqdn ips d refl in
        (r, m, ready, same_cert, same_key)
