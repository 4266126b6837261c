-- ===== src/Certs/Ready.antt =====
-- What `ensure` is for, as predicates on the four files, and that issuing a leaf reaches it.
use python_fleet_telemetry.Prelude.{
  ℕ, ◌≡◌, ◌≢◌, refl, ap, ◌∙◌, Option, none, some, true, false, List, map, [], ◌∷◌, Str, str_eq,
  arith, ◌⊎◌, inl, inr, Option-cases,
}
use python_fleet_telemetry.Errors.{Result, ok, >>=-eq-ok}
use python_fleet_telemetry.Text.Address.{ip_address, address_eq}
use python_fleet_telemetry.Crypto.{
  Crypto, IsLawful, Builder, GeneralName, stored_name, stored_names, dns_name, ip_name,
}
use python_fleet_telemetry.Certs.Disk.{File, Files, Disk}
use python_fleet_telemetry.Certs.Issue.{
  san_general_names, general_name, address_names, covers, dns_values, ip_values, subject_attributes,
  leaf_builder, create_leaf,
}
use python_fleet_telemetry.Certs.Works.{no_faults, disk_of, files_of, Issuable, create_leaf-works}

module _ (created : ℕ → ℕ) (crypto : Crypto) (clock : ℕ → ℕ) where
  open crypto use {
    Certificate, PrivateKey, Name, Identifier, PublicKey, public_key, load_pem_private_key,
    load_pem_certificate, common_name, sign, subject, subject_key_identifier,
  }

  -- Two files of a CA that loads.
  pub record CaSound (fc fk : File) : Type 0 where
    pub ca : Certificate
    pub ca_key : PrivateKey
    pub ski : Identifier
    pub ca_loads : load_pem_certificate fc.content ≡ ok ca
    pub key_loads : load_pem_private_key fk.content ≡ ok (some ca_key)
    pub identified : subject_key_identifier ca ≡ ok ski

  -- Two files of the server: a certificate for the key beside it, that the CA issued and signed and
  -- that is no CA itself.
  pub record LeafSound (ca : Certificate) (ca_key : PrivateKey) (s t : File) : Type 0 where
    pub leaf : Certificate
    pub key : PrivateKey
    pub builder : Builder Name PublicKey Identifier
    pub leaf_loads : load_pem_certificate s.content ≡ ok leaf
    pub key_loads : load_pem_private_key t.content ≡ ok (some key)
    pub signed : sign builder ca_key ≡ ok leaf
    pub issued : builder.issuer_name ≡ subject ca
    pub certified : builder.certified ≡ public_key key
    pub no_ca : builder.ca ≡ false

  -- No CA, whatever else is there; or a CA, and where both server files are there, its leaf.
  abbrev pub SoundFiles : Option File → Option File → Option File → Option File → Type 0
  SoundFiles none none sc sk = Unit
  SoundFiles (some fc) (some fk) (some s) (some t) =
      (h : CaSound fc fk) × LeafSound h.ca h.ca_key s t
  SoundFiles (some fc) (some fk) _ _ = CaSound fc fk
  SoundFiles _ _ sc sk = ⊥

  abbrev pub IsSound : Files → Type 0
  IsSound fs = SoundFiles fs.ca_cert fs.ca_key fs.server_cert fs.server_key

  -- All four files are there, sound, and the leaf covers the name.
  abbrev pub ReadyFiles : Str → Option File → Option File → Option File → Option File → Type 0
  ReadyFiles fqdn (some fc) (some fk) (some s) (some t) =
      (h : CaSound fc fk) × (l : LeafSound h.ca h.ca_key s t) × (covers (no_faults created) crypto
          clock (stored_names l.builder.alternative_names) fqdn
        ≡ true)
  ReadyFiles fqdn _ _ _ _ = ⊥

  abbrev pub IsReady : Str → Files → Type 0
  IsReady fqdn fs = ReadyFiles fqdn fs.ca_cert fs.ca_key fs.server_cert fs.server_key

  -- Each name is read back from a certificate as it was written: none is an IPv6 address with a
  -- scope, which the library takes and of which it writes the address alone.
  abbrev pub IsUnscoped : List GeneralName → Type 0
  IsUnscoped names = map stored_name names ≡ names

  -- The library takes the names, and it signs what carries them or no alternative names.
  pub record Accepts (cn fqdn : Str) (ips : List Str) : Type 0 where
    pub ca_name : Name
    pub ca_named : common_name (cn ∷ []) ≡ ok ca_name
    pub name : Name
    pub named : common_name (subject_attributes (no_faults created) crypto clock fqdn) ≡ ok name
    pub names : List GeneralName
    pub alternatives : san_general_names (no_faults created) crypto clock fqdn ips ≡ ok names
    pub signs :
        (b : Builder Name PublicKey Identifier) (k : PrivateKey)
        → (b.alternative_names ≡ none) ⊎ (b.alternative_names ≡ some names)
        → (x : Certificate) × (sign b k ≡ ok x)

  -- The names of a leaf for `fqdn` cover `fqdn`.
  general_name-covers :
      (fqdn : Str) (name : GeneralName) (names : List GeneralName)
      → general_name (no_faults created) crypto clock fqdn ≡ ok name
      → covers (no_faults created) crypto clock (some (name ∷ names)) fqdn ≡ true
  unfolding general_name covers dns_values ip_values
  general_name-covers fqdn name names h = elim (Option-cases (ip_address fqdn)) [
    | inl dns ↦
        let (_, _, e) = >>=-eq-ok (crypto.check_dns_name fqdn) _ (rw (dns, general_name) at h) in
        let named : name ≡ dns_name fqdn = cc in rw named (rw (dns, covers) (ground arith))
    | inr (a, ip) ↦
        let named : name ≡ ip_name a = ground arith in rw named (rw (ip, covers) (ground arith))
  ]

  covers-san :
      (fqdn : Str) (ips : List Str) (names : List GeneralName)
      → san_general_names (no_faults created) crypto clock fqdn ips ≡ ok names
      → covers (no_faults created) crypto clock (some names) fqdn ≡ true
  unfolding san_general_names
  covers-san fqdn ips names h =
      let (name, first, h') = >>=-eq-ok (general_name (no_faults created) crypto clock fqdn) _ h in
      let (rest, _, e) = >>=-eq-ok (address_names (no_faults created) crypto clock ips) _ h' in
      let whole : names ≡ name ∷ rest = cc in rw whole (general_name-covers fqdn name rest first)

  module _ (lawful : IsLawful crypto) (cn fqdn : Str) (ips : List Str)
      (accepts : Accepts cn fqdn ips) (unscoped : IsUnscoped accepts.names)
      (nonempty : fqdn ≢ []) where
    issuable :
        (fc fk : File) (n : ℕ) → CaSound fc fk → Issuable created crypto clock fc fk fqdn ips n
    unfolding leaf_builder
    issuable fc fk n h =
        let (leaf, signed) =
          accepts.signs
            (leaf_builder (no_faults created) crypto clock h.ca h.ski accepts.name accepts.names n)
            h.ca_key (inr refl) in
        record {
          ca = h.ca;
          ca_key = h.ca_key;
          ski = h.ski;
          name = accepts.name;
          names = accepts.names;
          leaf = leaf;
          ca_loads = h.ca_loads;
          key_loads = h.key_loads;
          identified = h.identified;
          named = accepts.named;
          alternatives = accepts.alternatives;
          signed = signed;
        }

    abbrev pub Done : Result (Unit {0}) × Disk → Type 0
    Done (r, d) = (r ≡ ok tt) × (d.directory ≡ some 0o700) × IsReady fqdn d.files

    -- Issuing a leaf from a sound CA leaves the directory ready.
    pub create_leaf-Done :
        (fc fk : File) (sc sk : Option File) (c n : ℕ)
        → CaSound fc fk
        → Done (
            create_leaf
              (no_faults created)
              crypto
              clock
              fqdn
              ips
              (disk_of 0o700 (files_of (some fc) (some fk) sc sk) c n))
    unfolding leaf_builder issuable
    create_leaf-Done fc fk sc sk c n h =
        let i = issuable fc fk n h in
        let (e, m, fs, _) =
          create_leaf-works created crypto clock fc fk sc sk fqdn ips c n i nonempty in
        (
          e,
          m,
          rw fs (
            h,
            record {
              leaf = i.leaf;
              key = crypto.generate_private_key n;
              builder =
                  leaf_builder (no_faults created) crypto clock h.ca h.ski accepts.name
                    accepts.names n;
              leaf_loads = lawful.load-certificate i.leaf;
              key_loads = lawful.load-key (crypto.generate_private_key n);
              signed = i.signed;
              issued = refl;
              certified = refl;
              no_ca = refl;
            },
            ap (λ names. covers (no_faults created) crypto clock (some names) fqdn) unscoped
                ∙ covers-san fqdn ips accepts.names accepts.alternatives,
          ),
        )
