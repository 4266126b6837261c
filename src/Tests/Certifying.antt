-- ===== src/Tests/Certifying.antt =====
-- `ServerCredentials` at concrete directories, and what holds of it there.
use python_fleet_telemetry.Prelude.{
  ℕ, ◌≡◌, ◌≢◌, refl, ◌⊎◌, inl, inr, true, ◌==◌, nat_eq, Option, none, some, [], ◌∷◌, Str, Bytes,
  codes, if◌then◌else◌, str_eq,
}
use python_fleet_telemetry.Errors.{ok, raise, os_error, value_error}
use python_fleet_telemetry.Text.Address
use python_fleet_telemetry.Text.Address.{ip_address}
use python_fleet_telemetry.Crypto.{Builder, dns_name}
use python_fleet_telemetry.Certs.Disk.{File, Files, Disk, System}
use python_fleet_telemetry.Certs.Issue.{
  ca_builder, san_general_names, general_name, address_names, covers, dns_values,
}
use python_fleet_telemetry.Certs.Credentials.{default_ca_common_name, ensure, rotate_server_cert}
use python_fleet_telemetry.Certs.Works.{no_faults, disk_of, files_of, file_of, CaIssuable}
use python_fleet_telemetry.Certs.Ready.{CaSound, IsUnscoped, Accepts, IsReady}
use python_fleet_telemetry.Certs.Trust.{ensure-CaIs}
use python_fleet_telemetry.Certs.Private.{KeysPrivate, ensure-KeysPrivate}
use python_fleet_telemetry.Certs.Ensure.{ensure-IsReady, ensure-ensure, rotate_server_cert-IsReady}
use python_fleet_telemetry.Certs.Stale.{LeafNames, ensure-KeepsStale}
use python_fleet_telemetry.Tests.Keys.{identifier_code, small_crypto, small_crypto-IsLawful}

abbrev pub no_umask : ℕ → ℕ
no_umask mode = mode

abbrev pub ticking : ℕ → ℕ
ticking n = n

abbrev pub host : Str
host = codes "h.example"

abbrev cn : Str
cn = default_ca_common_name

abbrev disk_with : Files → Disk
disk_with fs = record { directory = none; files = fs; calls = 0; drawn = 0 }

abbrev pub fresh : Disk
fresh = disk_with (files_of none none none none)

abbrev ca_file : Option File
ca_file = some (file_of (0 ∷ 31 ∷ 8 ∷ []) 0o644)

abbrev key_file : Option File
key_file = some (file_of (7 ∷ []) 0o600)

abbrev with_ca : Disk
with_ca = disk_with (files_of ca_file key_file none none)

-- The disk is full at the ninth call, the write of `server.key`.
abbrev full : System
full = record { fault = λ n. if n == 8 then some (os_error, 0) else none; created = no_umask }

-- The library signs what carries one DNS name.
small_signs :
    (b : Builder ℕ ℕ ℕ) (k : ℕ)
    → (b.alternative_names ≡ none) ⊎ (b.alternative_names ≡ some (dns_name host ∷ []))
    → (x : Bytes) × (small_crypto.sign b k ≡ ok x)
small_signs b k (inl e) = (0 ∷ b.subject_name ∷ identifier_code b.subject_key ∷ [], rw e refl)
small_signs b k (inr e) = (1 ∷ b.subject_name ∷ identifier_code b.subject_key ∷ host, rw e refl)

ensure-CaIs_example :
    let e = (ensure full small_crypto ticking cn host [] with_ca).1.files in
    let r = (rotate_server_cert full small_crypto ticking cn host [] with_ca).1.files in
    (e.ca_cert ≡ ca_file) × (e.ca_key ≡ key_file) × (r.ca_cert ≡ ca_file) × (r.ca_key ≡ key_file)
ensure-CaIs_example = ensure-CaIs full small_crypto ticking cn host [] with_ca refl

ensure-KeysPrivate_example :
    KeysPrivate (ensure full small_crypto ticking cn host [] with_ca).1.files
    × KeysPrivate (rotate_server_cert full small_crypto ticking cn host [] with_ca).1.files
ensure-KeysPrivate_example =
    ensure-KeysPrivate full refl small_crypto ticking cn host [] with_ca (refl, tt)

host_names :
    san_general_names (no_faults no_umask) small_crypto ticking host [] ≡ ok (dns_name host ∷ [])
unfolding san_general_names general_name address_names ip_address nat_eq str_eq Address.ipv4
    Address.ipv6_number
host_names = refl

host_covered :
    covers (no_faults no_umask) small_crypto ticking (some (dns_name host ∷ [])) host ≡ true
unfolding covers dns_values ip_address nat_eq str_eq Address.ipv4 Address.ipv6_number
host_covered = refl

-- The stand-in takes the names of the host.
pub host_accepted : Accepts no_umask small_crypto ticking cn host []
host_accepted = record {
  ca_name = 31;
  ca_named = refl;
  name = 10;
  named = refl;
  names = dns_name host ∷ [];
  alternatives = host_names;
  signs = small_signs;
}

pub host-IsUnscoped : IsUnscoped no_umask small_crypto ticking host_accepted.names
unfolding host_accepted
host-IsUnscoped = refl

pub host_nonempty : host ≢ []
host_nonempty = λ e. cc

ensure-IsReady_example :
    let (r, e) = ensure (no_faults no_umask) small_crypto ticking cn host [] fresh in
    (r ≡ ok tt) × (e.directory ≡ some 0o700) × IsReady no_umask small_crypto ticking host e.files
ensure-IsReady_example =
    ensure-IsReady no_umask small_crypto ticking small_crypto-IsLawful cn host [] host_accepted
      host-IsUnscoped host_nonempty fresh tt

ensure-ensure_example :
    let e = (ensure (no_faults no_umask) small_crypto ticking cn host [] fresh).1 in
    let (r, f) =
      ensure (no_faults no_umask) small_crypto ticking cn host (codes "10.0.0.1" ∷ []) e in
    (r ≡ ok tt) × (f.files ≡ e.files) × (f.drawn ≡ e.drawn)
ensure-ensure_example =
    ensure-ensure no_umask small_crypto ticking small_crypto-IsLawful cn host [] host_accepted
      host-IsUnscoped host_nonempty (codes "10.0.0.1" ∷ []) fresh tt

abbrev old_leaf : File
old_leaf = file_of (1 ∷ 10 ∷ 0 ∷ host) 0o644

abbrev ca_content : File
ca_content = file_of (0 ∷ 31 ∷ 8 ∷ []) 0o644

abbrev key_content : File
key_content = file_of (7 ∷ []) 0o600

ca_sound : CaSound no_umask small_crypto ticking ca_content key_content
ca_sound = record {
  ca = ca_content.content;
  ca_key = 7;
  ski = 7;
  ca_loads = refl;
  key_loads = refl;
  identified = refl;
}

-- The server files are those of another key.
rotate_server_cert-IsReady_example :
    let (r, e) =
      rotate_server_cert
        (no_faults no_umask)
        small_crypto
        ticking
        cn
        host
        []
        (disk_of 0o700 (files_of ca_file key_file (some old_leaf) none) 3 5) in
    (r ≡ ok tt)
    × (e.directory ≡ some 0o700)
    × IsReady no_umask small_crypto ticking host e.files
    × (e.files.ca_cert ≡ ca_file)
    × (e.files.ca_key ≡ key_file)
rotate_server_cert-IsReady_example =
    rotate_server_cert-IsReady no_umask small_crypto ticking small_crypto-IsLawful cn host []
      host_accepted host-IsUnscoped host_nonempty ca_content key_content (some old_leaf) none 3 5
      ca_sound

abbrev old_key : File
old_key = file_of (9 ∷ []) 0o600

new_ca : CaIssuable no_umask small_crypto ticking cn 0
unfolding ca_builder
new_ca = record { name = 31; cert = 0 ∷ 31 ∷ 8 ∷ []; named = refl; signed = refl }

old_names : LeafNames no_umask small_crypto ticking cn host old_leaf
old_names = record {
  leaf = old_leaf.content;
  names = some (dns_name host ∷ []);
  leaf_loads = refl;
  names_read = refl;
  covering = host_covered;
}

ensure-KeepsStale_example :
    let (r, e) = ensure (no_faults no_umask) small_crypto ticking cn [] [] (record {
      directory = none;
      files = files_of none none (some old_leaf) (some old_key);
      calls = 0;
      drawn = 0;
    }) in
    let (r', f) = ensure (no_faults no_umask) small_crypto ticking cn host [] e in
    (r ≡ raise (value_error (codes "fqdn must be a non-empty hostname or IP literal")))
    × (e.files ≡ files_of ca_file key_file (some old_leaf) (some old_key))
    × (r' ≡ ok tt)
    × (f.files ≡ e.files)
unfolding new_ca
ensure-KeepsStale_example =
    ensure-KeepsStale no_umask small_crypto ticking cn host [] old_leaf old_key none 0 0 new_ca
      old_names
