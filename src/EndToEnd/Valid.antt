-- ===== src/EndToEnd/Valid.antt =====
-- What `load_settings` of examples/end_to_end.py returns.
use python_fleet_telemetry.Prelude.{
  ℕ, ◌≡◌, ◌≢◌, subst, arith, Bool-cases, inl, inr, true, Option, some, none, [], ◌∷◌, Str, codes,
  contains, str_eq,
}
use python_fleet_telemetry.EndToEnd.Settings.{
  Settings, Outcome, exits, fails, returns, ◌>>=◌, Environ, or_default, required, valid_regions,
  region_checked, require, int_env, float, load_settings,
}
use python_fleet_telemetry.Text.Decimal.{pos}

-- What holds of the value, if there is one.
abbrev Ensures : {A : Type 0} → (A → Type 0) → Outcome A → Type 0
Ensures P (exits m) = Unit
Ensures P (fails e) = Unit
Ensures P (returns a) = P a

required-Ensures : (name : Str) (o : Option Str) → Ensures (λ v. v ≢ []) (required name o)
required-Ensures name none = tt
required-Ensures name (some []) = tt
required-Ensures name (some (c ∷ s)) = λ e. ground arith

require-Ensures :
    (decimal : ℕ → Option ℕ) (environ : Environ) (name : Str)
    → Ensures (λ v. v ≢ []) (require decimal environ name)
unfolding require
require-Ensures decimal environ name = required-Ensures name (environ name)

abbrev IsRegion : Str → Type 0
IsRegion r = contains valid_regions r ≡ true

region_checked-Ensures : (raw : Str) → Ensures IsRegion (region_checked raw)
unfolding region_checked
region_checked-Ensures raw = elim (Bool-cases (contains valid_regions raw)) [
  | inl yes_ ↦ rw yes_ yes_
  | inr no_ ↦ rw no_ tt
]

-- A bind that returned has parts that returned, and the first one ensured what it does.
>>=-Ensures :
    {A B : Type 0} (P : A → Type 0) (o : Outcome A) (next : A → Outcome B) {b : B}
    → Ensures P o
    → (o >>= next) ≡ returns b
    → (a : A) × P a × (next a ≡ returns b)
unfolding ◌>>=◌
>>=-Ensures P (exits m) next p h = absurd cc
>>=-Ensures P (fails e) next p h = absurd cc
>>=-Ensures P (returns a) next p h = (a, p, h)

any-Ensures : {A : Type 0} (o : Outcome A) → Ensures (λ _. Unit) o
any-Ensures (exits m) = tt
any-Ensures (fails e) = tt
any-Ensures (returns a) = tt

abbrev IsUsable : Settings → Type 0
IsUsable s = IsRegion s.region × (s.access_token ≢ []) × (s.vin ≢ []) × (s.fqdn ≢ [])

-- The settings that `load_settings` returns have one of the three regions, and their token, VIN and
-- host name are not empty.
pub load_settings-IsUsable :
    (decimal : ℕ → Option ℕ) (environ : Environ) (s : Settings)
    → load_settings decimal environ ≡ returns s
    → (contains valid_regions s.region ≡ true)
      × (s.access_token ≢ [])
      × (s.vin ≢ [])
      × (s.fqdn ≢ [])
unfolding load_settings
load_settings-IsUsable decimal environ s h =
    let raw = or_default (environ (codes "TESLA_REGION")) (codes "na") in
    let (region, valid, h1) =
      >>=-Ensures IsRegion (region_checked raw) _ (region_checked-Ensures raw) h in
    let (token, some_token, h2) =
      >>=-Ensures (λ v. v ≢ []) (require decimal environ (codes "TESLA_ACCESS_TOKEN")) _
        (require-Ensures decimal environ (codes "TESLA_ACCESS_TOKEN")) h1 in
    let (vin, some_vin, h3) =
      >>=-Ensures (λ v. v ≢ []) (require decimal environ (codes "TESLA_VIN")) _
        (require-Ensures decimal environ (codes "TESLA_VIN")) h2 in
    let (fqdn, some_fqdn, h4) =
      >>=-Ensures (λ v. v ≢ []) (require decimal environ (codes "TELEMETRY_FQDN")) _
        (require-Ensures decimal environ (codes "TELEMETRY_FQDN")) h3 in
    let (port, _, h5) =
      >>=-Ensures (λ _. Unit) (int_env decimal environ (codes "TELEMETRY_PORT") (pos 443)) _
        (any-Ensures _) h4 in
    let (seconds, _, h6) =
      >>=-Ensures (λ _. Unit) (int_env decimal environ (codes "TELEMETRY_SYNC_TIMEOUT") (pos 120)) _
        (any-Ensures _) h5 in
    let (sync_timeout, _, e) = >>=-Ensures (λ _. Unit) (float seconds) _ (any-Ensures _) h6 in
    let usable : IsUsable (record {
      access_token = token;
      region = region;
      vin = vin;
      fqdn = fqdn;
      port = port;
      cert_dir =
          or_default (environ (codes "TELEMETRY_CERT_DIR")) (codes "./fleet_telemetry_certs");
      sync_timeout = sync_timeout;
    }) =
      (valid, some_token, some_vin, some_fqdn) in
    subst (Ensures IsUsable) e usable
