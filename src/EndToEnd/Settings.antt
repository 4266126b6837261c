-- ===== src/EndToEnd/Settings.antt =====
-- examples/end_to_end.py: `_Settings`, `_require`, `_int_env`, `load_settings` and `_env_flag`.
use Prim.Native.Nat.{◌^◌}
use python_fleet_telemetry.Prelude.{
  ℕ, suc, ◌-◌, Bool, Option, none, some, List, [], ◌∷◌, ◌++◌, Str, codes, str_eq, leb, contains,
  if◌then◌else◌,
}
use python_fleet_telemetry.Errors.{Error, Result, ok, raise, overflow_error}
use python_fleet_telemetry.Text.Decimal.{ℤ, pos, negsuc}
use python_fleet_telemetry.Text.Integer.{strip, lower, int}

-- How a function of the program ends: `SystemExit` with a message, another exception, or a value.
pub data Outcome {ℓ} (A : Type ℓ) : Type ℓ where
  exits : Str → Outcome A
  fails : Error → Outcome A
  returns : A → Outcome A

infixl 5 ◌>>=◌
unfoldable pub ◌>>=◌ {κ ℓ} : {A : Type κ} {B : Type ℓ} → Outcome A → (A → Outcome B) → Outcome B
exits message >>= next = exits message
fails e >>= next = fails e
returns a >>= next = next a

-- A call into the library.
abbrev pub lift {ℓ} : {A : Type ℓ} → Result A → Outcome A
lift (raise e) = fails e
lift (ok a) = returns a

-- `_Settings`; `sync_timeout` is the integer that the code converts to a float.
pub record Settings : Type 0 where
  pub access_token : Str
  pub region : Str
  pub vin : Str
  pub fqdn : Str
  pub port : ℤ
  pub cert_dir : Str
  pub sync_timeout : ℤ

abbrev pub valid_regions : List Str
valid_regions = codes "na" ∷ codes "eu" ∷ codes "cn" ∷ []

-- `os.environ.get(name)`, and with a default
abbrev pub Environ : Type 0
Environ = Str → Option Str

abbrev pub or_default : Option Str → Str → Str
or_default none default = default
or_default (some value) default = value

abbrev pub required : Str → Option Str → Outcome Str
required name none = exits (codes "error: environment variable " ++ name ++ codes " is required")
required name (some []) =
    exits (codes "error: environment variable " ++ name ++ codes " is required")
required name (some (c ∷ value)) = returns (c ∷ value)

-- `float(n)` rounds half to even, and overflows from here on.
abbrev pub float_limit : ℕ
float_limit = 2 ^ 1024 - 2 ^ 970

abbrev pub magnitude : ℤ → ℕ
magnitude (pos n) = n
magnitude (negsuc n) = suc n

unfoldable pub float : ℤ → Outcome ℤ
float n = if leb float_limit (magnitude n) then fails overflow_error else returns n

-- the test of `TESLA_REGION`
unfoldable pub region_checked : Str → Outcome Str
region_checked raw =
    if contains valid_regions raw
    then returns raw
    else exits (codes "error: TESLA_REGION must be one of na, eu, cn")

module _ (decimal : ℕ → Option ℕ) (environ : Environ) where
  -- `_require`
  unfoldable pub require : Str → Outcome Str
  require name = required name (environ name)

  abbrev pub converted : Str → Option ℤ → Outcome ℤ
  converted name none = exits (codes "error: " ++ name ++ codes " must be an integer")
  converted name (some n) = returns n

  abbrev pub integer_or : Str → ℤ → Option Str → Outcome ℤ
  integer_or name default none = returns default
  integer_or name default (some []) = returns default
  integer_or name default (some (c ∷ raw)) = converted name (int decimal (c ∷ raw))

  -- `_int_env`
  unfoldable pub int_env : Str → ℤ → Outcome ℤ
  int_env name default = integer_or name default (environ name)

  unfoldable pub load_settings : Outcome Settings
  unfolding region_checked ◌>>=◌
  load_settings = do
    region ← region_checked (or_default (environ (codes "TESLA_REGION")) (codes "na"))
    access_token ← require (codes "TESLA_ACCESS_TOKEN")
    vin ← require (codes "TESLA_VIN")
    fqdn ← require (codes "TELEMETRY_FQDN")
    port ← int_env (codes "TELEMETRY_PORT") (pos 443)
    seconds ← int_env (codes "TELEMETRY_SYNC_TIMEOUT") (pos 120)
    sync_timeout ← float seconds
    returns (record {
      access_token = access_token;
      region = region;
      vin = vin;
      fqdn = fqdn;
      port = port;
      cert_dir =
          or_default (environ (codes "TELEMETRY_CERT_DIR")) (codes "./fleet_telemetry_certs");
      sync_timeout = sync_timeout;
    })

  -- `_env_flag`: no other character than an ASCII letter is lowered to a part of these words.
  unfoldable pub env_flag : Str → Bool
  unfolding strip lower
  env_flag name =
      contains (codes "1" ∷ codes "true" ∷ codes "yes" ∷ codes "on" ∷ [])
        (lower (strip (or_default (environ name) [])))
