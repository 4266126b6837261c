-- ===== src/Errors.antt =====
-- Python's exceptions as values, for `raise`, `try` and `except`.
use python_fleet_telemetry.Prelude.{◌≡◌, refl, ◌⊎◌, inl, inr, Bool, true, false, Str, ℕ}

-- The exception classes that the program raises or names. `other` is any other `Exception`, and
-- `cancelled` is a
-- `BaseException` that is no `Exception`, such as `asyncio.CancelledError`.
pub data Error : Type 0 where
  value_error envelope_error unauthorized_certificate file_not_found : Str → Error
  decode_error os_error connection_error overflow_error type_error assertion_error : Error
  stop_async_iteration queue_full queue_empty : Error
  other : ℕ → Error
  cancelled : Error

-- The tests of `except`, on the class and its subclasses.
abbrev pub is_exception : Error → Bool
is_exception cancelled = false
is_exception _ = true

abbrev pub is_value_error : Error → Bool
is_value_error (value_error _) = true
is_value_error (envelope_error _) = true
is_value_error (unauthorized_certificate _) = true
is_value_error _ = false

abbrev pub is_envelope_error : Error → Bool
is_envelope_error (envelope_error _) = true
is_envelope_error _ = false

abbrev pub is_connection_error : Error → Bool
is_connection_error connection_error = true
is_connection_error _ = false

abbrev pub is_os_error : Error → Bool
is_os_error os_error = true
is_os_error connection_error = true
is_os_error (file_not_found _) = true
is_os_error _ = false

abbrev pub is_decode_error : Error → Bool
is_decode_error decode_error = true
is_decode_error _ = false

abbrev pub is_overflow_error : Error → Bool
is_overflow_error overflow_error = true
is_overflow_error _ = false

-- How a call ends: by an exception, or with a value.
pub data Result {ℓ} (A : Type ℓ) : Type ℓ where
  raise : Error → Result A
  ok : A → Result A

-- What follows a call, which an exception skips.
abbrev pub ◌>>=◌ {κ ℓ} :
    {A : Type κ} → {B : Type ℓ} (call : Result A) (next : A → Result B) → Result B
raise e >>= next = raise e
ok value >>= next = next value

infixl 5 ◌>>=◌
-- How `try: … finally: …` ends, by how its two parts do: an error in `finally` takes the place of
-- the other.
unfoldable pub finally : Result (Unit {0}) → Result (Unit {0}) → Result (Unit {0})
finally own (ok _) = own
finally own (raise e) = raise e

-- What returned went on from a first call that returned.
pub >>=-eq-ok {κ ℓ} :
    {A : Type κ} {B : Type ℓ} (call : Result A) (next : A → Result B) {value : B}
    → (call >>= next) ≡ ok value
    → (first : A) × (call ≡ ok first) × (next first ≡ ok value)
>>=-eq-ok (raise e) next returned = cc
>>=-eq-ok (ok first) next returned = (first, refl, returned)

-- To split on a result and keep the equation.
pub Result-cases {ℓ} :
    {A : Type ℓ} (m : Result A) → ((a : A) × (m ≡ ok a)) ⊎ ((e : Error) × (m ≡ raise e))
Result-cases (ok a) = inl (a, refl)
Result-cases (raise e) = inr (e, refl)

-- A bind that raises has a part that raised.
pub >>=-eq-raise {ℓ κ} :
    {A : Type ℓ} {B : Type κ} (m : Result A) (f : A → Result B) {e : Error}
    → (m >>= f) ≡ raise e
    → (m ≡ raise e) ⊎ ((a : A) × (m ≡ ok a) × (f a ≡ raise e))
>>=-eq-raise (ok a) f h = inr (a, refl, h)
>>=-eq-raise (raise e) f h = inl cc

-- No error, or one that is no `Exception`.
abbrev pub IsQuiet {ℓ} : {A : Type ℓ} → Result A → Type 0
IsQuiet (ok a) = Unit
IsQuiet (raise e) = is_exception e ≡ false
