-- ===== src/Records/Datetime.antt =====
-- `datetime.fromtimestamp(t, tz=timezone.utc)` of CPython on a platform with a 64-bit `time_t`. An
-- aware UTC datetime is the number of its seconds since the epoch.
use Prim.Native.Nat.{◌^◌}
use python_fleet_telemetry.Prelude.{ℕ, ◌≤◌, ◌≡◌, arith, leb, ltb, codes, if◌then◌else◌}
use python_fleet_telemetry.Errors.{Result, ok, raise, value_error, os_error, overflow_error}

-- 9999-12-31T23:59:59Z, the last second that a `datetime` can hold
abbrev pub last_second : ℕ
last_second = 253402300799

-- the last second whose year `gmtime` can return
abbrev last_gmtime : ℕ
last_gmtime = 67768036191676799

unfoldable pub fromtimestamp : ℕ → Result ℕ
fromtimestamp t =
    if leb t last_second
    then ok t
    else if leb t last_gmtime
    then raise (value_error (codes "year is out of range"))
    else if ltb t (2 ^ 63)
    then raise os_error
    else raise overflow_error

-- Every unsigned 32-bit number of seconds is a datetime.
pub fromtimestamp_u32 : (t : ℕ) → t ≤ 4294967295 → fromtimestamp t ≡ ok t
unfolding fromtimestamp
fromtimestamp_u32 t h = ground arith
