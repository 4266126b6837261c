-- ===== src/Text.antt =====
-- What the program takes from Python's `str` and `bytes`: `bytes.decode(errors="replace")`,
-- `str.replace` of one character, `str.strip`, `str(int)`, `int(str)` and
-- `ipaddress.ip_address`.
pub mod Utf8
pub mod Ascii
pub mod Decimal
pub mod Address
pub mod Integer
