-- ===== src/Text/Integer.antt =====
-- `str.strip`, `str.lower` as far as ASCII letters go, and `int` of a `str` in base 10.
use python_fleet_telemetry.Prelude.{
  ℕ, zero, suc, ◌+◌, Bool, ◌&&◌, ◌||◌, Option, none, some, List, [], ◌∷◌, ◌++◌, Str, ◌==◌, str_eq,
  nat_eq, leb, contains, if◌then◌else◌,
}
use python_fleet_telemetry.Prelude.Lists.{length}
use python_fleet_telemetry.Text.Address.{each, and_then, split, decimal_digit, number}
use python_fleet_telemetry.Text.Decimal.{ℤ, pos, negsuc}

-- `str.isspace` of a character
abbrev pub is_space : ℕ → Bool
is_space c =
    leb 9 c && leb c 13
    || leb 28 c && leb c 32
    || leb 8192 c && leb c 8202
    || contains (133 ∷ 160 ∷ 5760 ∷ 8232 ∷ 8233 ∷ 8239 ∷ 8287 ∷ 12288 ∷ []) c

-- what `int` skips around the digits: of the ASCII characters, only those of C's `isspace`
abbrev pub is_int_space : ℕ → Bool
is_int_space c = is_space c && (leb c 27 || leb 32 c)

-- Without the characters of the class at the start, and at the end.
unfoldable pub lstrip : (ℕ → Bool) → Str → Str
lstrip skipped [] = []
lstrip skipped (c ∷ s) = let rest = lstrip skipped s in if skipped c then rest else c ∷ s

unfoldable pub rstrip : (ℕ → Bool) → Str → Str
rstrip skipped [] = []
rstrip skipped (c ∷ s) =
    let rest = rstrip skipped s in if skipped c && rest == [] then [] else c ∷ rest

-- `s.strip()`
unfoldable pub strip : Str → Str
unfolding lstrip rstrip
strip s = rstrip is_space (lstrip is_space s)

-- `c.lower()` of an ASCII letter; any other character is kept.
abbrev lower_character : ℕ → ℕ
lower_character c = if leb b'A' c && leb c b'Z' then c + 32 else c

unfoldable pub lower : Str → Str
lower [] = []
lower (c ∷ s) = lower_character c ∷ lower s

-- CPython refuses to convert longer texts.
abbrev pub max_str_digits : ℕ
max_str_digits = 4300

-- The argument is `unicodedata.decimal` of a character that is not an ASCII digit.
module _ (decimal : ℕ → Option ℕ) where
  abbrev digit : ℕ → Option ℕ
  digit c = elim (decimal_digit c) [ some d ↦ some d | none ↦ decimal c ]

  -- the digits between two underscores, of which there is at least one
  abbrev group : Str → Option (List ℕ)
  group [] = none
  group (c ∷ s) = each digit (c ∷ s)

  unfoldable pub concat : List (List ℕ) → List ℕ
  concat [] = []
  concat (ds ∷ rest) = ds ++ concat rest

  unfoldable pub natural : Str → Option ℕ
  unfolding split number concat
  natural s = and_then (each group (split b'_' s)) λ groups.
      if leb (length (concat groups)) max_str_digits
      then some (number 10 0 (concat groups))
      else none

  abbrev negated : ℕ → ℤ
  negated zero = pos 0
  negated (suc n) = negsuc n

  unfoldable pub signed : Str → Option ℤ
  unfolding natural
  signed [] = none
  signed (c ∷ s) =
      if c == b'-'
      then and_then (natural s) (λ n. some (negated n))
      else if c == b'+'
      then and_then (natural s) (λ n. some (pos n))
      else and_then (natural (c ∷ s)) (λ n. some (pos n))

  -- `int(s)`, or `none` for its ValueError
  unfoldable pub int : Str → Option ℤ
  unfolding signed lstrip rstrip
  int s = signed (rstrip is_int_space (lstrip is_int_space s))
