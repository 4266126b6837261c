-- ===== src/Text/Utf8.antt =====
-- `bytes.decode(errors="replace")` and `str.replace` of one character, of Python's `str` and
-- `bytes`.
use python_fleet_telemetry.Prelude.{
  ℕ, zero, suc, ◌+◌, ◌-◌, ◌*◌, ◌&&◌, List, [], ◌∷◌, ◌++◌, Str, Bytes, ltb, leb, ◌==◌, nat_eq,
  if◌then◌else◌,
}

abbrev pub replacement : ℕ
replacement = 0xFFFD

-- What the UTF-8 decoder keeps in the middle of a character: the range of the next byte, and the
-- bits so far. A sequence that breaks off is replaced as soon as it cannot go on (its maximal part
-- that could begin a character is one U+FFFD), and the byte that broke it is read anew.
pub record Pending : Type 0 where
  pub lower : ℕ
  pub upper : ℕ
  pub bits : ℕ

-- The output, the number of continuation bytes that are still wanted, and what is pending.
abbrev pub Progress : Type 0
Progress = List ℕ × ℕ × Pending

abbrev pub idle : Pending
idle = record { lower = 0x80; upper = 0xBF; bits = 0 }

unfoldable pub lead : ℕ → Progress
lead b =
    if ltb b 0x80
    then (b ∷ [], 0, idle)
    else if leb 0xC2 b && leb b 0xDF
    then ([], 1, record { lower = 0x80; upper = 0xBF; bits = b - 0xC0 })
    else if leb 0xE0 b && leb b 0xEF
    then (
      [],
      2,
      record {
        lower = if b == 0xE0 then 0xA0 else 0x80;
        upper = if b == 0xED then 0x9F else 0xBF;
        bits = b - 0xE0;
      },
    )
    else if leb 0xF0 b && leb b 0xF4
    then (
      [],
      3,
      record {
        lower = if b == 0xF0 then 0x90 else 0x80;
        upper = if b == 0xF4 then 0x8F else 0xBF;
        bits = b - 0xF0;
      },
    )
    else (replacement ∷ [], 0, idle)

-- A continuation byte, after which `left` more are wanted.
unfoldable pub continue : Pending → ℕ → ℕ → Progress
continue p zero b = ((p.bits * 64 + (b - 0x80)) ∷ [], 0, idle)
continue p (suc left) b =
    ([], suc left, record { lower = 0x80; upper = 0xBF; bits = p.bits * 64 + (b - 0x80) })

restart : Progress → Progress
restart (out, wanted, p) = (replacement ∷ out, wanted, p)

unfoldable pub feed : ℕ → Pending → ℕ → Progress
unfolding restart
feed zero p b = lead b
feed (suc left) p b = if leb p.lower b && leb b p.upper then continue p left b else restart (lead b)

unfoldable pub decode_from : ℕ → Pending → Bytes → Str
decode_from zero p [] = []
decode_from (suc left) p [] = replacement ∷ []
decode_from wanted p (b ∷ bs) =
    let (out, wanted', p') = feed wanted p b in out ++ decode_from wanted' p' bs

-- `bs.decode(errors="replace")`
unfoldable pub decode : Bytes → Str
unfolding decode_from feed lead continue nat_eq
decode bs = decode_from 0 idle bs

-- `s.replace(old, new)` for single characters
unfoldable pub replace : ℕ → ℕ → Str → Str
replace old new [] = []
replace old new (c ∷ s) = (if c == old then new else c) ∷ replace old new s
