-- ===== src/Text/Ascii.antt =====
-- Decoding and ASCII: an ASCII text is the decoding of its own bytes and of no others.
use python_fleet_telemetry.Prelude.{
  ℕ, zero, suc, ◌+◌, ◌-◌, ◌*◌, ◌≤◌, ◌<◌, ◌≡◌, ◌↔◌, ◌⊎◌, inl, inr, ◌&&◌, refl, sym, ap, ◌∙◌, Str,
  Bytes, [], ◌∷◌, ◌++◌, arith, ltb, leb, lt→ltb, Bool-cases, nat_eq,
}
use python_fleet_telemetry.Prelude.Lists.{All}
use python_fleet_telemetry.Text.Utf8.{
  replacement, Pending, Progress, idle, lead, continue, feed, decode_from, decode,
}

abbrev pub IsAscii : ℕ → Type 0
IsAscii c = c < 128

-- What is pending will become a character that is not ASCII.
record IsWide (wanted : ℕ) (p : Pending) : Type 0 where
  low : 128 ≤ p.lower
  wide : 2 ≤ p.bits * 64 + (p.lower - 128)
  last : wanted ≡ 1 → 2 ≤ p.bits

-- The output is not ASCII, or a character is pending that will not be.
abbrev Escapes : Progress → Type 0
Escapes (out, wanted, p) =
    (¬ All IsAscii out) ⊎ ((left : ℕ) × (out ≡ []) × (wanted ≡ suc left) × IsWide wanted p)

not-IsAscii : (c : ℕ) (out : Str) → 128 ≤ c → ¬ All IsAscii (c ∷ out)
not-IsAscii c out h a = omega arith

lead_cases : (b : ℕ) → (lead b ≡ (b ∷ [], 0, idle)) ⊎ Escapes (lead b)
unfolding lead nat_eq
lead_cases b = elim (Bool-cases (ltb b 0x80)) [
  | inl one ↦ inl (rw one)
  | inr many ↦ inr (
      rw many (elim (Bool-cases (leb 0xC2 b && leb b 0xDF)) [
        | inl two ↦ rw two (inr (0, refl, refl, ground arith))
        | inr other ↦ rw other (elim (Bool-cases (leb 0xE0 b && leb b 0xEF)) [
          | inl three ↦ rw three (inr (1, refl, refl, ground arith))
          | inr other' ↦ rw other' (elim (Bool-cases (leb 0xF0 b && leb b 0xF4)) [
            | inl four ↦ rw four (inr (2, refl, refl, ground arith))
            | inr none ↦ rw none (inl (not-IsAscii replacement [] (omega arith)))
          ])
        ])
      ]))
]

continue-Escapes :
    (left b : ℕ) (p : Pending) → IsWide (suc left) p → p.lower ≤ b → Escapes (continue p left b)
unfolding continue
continue-Escapes zero b p w h =
    let two : 2 ≤ p.bits = w.last refl in inl (not-IsAscii _ [] (omega arith))
continue-Escapes (suc left) b p w h =
    let more : IsWide (suc left)
        (record { lower = 0x80; upper = 0xBF; bits = p.bits * 64 + (b - 0x80) }) =
      record { low = omega arith; wide = omega arith; last = λ _. omega arith } in
    inr (left, refl, refl, more)

feed-Escapes : (left b : ℕ) (p : Pending) → IsWide (suc left) p → Escapes (feed (suc left) p b)
unfolding feed
feed-Escapes left b p w = elim (Bool-cases (leb p.lower b && leb b p.upper)) [
  | inr broken ↦ rw broken (inl (not-IsAscii replacement (lead b).0 (omega arith)))
  | inl taken ↦ rw taken (continue-Escapes left b p w (ground arith))
]

All-prefix : (xs ys : Str) → All IsAscii (xs ++ ys) → All IsAscii xs
All-prefix [] ys a = tt
All-prefix (x ∷ xs) ys a = (a.0, All-prefix xs ys a.1)

-- A decoding that goes on from an escape is not ASCII.
after_escape :
    (bs : Bytes) (r : Progress)
    → ((left : ℕ) (p : Pending) → IsWide (suc left) p → ¬ All IsAscii (decode_from (suc left) p bs))
    → Escapes r
    → ¬ All IsAscii (r.0 ++ decode_from r.1 r.2 bs)
after_escape bs (out, wanted, p) ih (inl bad) a = bad (All-prefix out _ a)
after_escape bs (out, wanted, p) ih (inr (left, e, more, w)) a =
    ih left p (rw more at w) (rw (e, more) at a)

escapes :
    (bs : Bytes) (left : ℕ) (p : Pending)
    → IsWide (suc left) p
    → ¬ All IsAscii (decode_from (suc left) p bs)
unfolding decode_from
escapes [] left p w a = omega arith
escapes (b ∷ bs) left p w a =
    after_escape bs (feed (suc left) p b) (escapes bs) (feed-Escapes left b p w) a

from_idle : (bs : Bytes) → All IsAscii (decode_from 0 idle bs) → decode_from 0 idle bs ≡ bs
unfolding decode_from feed
from_idle [] a = refl
from_idle (b ∷ bs) a = elim (lead_cases b) [
  | inl e ↦ rw e (
      ap (λ (s : Str). b ∷ s)
        (from_idle bs (let a' : All IsAscii (b ∷ decode_from 0 idle bs) = rw e at a in a'.1)))
  | inr e ↦ absurd (after_escape bs (lead b) (escapes bs) e a)
]

from_ascii : (bs : Bytes) → All IsAscii bs → decode_from 0 idle bs ≡ bs
unfolding decode_from feed lead nat_eq
from_ascii [] a = refl
from_ascii (b ∷ bs) (small, a) = rw (lt→ltb b 128 small) (ap (λ (s : Str). b ∷ s) (from_ascii bs a))

-- An ASCII text is the decoding of its own bytes, and of no other bytes.
pub decode-eq_ascii : (s : Str) (bs : Bytes) → All IsAscii s → (decode bs ≡ s) ↔ (bs ≡ s)
unfolding decode
decode-eq_ascii s bs a = (λ e. sym (from_idle bs (rw e a)) ∙ e, λ e. rw e (from_ascii s a))
