-- ===== src/Text/Decimal.antt =====
-- `str(n)` of an integer, and that it determines the integer.
use Prim.Native.Nat.{pred}
use native.Mathlib.Decide.{ℕ_discrete}
use mathlib.Core.List.{foldl, foldl-append}
use python_fleet_telemetry.Prelude.{
  ℕ, zero, suc, ◌+◌, ◌-◌, ◌*◌, ◌/◌, ◌%◌, ◌≤◌, ◌<◌, ◌≡◌, ◌≢◌, refl, sym, ap, ◌∙◌, Str, [], ◌∷◌, ◌++◌,
  arith, ltb, Eq, Bool-cases, inl, inr, if◌then◌else◌, codes,
}
use python_fleet_telemetry.Prelude.Lists.{All, All-append}

pub data ℤ : Type 0 where
  pos : ℕ → ℤ
  negsuc : ℕ → ℤ

int_dec : Discrete ℤ
int_dec (pos m) (pos n) = elim (ℕ_discrete m n) [
  | yes p ↦ yes (ap pos p)
  | no q ↦ no (λ p. ground arith)
]
int_dec (pos m) (negsuc n) = no (λ p. cc)
int_dec (negsuc m) (pos n) = no (λ p. cc)
int_dec (negsuc m) (negsuc n) = elim (ℕ_discrete m n) [
  | yes p ↦ yes (ap negsuc p)
  | no q ↦ no (λ p. ground arith)
]

instance unfoldable pub int_eq : Eq ℤ
unfolding int_dec ℕ_discrete
int_eq = record { dec = int_dec }

-- The decimal digits. The fuel `n + 1` is enough for `n`: a division by ten makes `n` smaller.
digits : ℕ → ℕ → Str
digits zero n = []
digits (suc f) n =
    let rest = digits f (n / 10) in if ltb n 10 then (48 + n) ∷ [] else rest ++ ((48 + n % 10) ∷ [])

unfoldable pub show_ℕ : ℕ → Str
unfolding digits
show_ℕ n = digits (suc n) n

-- `str(key)`
unfoldable pub show : ℤ → Str
unfolding show_ℕ
show (pos n) = show_ℕ n
show (negsuc n) = b'-' ∷ show_ℕ (suc n)

abbrev step : ℕ → ℕ → ℕ
step acc c = acc * 10 + (c - 48)

value : Str → ℕ
value s = foldl step 0 s

abbrev IsDigit : ℕ → Type 0
IsDigit c = (48 ≤ c) × (c < 58)

value-digits : (f n : ℕ) → n < f → value (digits f n) ≡ n
unfolding value digits
value-digits zero n h = elim h [ ]
value-digits (suc f) n h = elim (Bool-cases (ltb n 10)) [
  | inl small ↦ rw small (omega arith)
  | inr large ↦
      rw large (rw foldl-append (rw (value-digits f (n / 10) (ground arith)) (omega arith)))
]

digits-All : (f n : ℕ) → n < f → All IsDigit (digits f n)
unfolding digits
digits-All zero n h = elim h [ ]
digits-All (suc f) n h = elim (Bool-cases (ltb n 10)) [
  | inl small ↦ rw small (ground arith)
  | inr large ↦ rw large (
      All-append IsDigit (digits f (n / 10)) _ (digits-All f (n / 10) (ground arith)) (omega arith))
]

show_ℕ-injective : (m n : ℕ) → show_ℕ m ≡ show_ℕ n → m ≡ n
unfolding show_ℕ
show_ℕ-injective m n e =
    sym (value-digits (suc m) m (omega arith)) ∙ ap value e ∙ value-digits (suc n) n (omega arith)

show_ℕ-ne-minus : (n : ℕ) (s : Str) → show_ℕ n ≢ b'-' ∷ s
unfolding show_ℕ
show_ℕ-ne-minus n s e =
    let h : All IsDigit (b'-' ∷ s) = rw e at (digits-All (suc n) n (omega arith)) in
    absurd (omega arith)

same_tail : {a b : ℕ} {s t : Str} → a ∷ s ≡ b ∷ t → s ≡ t
same_tail e = cc

-- Different integers print differently.
pub show-injective : (a b : ℤ) → show a ≡ show b → a ≡ b
unfolding show
show-injective (pos m) (pos n) e = ap pos (show_ℕ-injective m n e)
show-injective (pos m) (negsuc n) e = absurd (show_ℕ-ne-minus m _ e)
show-injective (negsuc m) (pos n) e = absurd (show_ℕ-ne-minus n _ (sym e))
show-injective (negsuc m) (negsuc n) e =
    ap negsuc (ap pred (show_ℕ-injective (suc m) (suc n) (same_tail e)))

show_negative : show (negsuc 122) ≡ codes "-123"
unfolding show
show_negative = refl
