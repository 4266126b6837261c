-- ===== src/Dispatch/Ids.antt =====
-- `_queues` as a set: `add`, `discard` and `in`, with no number listed twice.
use python_fleet_telemetry.Prelude.{
  ℕ, ◌≡◌, refl, false, ◌||◌, List, [], ◌∷◌, ◌++◌, arith, contains, ◌==◌, nat_eq, if◌then◌else◌,
}
use python_fleet_telemetry.Dispatch.State.{discard, add}

-- No number is listed twice.
abbrev pub NodupIds : List ℕ → Type 0
NodupIds [] = Unit
NodupIds (x ∷ xs) = (contains xs x ≡ false) × NodupIds xs

pub contains-discard :
    (x : ℕ) (ys : List ℕ) (j : ℕ)
    → contains (discard x ys) j ≡ (if j == x then false else contains ys j)
unfolding discard
contains-discard x [] j = ground arith
contains-discard x (y ∷ ys) j = ground (arith, contains-discard x ys j)

pub discard-NodupIds : (x : ℕ) (ys : List ℕ) → NodupIds ys → NodupIds (discard x ys)
unfolding discard
discard-NodupIds x [] n = tt
discard-NodupIds x (y ∷ ys) (fresh, n) =
    ground (arith, discard-NodupIds x ys n, contains-discard x ys y)

contains-append :
    (xs ys : List ℕ) (j : ℕ) → contains (xs ++ ys) j ≡ (contains xs j || contains ys j)
contains-append [] ys j = refl
contains-append (x ∷ xs) ys j = ground (arith, contains-append xs ys j)

append-NodupIds :
    (x : ℕ) (ys : List ℕ) → NodupIds ys → contains ys x ≡ false → NodupIds (ys ++ (x ∷ []))
append-NodupIds x [] n h = (refl, tt)
append-NodupIds x (y ∷ ys) (fresh, n) h =
    ground (arith, append-NodupIds x ys n, contains-append ys (x ∷ []) y)

pub contains-add : (x : ℕ) (ys : List ℕ) (j : ℕ) → contains (add x ys) j ≡ (j == x || contains ys j)
unfolding add
contains-add x ys j = ground (arith, contains-append ys (x ∷ []) j)

pub add-NodupIds : (x : ℕ) (ys : List ℕ) → NodupIds ys → NodupIds (add x ys)
unfolding add
add-NodupIds x ys n = ground (arith, append-NodupIds x ys n)

pub discard-nil : (x : ℕ) (ys : List ℕ) → ys ≡ [] → discard x ys ≡ []
unfolding discard
discard-nil x [] e = refl
discard-nil x (y ∷ ys) e = cc
