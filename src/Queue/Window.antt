-- ===== src/Queue/Window.antt =====
-- Drop-oldest: what a queue of n places keeps of a list is its last n items.
use python_fleet_telemetry.Prelude.{
  ℕ, zero, suc, ◌-◌, ◌≤◌, ◌<◌, ◌≡◌, ◌⊎◌, inl, inr, refl, sym, ap, true, false, List, [], ◌∷◌, ◌++◌,
  arith,
}
use python_fleet_telemetry.Prelude.Lists.{length, drop, length-append, length-drop}
use python_fleet_telemetry.Errors.{ok}
use python_fleet_telemetry.Queue.{Queue, full, put_nowait, get_nowait, pop_front, IsBounded}

module _ {ℓ} {A : Type ℓ} where
  -- The last n items, or all of them for n = 0.
  unfoldable pub window : ℕ → List A → List A
  window zero xs = xs
  window (suc n) xs = drop (length xs - suc n) xs

  drop-suc : (k : ℕ) (x : A) (xs : List A) {n : ℕ} → n ≡ suc k → drop n (x ∷ xs) ≡ drop k xs
  drop-suc k x xs e = rw e

  pub window_short : (m : ℕ) (xs : List A) → (m ≡ 0) ⊎ (length xs ≤ m) → window m xs ≡ xs
  unfolding window
  window_short zero xs h = refl
  window_short (suc n) xs h = let e : length xs - suc n ≡ 0 = omega arith in ap (λ k. drop k xs) e

  pub window_cons :
      (m : ℕ) (x : A) (xs : List A) → 0 < m → m ≤ length xs → window m (x ∷ xs) ≡ window m xs
  unfolding window
  window_cons zero x xs p h = elim p [ ]
  window_cons (suc n) x xs p h = drop-suc (length xs - suc n) x xs (omega arith)

  pub length-window : (m : ℕ) (xs : List A) → (m ≡ 0) ⊎ (length (window m xs) ≤ m)
  unfolding window
  length-window zero xs = inl refl
  length-window (suc n) xs = inr (omega (arith, length-drop (length xs - suc n) xs))

  abbrev pub pushed : A → Queue A → Queue A
  pushed a q = record q { items = window q.maxsize (q.items ++ (a ∷ [])) }

  pub pushed-IsBounded : (a : A) (q : Queue A) → IsBounded (pushed a q)
  pushed-IsBounded a q = length-window q.maxsize (q.items ++ (a ∷ []))

  pub put_nowait-room : (a : A) (q : Queue A) → full q ≡ false → put_nowait q a ≡ ok (pushed a q)
  unfolding put_nowait
  put_nowait-room a q h = rw h (
      rw (
        window_short q.maxsize (q.items ++ (a ∷ []))
          (ground (arith, length-append q.items (a ∷ [])))))

  -- After one `get_nowait` a full queue holds the rest of its items, and the window over them and
  -- one more is that over all of them and one more.
  pub get_nowait-full :
      (a : A) (q : Queue A)
      → full q ≡ true
      → (x : A) × (q' : Queue A) × (get_nowait q ≡ ok (x, q'))
        × (q.items ≡ x ∷ q'.items)
        × (pushed a q' ≡ pushed a q)
  unfolding full get_nowait
  get_nowait-full a q h = go q.maxsize q.items h
    where
      go :
          (m : ℕ) (xs : List A)
          → full (record { maxsize = m; items = xs }) ≡ true
          → (x : A) × (q' : Queue A) × (pop_front m xs ≡ ok (x, q'))
            × (xs ≡ x ∷ q'.items)
            × (pushed a q' ≡ pushed a (record { maxsize = m; items = xs }))
      go m [] h = absurd (ground arith)
      go m (x ∷ xs) h = (
        x,
        record { maxsize = m; items = xs },
        refl,
        refl,
        ap (λ ys. record { maxsize = m; items = ys })
            (sym (
              window_cons m x (xs ++ (a ∷ [])) (ground arith)
                (ground (arith, length-append xs (a ∷ []))))),
      )
