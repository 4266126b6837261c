-- ===== src/Tests/Wire/Scan.antt =====
-- A slot of a table in the cells of that small runtime, set or not.
use mathlib.Core.Option
use python_fleet_telemetry.Prelude.{
  ℕ, suc, ◌+◌, ◌≡◌, refl, subst, ◌∙◌, true, false, arith, none, some, [], ◌∷◌, Bytes, ◌==◌, nat_eq,
  Bool-cases, inl, inr,
}
use python_fleet_telemetry.Prelude.Lists.{length, get_elem?}
use python_fleet_telemetry.Prelude.Dict
use python_fleet_telemetry.Prelude.Dict.{Dict}
use python_fleet_telemetry.Errors.{ok}
use python_fleet_telemetry.Flatbuffers.{Table}
use python_fleet_telemetry.Flatbuffers.Laws.{Field, reference, uint8, uint32, Fields, vtable_offset}
use python_fleet_telemetry.Tests.Wire.{cell, scan, flat, Segment, Segment-tail, Segment-head}

abbrev pub code : Field → ℕ
code (reference o) = o
code (uint8 x) = x
code (uint32 x) = x

abbrev pub coded : Fields → Dict ℕ ℕ
coded [] = []
coded ((i, f) ∷ fs) = (i, code f) ∷ coded fs

pub get-coded :
    (fs : Fields) (slot : ℕ) → Dict.get (coded fs) slot ≡ Option.map code (Dict.get fs slot)
unfolding Dict.get
get-coded [] slot = refl
get-coded ((i, f) ∷ fs) slot = ground (arith, get-coded fs slot)

pub cell-some : (bytes : Bytes) (a x : ℕ) → get_elem? bytes a ≡ some x → cell bytes a ≡ ok x
cell-some bytes a x h = rw h refl

module _ (t : Table) (slot : ℕ) where
  scan-head :
      (i x r : ℕ) (fs : Dict ℕ ℕ)
      → Segment t.bytes (t.pos + r) (flat ((i, x) ∷ fs))
      → (cell t.bytes (t.pos + r) ≡ ok i)
        × (get_elem? t.bytes (t.pos + suc r) ≡ some x)
        × Segment t.bytes (t.pos + suc (suc r)) (flat fs)
  scan-head i x r fs seg =
      let next = Segment-tail t.bytes (t.pos + r) i (x ∷ flat fs) seg in
      let one : suc (t.pos + r) ≡ t.pos + suc r = omega arith in
      let two : suc (suc (t.pos + r)) ≡ t.pos + suc (suc r) = omega arith in
      (
        cell-some t.bytes (t.pos + r) i (Segment-head t.bytes (t.pos + r) i (x ∷ flat fs) seg),
        subst (λ a. get_elem? t.bytes a ≡ some x) one (Segment-head t.bytes _ x (flat fs) next),
        subst (λ a. Segment t.bytes a (flat fs)) two (Segment-tail t.bytes _ x (flat fs) next),
      )

  pub scan-absent :
      (fs : Dict ℕ ℕ) (r : ℕ)
      → Segment t.bytes (t.pos + r) (flat fs)
      → Dict.get fs slot ≡ none
      → scan t (vtable_offset slot) (length fs) r ≡ ok 0
  unfolding Dict.get
  scan-absent [] r seg gone = refl
  scan-absent ((i, x) ∷ fs) r seg gone = elim (Bool-cases (slot == i)) [
    | inl same ↦ let impossible : some x ≡ none = rw (same, Dict.get) at gone in absurd cc
    | inr differs ↦
        let rest : Dict.get fs slot ≡ none = rw (differs, Dict.get) at gone in
        let (here, _, seg') = scan-head i x r fs seg in
        let apart : (vtable_offset i == vtable_offset slot) ≡ false = ground arith in
        let later = scan-absent fs (suc (suc r)) seg' rest in rw here (rw apart later)
  ]

  pub scan-found :
      (fs : Dict ℕ ℕ) (r v : ℕ)
      → Segment t.bytes (t.pos + r) (flat fs)
      → Dict.get fs slot ≡ some v
      → (a : ℕ) × (scan t (vtable_offset slot) (length fs) r ≡ ok (suc a))
        × (get_elem? t.bytes (t.pos + suc a) ≡ some v)
  unfolding Dict.get
  scan-found [] r v seg found = absurd cc
  scan-found ((i, x) ∷ fs) r v seg found = elim (Bool-cases (slot == i)) [
    | inl same ↦
        let value : some x ≡ some v = rw (same, Dict.get) at found in
        let (here, x_there, _) = scan-head i x r fs seg in
        let equal : (vtable_offset i == vtable_offset slot) ≡ true = ground arith in
        (r, rw here (rw equal refl), x_there ∙ value)
    | inr differs ↦
        let rest : Dict.get fs slot ≡ some v = rw (differs, Dict.get) at found in
        let (here, _, seg') = scan-head i x r fs seg in
        let apart : (vtable_offset i == vtable_offset slot) ≡ false = ground arith in
        let (a, at, value) = scan-found fs (suc (suc r)) v seg' rest in
        (a, rw here (rw apart at), value)
  ]
