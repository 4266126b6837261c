-- ===== src/Tests/Wire/Laws.antt =====
-- That small runtime reads a table as it was built.
use mathlib.Core.Option
use python_fleet_telemetry.Prelude.{
  ℕ, suc, ◌+◌, ◌≡◌, refl, sym, ap, subst, ◌∙◌, arith, none, some, List, ◌∷◌, ◌++◌, Bytes, ◌==◌,
  nat_eq, Bool-cases, inl, inr,
}
use python_fleet_telemetry.Prelude.Lists.{length, get_elem?}
use python_fleet_telemetry.Prelude.Dict
use python_fleet_telemetry.Prelude.Dict.{Dict}
use python_fleet_telemetry.Errors.{ok}
use python_fleet_telemetry.Flatbuffers.{Table}
use python_fleet_telemetry.Flatbuffers.Laws.{
  Field, reference, uint8, uint32, Fields, stored, vtable_offset, IsLawful,
}
use python_fleet_telemetry.Tests.Wire.{
  Writer, cell, scan, flat, table_cells, put_slot, wire_fb, get_elem?-left, Segment, Segment-tail,
  Segment-head, Segment-append, Segment-later,
}
use python_fleet_telemetry.Tests.Wire.Scan.{
  code, coded, get-coded, cell-some, scan-absent, scan-found,
}

abbrev HasVector : Writer → ℕ → Bytes → Type 0
HasVector b o bytes = (i : ℕ) × (o ≡ suc i) × Segment b.cells i (length bytes ∷ bytes)

abbrev HasTable : Writer → ℕ → Fields → Type 0
HasTable b o fs = (i : ℕ) × (o ≡ suc i) × Segment b.cells i (table_cells (coded fs))

abbrev HasOpen : Writer → ℕ → Fields → Type 0
HasOpen b n fs = b.slots ≡ coded fs

abbrev Extends : Writer → Writer → Type 0
Extends b c = (j v : ℕ) → get_elem? b.cells j ≡ some v → get_elem? c.cells j ≡ some v

abbrev At : Writer → Table → Fields → Type 0
At b t fs = ((r : ℕ) × (t.bytes ≡ r ∷ b.cells)) × Segment t.bytes t.pos (table_cells (coded fs))

-- What stands in the cells of a builder stands one place later in its output.
later :
    (b : Writer) (t : Table) (r o i : ℕ) (seg : List ℕ)
    → t.bytes ≡ r ∷ b.cells
    → o ≡ suc i
    → Segment b.cells i seg
    → Segment t.bytes o seg
later b t r o i seg same place held =
    subst (λ ys. Segment ys o seg) (sym same)
      (subst (λ a. Segment (r ∷ b.cells) a seg) (sym place) (Segment-later b.cells i r seg held))

put-coded :
    (b : Writer) (slot x : ℕ) (field : ℕ → Field) (fs : Fields)
    → code (field x) ≡ x
    → b.slots ≡ coded fs
    → (put_slot b slot x 0).slots ≡ coded (stored slot x field fs)
put-coded b slot x field fs faithful held = elim (Bool-cases (x == 0)) [
  | inl default ↦ rw default held
  | inr set ↦ rw set (rw (faithful, held) refl)
]

put-cells : (b : Writer) (slot x : ℕ) → (put_slot b slot x 0).cells ≡ b.cells
put-cells b slot x = elim (Bool-cases (x == 0)) [
  | inl default ↦ rw default refl
  | inr set ↦ rw set refl
]

put-Extends : (b : Writer) (slot x : ℕ) → Extends b (put_slot b slot x 0)
put-Extends b slot x j v h = rw (put-cells b slot x) h

-- What the slot of a table that was built is read as.
module _ (b : Writer) (t : Table) (fs : Fields) (slot : ℕ) (at : At b t fs) where
  slots_at :
      (wire_fb.offset t (vtable_offset slot) ≡ scan t (vtable_offset slot) (length (coded fs)) 1)
      × Segment t.bytes (t.pos + 1) (flat (coded fs))
  slots_at =
      let (_, seg) = at in
      let count = cell-some t.bytes t.pos _ (Segment-head t.bytes t.pos _ (flat (coded fs)) seg) in
      let one : suc t.pos ≡ t.pos + 1 = omega arith in
      (
        rw count refl,
        subst (λ a. Segment t.bytes a (flat (coded fs))) one
            (Segment-tail t.bytes t.pos _ (flat (coded fs)) seg),
      )

  offset-absent : Dict.get fs slot ≡ none → wire_fb.offset t (vtable_offset slot) ≡ ok 0
  offset-absent gone =
      let (scanned, seg) = slots_at in
      scanned ∙ scan-absent t slot (coded fs) 1 seg (get-coded fs slot ∙ ap (Option.map code) gone)

  offset-found :
      (f : Field)
      → Dict.get fs slot ≡ some f
      → (a : ℕ) × (wire_fb.offset t (vtable_offset slot) ≡ ok (suc a))
        × (cell t.bytes (t.pos + suc a) ≡ ok (code f))
  offset-found f there =
      let (scanned, seg) = slots_at in
      let (a, found, value) =
        scan-found t slot (coded fs) 1 (code f) seg
          (get-coded fs slot ∙ ap (Option.map code) there) in
      (a, scanned ∙ found, cell-some t.bytes _ _ value)

  number-found :
      (f : Field)
      → Dict.get fs slot ≡ some f
      → (a : ℕ) × (wire_fb.offset t (vtable_offset slot) ≡ ok (suc a))
        × (cell t.bytes (suc a + t.pos) ≡ ok (code f))
  number-found f there =
      let (a, found, value) = offset-found f there in
      let turned : t.pos + suc a ≡ suc a + t.pos = omega arith in (a, found, rw turned at value)

  vector-found :
      (o : ℕ) (bytes : Bytes)
      → Dict.get fs slot ≡ some (reference o)
      → HasVector b o bytes
      → (a start : ℕ) × (wire_fb.offset t (vtable_offset slot) ≡ ok (suc a))
        × (wire_fb.vector_len t (suc a) ≡ ok (length bytes))
        × (wire_fb.vector t (suc a) ≡ ok start)
        × ((j x : ℕ) → get_elem? bytes j ≡ some x → cell t.bytes (start + j) ≡ ok x)
  vector-found o bytes there (i, place, held) =
      let ((r, same), _) = at in
      let (a, found, value) = offset-found (reference o) there in
      let seg = later b t r o i (length bytes ∷ bytes) same place held in
      let count = cell-some t.bytes o _ (Segment-head t.bytes o _ bytes seg) in
      let elements = Segment-tail t.bytes o _ bytes seg in
      (
        a,
        suc o,
        found,
        rw value count,
        rw value refl,
        λ j x e. cell-some t.bytes (suc o + j) x (elements j x e),
      )

  table-found :
      (o : ℕ) (inner : Fields)
      → Dict.get fs slot ≡ some (reference o)
      → HasTable b o inner
      → (a : ℕ) × (t' : Table) × (wire_fb.offset t (vtable_offset slot) ≡ ok (suc a))
        × (wire_fb.union t (suc a) ≡ ok t')
        × At b t' inner
  table-found o inner there (i, place, held) =
      let ((r, same), _) = at in
      let (a, found, value) = offset-found (reference o) there in
      let seg = later b t r o i (table_cells (coded inner)) same place held in
      (a, record { bytes = t.bytes; pos = o }, found, rw value refl, ((r, same), seg))

root-At :
    (b : Writer) (o : ℕ) (fs : Fields)
    → HasTable b o fs
    → At b (record { bytes = o ∷ b.cells; pos = o + 0 }) fs
root-At b o fs (i, place, held) =
    let root : o + 0 ≡ suc i = omega arith in
    ((o, refl), rw root (Segment-later b.cells i o (table_cells (coded fs)) held))

pub wire_fb-IsLawful : IsLawful wire_fb
wire_fb-IsLawful = record {
  HasVector = HasVector;
  HasTable = HasTable;
  HasOpen = HasOpen;
  Extends = Extends;
  Extends-trans = λ b c d e f j v h. f j v (e j v h);
  HasVector-Extends =
      λ b c o bytes e (i, place, held). (i, place, λ j v h. e (i + j) v (held j v h));
  HasTable-Extends = λ b c o fs e (i, place, held). (i, place, λ j v h. e (i + j) v (held j v h));
  vector-create = λ b bytes small. (
    λ j v h. get_elem?-left b.cells _ j v h,
    (length b.cells, refl, Segment-append b.cells _),
    λ h. absurd (omega arith),
  );
  open-start = λ b n. (λ j v h. h, refl);
  open-uoffset =
      λ b n slot o fs held s. (put-Extends b slot o, put-coded b slot o reference fs refl held);
  open-uint8 =
      λ b n slot x fs held s small. (put-Extends b slot x, put-coded b slot x uint8 fs refl held);
  open-uint32 =
      λ b n slot x fs held s small. (put-Extends b slot x, put-coded b slot x uint32 fs refl held);
  table-end = λ b n fs held. (
    λ j v h. get_elem?-left b.cells _ j v h,
    (
      length b.cells,
      refl,
      subst (λ fs'. Segment (b.cells ++ table_cells fs') (length b.cells) (table_cells (coded fs)))
          (sym held) (Segment-append b.cells _),
    ),
    λ h. absurd (omega arith),
  );
  At = At;
  root-finish = λ b o fs held. (o, refl, root-At b o fs held);
  read-absent = λ b t fs slot at gone. offset-absent b t fs slot at gone;
  read-uint8 = λ b t fs slot x at there. number-found b t fs slot at (uint8 x) there;
  read-uint32 = λ b t fs slot x at there. number-found b t fs slot at (uint32 x) there;
  read-vector = λ b t fs slot o bytes at there held. vector-found b t fs slot at o bytes there held;
  read-table = λ b t fs slot o inner at there held. table-found b t fs slot at o inner there held;
}
