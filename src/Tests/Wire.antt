-- ===== src/Tests/Wire.antt =====
-- A small `flatbuffers` runtime of the tests: a buffer is a list of numbers, the first of which is
-- the place of the root. A vector is its length and its elements, a table the number of its slots
-- and then each slot with its number or offset.
pub mod Scan
pub mod Laws
use python_fleet_telemetry.Prelude.{
  ℕ, zero, suc, ◌+◌, ◌*◌, ◌≡◌, ◌≢◌, refl, sym, ap, ◌∙◌, arith, Option, none, some, List, [], ◌∷◌,
  ◌++◌, Bytes, ◌==◌, nat_eq, Bool-cases, inl, inr, if◌then◌else◌,
}
use python_fleet_telemetry.Prelude.Lists.{length, take, get_elem?, All}
use python_fleet_telemetry.Prelude.Dict
use python_fleet_telemetry.Prelude.Dict.{Dict}
use python_fleet_telemetry.Errors.{Result, ok, raise, other, ◌>>=◌}
use python_fleet_telemetry.Flatbuffers.{Flatbuffers, Table}
use python_fleet_telemetry.Flatbuffers.Laws.{
  Field, reference, uint8, uint32, Fields, stored, vtable_offset, IsLawful,
}

pub record Writer : Type 0 where
  pub cells : List ℕ
  pub slots : Dict ℕ ℕ

abbrev cell_of : Option ℕ → Result ℕ
cell_of none = raise (other 0)
cell_of (some x) = ok x

abbrev cell : Bytes → ℕ → Result ℕ
cell bytes a = cell_of (get_elem? bytes a)

-- The place of a slot after the start of the table, 0 if it is not set.
abbrev scan : Table → ℕ → ℕ → ℕ → Result ℕ
scan t slot zero r = ok 0
scan t slot (suc n) r =
    let rest = scan t slot n (suc (suc r)) in
    cell t.bytes (t.pos + r) >>= λ i. if vtable_offset i == slot then ok (suc r) else rest

-- What stands from a place on.
abbrev elements : Bytes → ℕ → Result Bytes
elements bytes zero = ok bytes
elements [] (suc a) = raise (other 0)
elements (x ∷ bytes) (suc a) = elements bytes a

abbrev flat : Dict ℕ ℕ → List ℕ
flat [] = []
flat ((i, x) ∷ fs) = i ∷ x ∷ flat fs

abbrev table_cells : Dict ℕ ℕ → List ℕ
table_cells fs = length fs ∷ flat fs

abbrev put_slot : Writer → ℕ → ℕ → ℕ → Writer
put_slot b slot x default = if x == default then b else record b { slots = (slot, x) ∷ b.slots }

abbrev pub wire_fb : Flatbuffers
wire_fb = record {
  get_uoffset = cell;
  offset = λ t slot. cell t.bytes t.pos >>= λ n. scan t slot n 1;
  get_uint8 = λ t a. cell t.bytes a;
  get_uint32 = λ t a. cell t.bytes a;
  get_uint64 = λ t a. cell t.bytes a;
  vector = λ t o. cell t.bytes (t.pos + o) >>= λ a. ok (suc a);
  vector_len = λ t o. cell t.bytes (t.pos + o) >>= λ a. cell t.bytes a;
  get_vector_as_numpy = λ t o. cell t.bytes (t.pos + o) >>= λ a.
      cell t.bytes a >>= λ n. elements t.bytes (suc a) >>= λ rest. ok (take n rest);
  union = λ t o. cell t.bytes (t.pos + o) >>= λ a. ok (record { bytes = t.bytes; pos = a });
  Builder = Writer;
  builder = λ n. record { cells = []; slots = [] };
  create_byte_vector =
      λ b bytes. (suc (length b.cells), record b { cells = b.cells ++ (length bytes ∷ bytes) });
  start_vector = λ b size n align. (suc (length b.cells), b);
  start_object = λ b n. record b { slots = [] };
  prepend_uoffset_slot = put_slot;
  prepend_uint8_slot = put_slot;
  prepend_uint32_slot = put_slot;
  prepend_uint64_slot = put_slot;
  end_object =
      λ b. (suc (length b.cells), record { cells = b.cells ++ table_cells b.slots; slots = [] });
  finish = λ b at. record b { cells = at ∷ b.cells };
  output = λ b. b.cells;
}

-- Places of a list.
module _ {A : Type 0} where
  get_elem?-left :
      (xs ys : List A) (j : ℕ) (v : A) → get_elem? xs j ≡ some v → get_elem? (xs ++ ys) j ≡ some v
  get_elem?-left [] ys j v h = absurd cc
  get_elem?-left (x ∷ xs) ys zero v h = h
  get_elem?-left (x ∷ xs) ys (suc j) v h = get_elem?-left xs ys j v h

  get_elem?-right :
      (xs ys : List A) (j k : ℕ) → k ≡ length xs + j → get_elem? (xs ++ ys) k ≡ get_elem? ys j
  get_elem?-right [] ys j k e = let e' : k ≡ j = omega arith in rw e' refl
  get_elem?-right (x ∷ xs) ys j zero e = absurd (omega arith)
  get_elem?-right (x ∷ xs) ys j (suc k) e = get_elem?-right xs ys j k (omega arith)

-- A list stands in another at a place.
abbrev Segment : List ℕ → ℕ → List ℕ → Type 0
Segment ys a seg = (j v : ℕ) → get_elem? seg j ≡ some v → get_elem? ys (a + j) ≡ some v

Segment-tail :
    (ys : List ℕ) (a x : ℕ) (seg : List ℕ) → Segment ys a (x ∷ seg) → Segment ys (suc a) seg
Segment-tail ys a x seg h j v e =
    let shift : a + suc j ≡ suc a + j = omega arith in rw shift at (h (suc j) v e)

Segment-head :
    (ys : List ℕ) (a x : ℕ) (seg : List ℕ) → Segment ys a (x ∷ seg) → get_elem? ys a ≡ some x
Segment-head ys a x seg h = let zero_ : a + 0 ≡ a = omega arith in rw zero_ at (h 0 x refl)

Segment-append : (xs seg : List ℕ) → Segment (xs ++ seg) (length xs) seg
Segment-append xs seg j v e = get_elem?-right xs seg j _ refl ∙ e

Segment-later :
    (ys : List ℕ) (a x : ℕ) (seg : List ℕ) → Segment ys a seg → Segment (x ∷ ys) (suc a) seg
Segment-later ys a x seg h j v e =
    let shift : suc a + j ≡ suc (a + j) = omega arith in rw shift (h j v e)
