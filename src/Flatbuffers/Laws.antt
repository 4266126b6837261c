-- ===== src/Flatbuffers/Laws.antt =====
-- What the `flatbuffers` runtime documents of its `Builder` and `Table`: a table is read as it was
-- built.
use python_fleet_telemetry.Prelude.{
  ℕ, suc, ◌+◌, ◌*◌, ◌<◌, ◌≡◌, ◌≢◌, arith, none, some, [], ◌∷◌, Bytes, ◌==◌, nat_eq, if◌then◌else◌,
}
use python_fleet_telemetry.Prelude.Lists.{length, get_elem?, All}
use python_fleet_telemetry.Prelude.Dict
use python_fleet_telemetry.Prelude.Dict.{Dict}
use python_fleet_telemetry.Errors.{ok}
use python_fleet_telemetry.Flatbuffers.{Flatbuffers, Table}

-- What a slot of a table holds: the offset of a vector or of a table, or a number.
pub data Field : Type 0 where
  reference : ℕ → Field
  uint8 : ℕ → Field
  uint32 : ℕ → Field

-- The slots of a table that are set, the newest first.
abbrev pub Fields : Type 0
Fields = Dict ℕ Field

-- A number that is the default is not stored.
abbrev pub stored : ℕ → ℕ → (ℕ → Field) → Fields → Fields
stored slot x field fs = if x == 0 then fs else (slot, field x) ∷ fs

-- The offset of a slot in the vtable.
abbrev pub vtable_offset : ℕ → ℕ
vtable_offset slot = 4 + 2 * slot

module _ (fb : Flatbuffers) where
  open fb use {
    Builder, get_uoffset, offset, get_uint8, get_uint32, vector, vector_len, union, builder,
    create_byte_vector, start_object, prepend_uoffset_slot, prepend_uint8_slot, prepend_uint32_slot,
    end_object, finish, output,
  }

  pub record IsLawful : Type 1 where
    -- What a builder holds: a vector at an offset, a finished table at an offset, and the table
    -- that is being built, with the number of its slots.
    pub HasVector : Builder → ℕ → Bytes → Type 0
    pub HasTable : Builder → ℕ → Fields → Type 0
    pub HasOpen : Builder → ℕ → Fields → Type 0
    -- A later state of a builder holds what an earlier one held.
    pub Extends : Builder → Builder → Type 0
    pub Extends-trans : (b c d : Builder) → Extends b c → Extends c d → Extends b d
    pub HasVector-Extends :
        (b c : Builder) (o : ℕ) (bytes : Bytes)
        → Extends b c
        → HasVector b o bytes
        → HasVector c o bytes
    pub HasTable-Extends :
        (b c : Builder) (o : ℕ) (fs : Fields) → Extends b c → HasTable b o fs → HasTable c o fs
    pub vector-create :
        (b : Builder) (bytes : Bytes)
        → All (λ x. x < 256) bytes
        → let (o, c) = create_byte_vector b bytes in Extends b c × HasVector c o bytes × (o ≢ 0)
    pub open-start :
        (b : Builder) (n : ℕ) → Extends b (start_object b n) × HasOpen (start_object b n) n []
    pub open-uoffset :
        (b : Builder) (n slot o : ℕ) (fs : Fields)
        → HasOpen b n fs
        → slot < n
        → let c = prepend_uoffset_slot b slot o 0 in
          Extends b c × HasOpen c n (stored slot o reference fs)
    pub open-uint8 :
        (b : Builder) (n slot x : ℕ) (fs : Fields)
        → HasOpen b n fs
        → slot < n
        → x < 256
        → let c = prepend_uint8_slot b slot x 0 in
          Extends b c × HasOpen c n (stored slot x uint8 fs)
    pub open-uint32 :
        (b : Builder) (n slot x : ℕ) (fs : Fields)
        → HasOpen b n fs
        → slot < n
        → x < 4294967296
        → let c = prepend_uint32_slot b slot x 0 in
          Extends b c × HasOpen c n (stored slot x uint32 fs)
    pub table-end :
        (b : Builder) (n : ℕ) (fs : Fields)
        → HasOpen b n fs
        → let (o, c) = end_object b in Extends b c × HasTable c o fs × (o ≢ 0)
    -- A table stands in bytes that a builder wrote.
    pub At : Builder → Table → Fields → Type 0
    pub root-finish :
        (b : Builder) (o : ℕ) (fs : Fields)
        → HasTable b o fs
        → let bytes = output (finish b o) in
          (n : ℕ) × (get_uoffset bytes 0 ≡ ok n) × At b (record { bytes = bytes; pos = n + 0 }) fs
    pub read-absent :
        (b : Builder) (t : Table) (fs : Fields) (slot : ℕ)
        → At b t fs
        → Dict.get fs slot ≡ none
        → offset t (vtable_offset slot) ≡ ok 0
    pub read-uint8 :
        (b : Builder) (t : Table) (fs : Fields) (slot x : ℕ)
        → At b t fs
        → Dict.get fs slot ≡ some (uint8 x)
        → (a : ℕ) × (offset t (vtable_offset slot) ≡ ok (suc a))
          × (get_uint8 t (suc a + t.pos) ≡ ok x)
    pub read-uint32 :
        (b : Builder) (t : Table) (fs : Fields) (slot x : ℕ)
        → At b t fs
        → Dict.get fs slot ≡ some (uint32 x)
        → (a : ℕ) × (offset t (vtable_offset slot) ≡ ok (suc a))
          × (get_uint32 t (suc a + t.pos) ≡ ok x)
    pub read-vector :
        (b : Builder) (t : Table) (fs : Fields) (slot o : ℕ) (bytes : Bytes)
        → At b t fs
        → Dict.get fs slot ≡ some (reference o)
        → HasVector b o bytes
        → (a start : ℕ) × (offset t (vtable_offset slot) ≡ ok (suc a))
          × (vector_len t (suc a) ≡ ok (length bytes))
          × (vector t (suc a) ≡ ok start)
          × ((j x : ℕ) → get_elem? bytes j ≡ some x → get_uint8 t (start + j) ≡ ok x)
    pub read-table :
        (b : Builder) (t : Table) (fs : Fields) (slot o : ℕ) (inner : Fields)
        → At b t fs
        → Dict.get fs slot ≡ some (reference o)
        → HasTable b o inner
        → (a : ℕ) × (t' : Table) × (offset t (vtable_offset slot) ≡ ok (suc a))
          × (union t (suc a) ≡ ok t')
          × At b t' inner

pub stored-nonzero :
    (slot x : ℕ) (field : ℕ → Field) (fs : Fields)
    → x ≢ 0
    → stored slot x field fs ≡ (slot, field x) ∷ fs
stored-nonzero slot x field fs h = ground arith
