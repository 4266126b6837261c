-- ===== src/Flatbuffers.antt =====
-- What the program and the generated bindings call of the `flatbuffers` runtime.
pub mod Laws
use python_fleet_telemetry.Prelude.{ℕ, Bytes}
use python_fleet_telemetry.Errors.{Result}

-- `flatbuffers.table.Table(buf, pos)`
pub record Table : Type 0 where
  pub bytes : Bytes
  pub pos : ℕ

pub record Flatbuffers : Type 1 where
  -- `encode.Get(packer.uoffset, buf, offset)`
  pub get_uoffset : Bytes → ℕ → Result ℕ
  -- the methods of `Table`: `Offset`, `Get` of `Uint8Flags`, `Uint32Flags` and `Uint64Flags`,
  -- `Vector`, `VectorLen`, `GetVectorAsNumpy` of bytes, `Union`
  pub offset : Table → ℕ → Result ℕ
  pub get_uint8 : Table → ℕ → Result ℕ
  pub get_uint32 : Table → ℕ → Result ℕ
  pub get_uint64 : Table → ℕ → Result ℕ
  pub vector : Table → ℕ → Result ℕ
  pub vector_len : Table → ℕ → Result ℕ
  pub get_vector_as_numpy : Table → ℕ → Result Bytes
  pub union : Table → ℕ → Result Table
  -- the methods of `Builder`; an offset is a number
  pub Builder : Type 0
  pub builder : ℕ → Builder
  pub create_byte_vector : Builder → Bytes → ℕ × Builder
  pub start_vector : Builder → ℕ → ℕ → ℕ → ℕ × Builder
  pub start_object : Builder → ℕ → Builder
  pub prepend_uoffset_slot : Builder → ℕ → ℕ → ℕ → Builder
  pub prepend_uint8_slot : Builder → ℕ → ℕ → ℕ → Builder
  pub prepend_uint32_slot : Builder → ℕ → ℕ → ℕ → Builder
  pub prepend_uint64_slot : Builder → ℕ → ℕ → ℕ → Builder
  pub end_object : Builder → ℕ × Builder
  pub finish : Builder → ℕ → Builder
  pub output : Builder → Bytes
