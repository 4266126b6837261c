-- ===== src/Envelope/Reading.antt =====
-- The accessors and `_read_vector` on a table that a builder wrote.
use python_fleet_telemetry.Prelude.{
  ℕ, suc, ◌+◌, ◌<◌, ◌≡◌, refl, sym, ap, arith, ◌⊎◌, inl, inr, none, some, [], ◌∷◌, Bytes, nat_eq,
  true, false, ◌==◌,
}
use python_fleet_telemetry.Prelude.Lists.{length, get_elem?, All}
use python_fleet_telemetry.Prelude.Dict
use python_fleet_telemetry.Errors.{Result, ok}
use python_fleet_telemetry.Flatbuffers.{Flatbuffers, Table}
use python_fleet_telemetry.Flatbuffers.Laws.{
  IsLawful, Fields, reference, uint8, uint32, vtable_offset,
}
use python_fleet_telemetry.Envelope.Bindings.{
  vector_byte, vector_length, stream_created_at, envelope_message_type, envelope_message,
}
use python_fleet_telemetry.Envelope.Accessors.{vector_is_none}
use python_fleet_telemetry.Envelope.{read_from, check_byte, read_vector}

abbrev pub IsByte : ℕ → Type 0
IsByte x = x < 256

check_byte-IsByte : (x : ℕ) → IsByte x → check_byte x ≡ ok x
unfolding check_byte
check_byte-IsByte x h = ground arith

-- Reading from index `i` on gives the bytes that the accessor gives there.
read_from-elements :
    (accessor : ℕ → Result ℕ) (bytes : Bytes) (i : ℕ)
    → ((j x : ℕ) → get_elem? bytes j ≡ some x → accessor (i + j) ≡ ok x)
    → All IsByte bytes
    → read_from accessor (length bytes) i ≡ ok bytes
unfolding read_from
read_from-elements accessor [] i at small = refl
read_from-elements accessor (x ∷ bytes) i at (s, small) =
    let here : accessor i ≡ ok x = (let e : i + 0 ≡ i = omega arith in rw e at (at 0 x refl)) in
    let rest =
      read_from-elements accessor bytes (suc i)
        (λ j y e. let shift : i + suc j ≡ suc i + j = omega arith in rw shift at (at (suc j) y e))
        small in
    rw here (rw (check_byte-IsByte x s) (rw rest refl))

suc-not_zero : (a : ℕ) → (suc a == 0) ≡ false
suc-not_zero a = ground arith

module _ (fb : Flatbuffers) (t : Table) (slot a : ℕ) (found : fb.offset t slot ≡ ok (suc a)) where
  vector_byte-found :
      (start j x : ℕ)
      → fb.vector t (suc a) ≡ ok start
      → fb.get_uint8 t (start + j) ≡ ok x
      → vector_byte fb slot t j ≡ ok x
  unfolding vector_byte
  vector_byte-found start j x begins reads = rw found (rw (suc-not_zero a) (rw begins reads))

  vector_length-found : (n : ℕ) → fb.vector_len t (suc a) ≡ ok n → vector_length fb slot t ≡ ok n
  unfolding vector_length
  vector_length-found n counted = rw found (rw (suc-not_zero a) counted)

vector_length-absent :
    (fb : Flatbuffers) (t : Table) (slot : ℕ)
    → fb.offset t slot ≡ ok 0
    → vector_length fb slot t ≡ ok 0
unfolding vector_length nat_eq
vector_length-absent fb t slot gone = rw gone refl

module _ (fb : Flatbuffers) (laws : IsLawful fb) (b : fb.Builder) (fs : Fields) where
  -- The slot holds a vector of these bytes, or nothing for no bytes.
  abbrev pub HasBytes : ℕ → Bytes → Type 0
  HasBytes slot bytes =
      ((Dict.get fs slot ≡ none) × (bytes ≡ []))
      ⊎ ((o : ℕ) × (Dict.get fs slot ≡ some (reference o))
          × laws.HasVector b o bytes
          × All IsByte bytes)

  -- The slot holds this 32-bit number, or nothing for 0.
  abbrev pub HasUint32 : ℕ → ℕ → Type 0
  HasUint32 slot x = ((Dict.get fs slot ≡ none) × (x ≡ 0)) ⊎ (Dict.get fs slot ≡ some (uint32 x))

  module _ (t : Table) (at : laws.At b t fs) where
    pub read_vector-HasBytes :
        (slot : ℕ) (bytes : Bytes)
        → HasBytes slot bytes
        → read_vector
            (vector_byte fb (vtable_offset slot) t)
            (vector_length fb (vtable_offset slot) t)
          ≡ ok bytes
    unfolding read_vector read_from
    read_vector-HasBytes slot bytes (inl (gone, empty)) =
        rw (vector_length-absent fb t (vtable_offset slot) (laws.read-absent b t fs slot at gone))
          (ap ok (sym empty))
    read_vector-HasBytes slot bytes (inr (o, there, held, small)) =
        let (a, start, found, counted, begins, reads) =
          laws.read-vector b t fs slot o bytes at there held in
        let elements =
          read_from-elements (vector_byte fb (vtable_offset slot) t) bytes 0
            (λ j x e.
              let zero_add : 0 + j ≡ j = omega arith in
              rw zero_add (
                vector_byte-found fb t (vtable_offset slot) a found start j x begins (reads j x e)))
            small in
        rw (vector_length-found fb t (vtable_offset slot) a found (length bytes) counted) elements

    -- Whether a vector is none tells an absent one from an empty one.
    vector_is_none-absent :
        (slot : ℕ) → Dict.get fs slot ≡ none → vector_is_none fb (vtable_offset slot) t ≡ ok true
    unfolding vector_is_none nat_eq
    vector_is_none-absent slot gone = rw (laws.read-absent b t fs slot at gone) refl

    vector_is_none-reference :
        (slot o : ℕ) (bytes : Bytes)
        → Dict.get fs slot ≡ some (reference o)
        → laws.HasVector b o bytes
        → vector_is_none fb (vtable_offset slot) t ≡ ok false
    unfolding vector_is_none
    vector_is_none-reference slot o bytes there held =
        let (a, start, found, counted, begins, reads) =
          laws.read-vector b t fs slot o bytes at there held in
        rw found (rw (suc-not_zero a) refl)

    pub stream_created_at-HasUint32 : (x : ℕ) → HasUint32 0 x → stream_created_at fb t ≡ ok x
    unfolding stream_created_at nat_eq
    stream_created_at-HasUint32 x (inl (gone, zero_)) =
        rw (laws.read-absent b t fs 0 at gone) (ap ok (sym zero_))
    stream_created_at-HasUint32 x (inr there) =
        let (a, found, reads) = laws.read-uint32 b t fs 0 x at there in
        rw found (rw (suc-not_zero a) reads)

    pub envelope_message_type-uint8 :
        (x : ℕ) → Dict.get fs 2 ≡ some (uint8 x) → envelope_message_type fb t ≡ ok x
    unfolding envelope_message_type
    envelope_message_type-uint8 x there =
        let (a, found, reads) = laws.read-uint8 b t fs 2 x at there in
        rw found (rw (suc-not_zero a) reads)

    pub envelope_message-reference :
        (o : ℕ) (inner : Fields)
        → Dict.get fs 3 ≡ some (reference o)
        → laws.HasTable b o inner
        → (t' : Table) × (envelope_message fb t ≡ ok (some t')) × laws.At b t' inner
    unfolding envelope_message
    envelope_message-reference o inner there held =
        let (a, t', found, joined, at') = laws.read-table b t fs 3 o inner at there held in
        (t', rw found (rw (suc-not_zero a) (rw joined refl)), at')
