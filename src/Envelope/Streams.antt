-- ===== src/Envelope/Streams.antt =====
-- Stream frames written with the builders of the generated bindings, and `decode` on them.
use python_fleet_telemetry.Prelude.{
  ℕ, ◌<◌, ◌≡◌, ◌≢◌, refl, arith, inl, inr, [], ◌∷◌, Bytes, nat_eq, ◌==◌, Bool-cases,
}
use python_fleet_telemetry.Prelude.Lists.{All}
use python_fleet_telemetry.Prelude.Dict
use python_fleet_telemetry.Errors.{ok}
use python_fleet_telemetry.Flatbuffers.{Flatbuffers}
use python_fleet_telemetry.Flatbuffers.Laws.{IsLawful, Fields, reference, uint32, stored}
use python_fleet_telemetry.Envelope.Bindings.{
  stream_start, stream_add_created_at, stream_add_sender_id, stream_add_payload,
  stream_add_device_type, stream_add_device_id, stream_end, envelope_start, envelope_add_txid,
  envelope_add_topic, envelope_add_message_type, envelope_add_message, envelope_add_message_id,
  envelope_end,
}
use python_fleet_telemetry.Envelope.{message_type_stream, StreamFrame, message_type, decode}
use python_fleet_telemetry.Envelope.Reading.{IsByte, HasUint32}
use python_fleet_telemetry.Envelope.Built.{StreamHas, decode-Has}
use python_fleet_telemetry.Envelope.Acks.{open-reference, envelope-built}

-- The bytes and the time fit their fields.
pub record Fits (f : StreamFrame) : Type 0 where
  pub topic_fits : All IsByte f.topic
  pub txid_fits : All IsByte f.txid
  pub sender_id_fits : All IsByte f.sender_id
  pub device_type_fits : All IsByte f.device_type
  pub device_id_fits : All IsByte f.device_id
  pub payload_fits : All IsByte f.payload
  pub created_at_fits : f.created_at < 4294967296
  pub message_id_fits : All IsByte f.message_id

module _ (fb : Flatbuffers) where
  open fb use {Builder, create_byte_vector}

  -- The stream table with its four vectors.
  unfoldable pub stream_table : Builder → StreamFrame → ℕ × Builder
  stream_table b₀ f =
      let (sender_id, b₁) = create_byte_vector b₀ f.sender_id in
      let (payload, b₂) = create_byte_vector b₁ f.payload in
      let (device_type, b₃) = create_byte_vector b₂ f.device_type in
      let (device_id, b₄) = create_byte_vector b₃ f.device_id in
      let c₀ = stream_add_created_at fb (stream_start fb b₄) f.created_at in
      let c₁ = stream_add_sender_id fb c₀ sender_id in
      let c₂ = stream_add_payload fb c₁ payload in
      let c₃ = stream_add_device_type fb c₂ device_type in
      stream_end fb (stream_add_device_id fb c₃ device_id)

  -- A stream frame, as a device writes it.
  unfoldable pub written : StreamFrame → Bytes
  unfolding stream_table
  written f =
      let (txid, b₁) = create_byte_vector (fb.builder 0) f.txid in
      let (topic, b₂) = create_byte_vector b₁ f.topic in
      let (message_id, b₃) = create_byte_vector b₂ f.message_id in
      let (message, b₄) = stream_table b₃ f in
      let b₅ = envelope_add_txid fb (envelope_start fb b₄) txid in
      let b₆ = envelope_add_topic fb b₅ topic in
      let b₇ = envelope_add_message_type fb b₆ message_type_stream in
      let b₈ = envelope_add_message fb b₇ message in
      let b₉ = envelope_add_message_id fb b₈ message_id in
      let (o, b) = envelope_end fb b₉ in fb.output (fb.finish b o)

module _ (fb : Flatbuffers) (laws : IsLawful fb) where
  open fb use {Builder, builder, create_byte_vector}
  open laws use {Extends, Extends-trans, HasTable}

  abbrev stream_fields : (created_at sender_id payload device_type device_id : ℕ) → Fields
  stream_fields created_at sender_id payload device_type device_id =
      (4, reference device_id)
      ∷ (3, reference device_type)
      ∷ (2, reference payload)
      ∷ (1, reference sender_id)
      ∷ stored 0 created_at uint32 []

  -- The table from its four vectors on.
  stream-built :
      (b₄ : Builder) (created_at sender_id payload device_type device_id : ℕ)
      → created_at < 4294967296
      → sender_id ≢ 0
      → payload ≢ 0
      → device_type ≢ 0
      → device_id ≢ 0
      → let c₀ = stream_add_created_at fb (stream_start fb b₄) created_at in
        let c₁ = stream_add_sender_id fb c₀ sender_id in
        let c₂ = stream_add_payload fb c₁ payload in
        let c₃ = stream_add_device_type fb c₂ device_type in
        let (o, b) = stream_end fb (stream_add_device_id fb c₃ device_id) in
        Extends b₄ b
        × HasTable b o (stream_fields created_at sender_id payload device_type device_id)
        × (o ≢ 0)
  unfolding stream_start stream_add_created_at stream_add_sender_id stream_add_payload
      stream_add_device_type stream_add_device_id stream_end
  stream-built b₄ created_at sender_id payload device_type device_id s₀ n₁ n₂ n₃ n₄ =
      let (e, h) = laws.open-start b₄ 6 in
      let (e₀, h₀) = laws.open-uint32 _ 6 0 created_at _ h (omega arith) s₀ in
      let (e₁, h₁) = open-reference fb laws _ 6 1 sender_id _ h₀ (omega arith) n₁ in
      let (e₂, h₂) = open-reference fb laws _ 6 2 payload _ h₁ (omega arith) n₂ in
      let (e₃, h₃) = open-reference fb laws _ 6 3 device_type _ h₂ (omega arith) n₃ in
      let (e₄, h₄) = open-reference fb laws _ 6 4 device_id _ h₃ (omega arith) n₄ in
      let (e₅, h₅, nonzero) = laws.table-end _ 6 _ h₄ in
      (
        Extends-trans _ _ _ e (
            Extends-trans _ _ _ e₀ (
              Extends-trans _ _ _ e₁
                (Extends-trans _ _ _ e₂ (Extends-trans _ _ _ e₃ (Extends-trans _ _ _ e₄ e₅))))),
        h₅,
        nonzero,
      )

  created_at-held :
      (b : Builder) (created_at : ℕ)
      → HasUint32 fb laws b (stored 0 created_at uint32 []) 0 created_at
  unfolding Dict.get nat_eq
  created_at-held b created_at = elim (Bool-cases (created_at == 0)) [
    | inl default ↦ rw default (inl (refl, ground arith))
    | inr set ↦ rw set (inr refl)
  ]

  -- The table that is written, and its fields.
  stream_table-Has :
      (b₀ : Builder) (f : StreamFrame)
      → Fits f
      → let (o, b) = stream_table fb b₀ f in
        Extends b₀ b
        × (o ≢ 0)
        × (fs : Fields) × HasTable b o fs
        × ((c : Builder) → Extends b c → StreamHas fb laws c fs f)
  unfolding stream_table Dict.get nat_eq
  stream_table-Has b₀ f s =
      let (e₁, v₁, n₁) = laws.vector-create b₀ f.sender_id s.sender_id_fits in
      let b₁ = (create_byte_vector b₀ f.sender_id).1 in
      let (e₂, v₂, n₂) = laws.vector-create b₁ f.payload s.payload_fits in
      let b₂ = (create_byte_vector b₁ f.payload).1 in
      let (e₃, v₃, n₃) = laws.vector-create b₂ f.device_type s.device_type_fits in
      let b₃ = (create_byte_vector b₂ f.device_type).1 in
      let (e₄, v₄, n₄) = laws.vector-create b₃ f.device_id s.device_id_fits in
      let b₄ = (create_byte_vector b₃ f.device_id).1 in
      let (from₄, h, nonzero) =
        stream-built b₄ f.created_at _ _ _ _ s.created_at_fits n₁ n₂ n₃ n₄ in
      let from₃ = Extends-trans _ _ _ e₄ from₄ in
      let from₂ = Extends-trans _ _ _ e₃ from₃ in
      let from₁ = Extends-trans _ _ _ e₂ from₂ in
      (
        Extends-trans _ _ _ e₁ from₁,
        nonzero,
        _,
        h,
        λ c e. record {
          created_at_held = created_at-held c f.created_at;
          sender_id_held = inr (
            _,
            refl,
            laws.HasVector-Extends _ _ _ _ (Extends-trans _ _ _ from₁ e) v₁,
            s.sender_id_fits,
          );
          payload_held = inr (
            _,
            refl,
            laws.HasVector-Extends _ _ _ _ (Extends-trans _ _ _ from₂ e) v₂,
            s.payload_fits,
          );
          device_type_held = inr (
            _,
            refl,
            laws.HasVector-Extends _ _ _ _ (Extends-trans _ _ _ from₃ e) v₃,
            s.device_type_fits,
          );
          device_id_held = inr (
            _,
            refl,
            laws.HasVector-Extends _ _ _ _ (Extends-trans _ _ _ from₄ e) v₄,
            s.device_id_fits,
          );
        },
      )

  -- Over a lawful runtime, a stream frame written with the builders of the bindings, of bytes and a
  -- 32-bit time, decodes to exactly its eight fields, and its tag is that of a stream; empty fields
  -- and the time 0 come back as they were.
  pub decode-written :
      (f : StreamFrame)
      → Fits f
      → (decode fb (written fb f) ≡ ok f)
        × (message_type fb (written fb f) ≡ ok message_type_stream)
  unfolding written Dict.get nat_eq
  decode-written f s =
      let (e₁, v₁, n₁) = laws.vector-create (builder 0) f.txid s.txid_fits in
      let b₁ = (create_byte_vector (builder 0) f.txid).1 in
      let (e₂, v₂, n₂) = laws.vector-create b₁ f.topic s.topic_fits in
      let b₂ = (create_byte_vector b₁ f.topic).1 in
      let (e₃, v₃, n₃) = laws.vector-create b₂ f.message_id s.message_id_fits in
      let b₃ = (create_byte_vector b₂ f.message_id).1 in
      let (e₄, nonzero, fs, table, fields) = stream_table-Has b₃ f s in
      let (g, h) =
        envelope-built fb laws (stream_table fb b₃ f).1 4 _ _ _ _ (omega arith) (omega arith) n₁ n₂
          nonzero n₃ in
      let from₃ = Extends-trans _ _ _ e₄ g in
      let from₂ = Extends-trans _ _ _ e₃ from₃ in
      let from₁ = Extends-trans _ _ _ e₂ from₂ in
      decode-Has fb laws _ _ _ _ fs f h
        (record {
          txid_held = inr (_, refl, laws.HasVector-Extends _ _ _ _ from₁ v₁, s.txid_fits);
          topic_held = inr (_, refl, laws.HasVector-Extends _ _ _ _ from₂ v₂, s.topic_fits);
          tag_held = refl;
          message_id_held =
              inr (_, refl, laws.HasVector-Extends _ _ _ _ from₃ v₃, s.message_id_fits);
        })
        refl (laws.HasTable-Extends _ _ _ _ g table) (fields _ g)
