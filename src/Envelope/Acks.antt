-- ===== src/Envelope/Acks.antt =====
-- `encode_ack`, step by step over a lawful runtime, and its round trip with `decode_ack`.
use python_fleet_telemetry.Prelude.{
  ℕ, ◌<◌, ◌≡◌, ◌≢◌, refl, subst, arith, inr, [], ◌∷◌, Bytes, nat_eq,
}
use python_fleet_telemetry.Prelude.Lists.{All}
use python_fleet_telemetry.Prelude.Dict
use python_fleet_telemetry.Errors.{ok}
use python_fleet_telemetry.Flatbuffers.{Flatbuffers}
use python_fleet_telemetry.Flatbuffers.Laws.{IsLawful, Fields, reference, uint8, stored-nonzero}
use python_fleet_telemetry.Envelope.Bindings.{
  stream_ack_start, stream_ack_end, envelope_start, envelope_end, envelope_add_txid,
  envelope_add_topic, envelope_add_message_type, envelope_add_message, envelope_add_message_id,
}
use python_fleet_telemetry.Envelope.{message_type_stream_ack, message_type, decode_ack, encode_ack}
use python_fleet_telemetry.Envelope.Reading.{IsByte}
use python_fleet_telemetry.Envelope.Built.{decode_ack-EnvelopeHas}

module _ (fb : Flatbuffers) (laws : IsLawful fb) where
  open fb use {
    Builder, builder, create_byte_vector, start_object, prepend_uoffset_slot, prepend_uint8_slot,
    end_object, finish, output,
  }
  open laws use {Extends, Extends-trans, HasVector, HasTable, HasOpen}

  -- A slot that is set to an offset other than 0 while a table is built.
  pub open-reference :
      (b : Builder) (n slot o : ℕ) (fs : Fields)
      → HasOpen b n fs
      → slot < n
      → o ≢ 0
      → let c = prepend_uoffset_slot b slot o 0 in
        Extends b c × HasOpen c n ((slot, reference o) ∷ fs)
  open-reference b n slot o fs h s nonzero =
      let (e, h') = laws.open-uoffset b n slot o fs h s in
      (
        e,
        subst (HasOpen (prepend_uoffset_slot b slot o 0) n)
            (stored-nonzero slot o reference fs nonzero) h',
      )

  -- The slots of an envelope with a tag and its four offsets.
  abbrev pub envelope_fields : (tag txid topic message message_id : ℕ) → Fields
  envelope_fields tag txid topic message message_id =
      (4, reference message_id)
      ∷ (3, reference message)
      ∷ (2, uint8 tag)
      ∷ (1, reference topic)
      ∷ (0, reference txid)
      ∷ []

  -- An envelope from its three vectors and its union on, in a builder with no table open.
  pub envelope-built :
      (b₄ : Builder) (tag txid topic message message_id : ℕ)
      → tag ≢ 0
      → IsByte tag
      → txid ≢ 0
      → topic ≢ 0
      → message ≢ 0
      → message_id ≢ 0
      → let b₅ = envelope_add_txid fb (envelope_start fb b₄) txid in
        let b₆ = envelope_add_topic fb b₅ topic in
        let b₇ = envelope_add_message_type fb b₆ tag in
        let b₈ = envelope_add_message fb b₇ message in
        let b₉ = envelope_add_message_id fb b₈ message_id in
        let (o, b) = envelope_end fb b₉ in
        Extends b₄ b × HasTable b o (envelope_fields tag txid topic message message_id)
  unfolding envelope_start envelope_add_txid envelope_add_topic envelope_add_message_type
      envelope_add_message envelope_add_message_id envelope_end
  envelope-built b₄ tag txid topic message message_id n₂ s₂ n₀ n₁ n₃ n₄ =
      let (e, h) = laws.open-start b₄ 5 in
      let (e₀, h₀) = open-reference _ 5 0 txid _ h (omega arith) n₀ in
      let (e₁, h₁) = open-reference _ 5 1 topic _ h₀ (omega arith) n₁ in
      let (e₂, h₂) = laws.open-uint8 _ 5 2 tag _ h₁ (omega arith) s₂ in
      let h₂' = subst (HasOpen _ 5) (stored-nonzero 2 tag uint8 _ n₂) h₂ in
      let (e₃, h₃) = open-reference _ 5 3 message _ h₂' (omega arith) n₃ in
      let (e₄, h₄) = open-reference _ 5 4 message_id _ h₃ (omega arith) n₄ in
      let (e₅, h₅, _) = laws.table-end _ 5 _ h₄ in
      (
        Extends-trans _ _ _ e (
            Extends-trans _ _ _ e₀ (
              Extends-trans _ _ _ e₁
                (Extends-trans _ _ _ e₂ (Extends-trans _ _ _ e₃ (Extends-trans _ _ _ e₄ e₅))))),
        h₅,
      )

  -- A stream ack encoded over a lawful runtime decodes to its three parts, whatever they are, and
  -- its tag is that of an ack; empty parts come back empty.
  pub decode_ack-encode_ack :
      (txid topic message_id : Bytes)
      → All IsByte txid
      → All IsByte topic
      → All IsByte message_id
      → let frame = encode_ack fb txid topic message_id in
        (decode_ack fb frame ≡ ok (record { topic = topic; txid = txid; message_id = message_id }))
        × (message_type fb frame ≡ ok message_type_stream_ack)
  unfolding encode_ack stream_ack_start stream_ack_end Dict.get nat_eq
  decode_ack-encode_ack txid topic message_id s₀ s₁ s₄ =
      let (e₁, v₁, n₁) = laws.vector-create (builder 0) txid s₀ in
      let b₁ = (create_byte_vector (builder 0) txid).1 in
      let (e₂, v₂, n₂) = laws.vector-create b₁ topic s₁ in
      let b₂ = (create_byte_vector b₁ topic).1 in
      let (e₃, v₃, n₃) = laws.vector-create b₂ message_id s₄ in
      let b₃ = (create_byte_vector b₂ message_id).1 in
      let (f₁, a₁) = laws.open-start b₃ 0 in
      let (f₂, _, n₄) = laws.table-end (start_object b₃ 0) 0 [] a₁ in
      let (g, h) =
        envelope-built (end_object (start_object b₃ 0)).1 5 _ _ _ _ (omega arith) (omega arith) n₁
          n₂ n₄ n₃ in
      let from₃ = Extends-trans _ _ _ f₁ (Extends-trans _ _ _ f₂ g) in
      let from₂ = Extends-trans _ _ _ e₃ from₃ in
      let from₁ = Extends-trans _ _ _ e₂ from₂ in
      decode_ack-EnvelopeHas fb laws _ _ _
        (record { topic = topic; txid = txid; message_id = message_id }) h
        (record {
          txid_held = inr (_, refl, laws.HasVector-Extends _ _ _ _ from₁ v₁, s₀);
          topic_held = inr (_, refl, laws.HasVector-Extends _ _ _ _ from₂ v₂, s₁);
          tag_held = refl;
          message_id_held = inr (_, refl, laws.HasVector-Extends _ _ _ _ from₃ v₃, s₄);
        })
