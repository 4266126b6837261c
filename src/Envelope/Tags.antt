-- ===== src/Envelope/Tags.antt =====
-- Decoding and the union tag, and the one class of errors that leaves the module.
use python_fleet_telemetry.Prelude.{
  ℕ, ◌≡◌, ◌≢◌, refl, ◌⊎◌, inl, inr, true, false, Bytes, codes, arith, Bool-cases, sym, ◌∙◌, nat_eq,
}
use python_fleet_telemetry.Errors.{
  Error, Result, ok, raise, envelope_error, is_envelope_error, is_exception, >>=-eq-ok,
}
use python_fleet_telemetry.Flatbuffers.{Flatbuffers, Table}
use python_fleet_telemetry.Envelope.Bindings.{envelope_message_type}
use python_fleet_telemetry.Envelope.{
  message_type_stream, message_type_stream_ack, StreamFrame, AckFrame, only_envelope_error, root,
  message_type, tagged_frame, decode, tagged_ack, decode_ack,
}

-- A result or an error of the one class that the module lets out, where it is an `Exception`.
abbrev pub IsGuarded {ℓ} : {A : Type ℓ} → Result A → Type 0
IsGuarded (ok a) = Unit
IsGuarded (raise e) = (is_envelope_error e ≡ true) ⊎ (is_exception e ≡ false)

only_envelope_error-IsGuarded {ℓ} :
    {A : Type ℓ} (failure : Error) (m : Result A)
    → is_envelope_error failure ≡ true
    → IsGuarded (only_envelope_error failure m)
unfolding only_envelope_error
only_envelope_error-IsGuarded failure (ok a) f = tt
only_envelope_error-IsGuarded failure (raise x) f = elim (Bool-cases (is_envelope_error x)) [
  | inl own ↦ rw own (inl own)
  | inr foreign ↦ rw foreign (elim (Bool-cases (is_exception x)) [
    | inl caught ↦ rw caught (inl f)
    | inr base ↦ rw base (inr base)
  ])
]

pub only_envelope_error-ok {ℓ} :
    {A : Type ℓ} (failure : Error) (m : Result A) (a : A)
    → only_envelope_error failure m ≡ ok a
    → m ≡ ok a
unfolding only_envelope_error
only_envelope_error-ok failure (ok b) a h = h
only_envelope_error-ok failure (raise x) a h = ground arith

module _ (fb : Flatbuffers) (frame : Bytes) where
  -- On any bytes, and whatever the FlatBuffers runtime raises on them, `message_type`, `decode` and
  -- `decode_ack` raise no `Exception` but an `EnvelopeError`.
  pub decode-IsGuarded :
      IsGuarded (message_type fb frame)
      × IsGuarded (decode fb frame)
      × IsGuarded (decode_ack fb frame)
  unfolding message_type decode decode_ack
  decode-IsGuarded = (
    only_envelope_error-IsGuarded _ _ refl,
    only_envelope_error-IsGuarded _ _ refl,
    only_envelope_error-IsGuarded _ _ refl,
  )

  tag_of :
      (env : Table) (tag : ℕ)
      → root fb frame ≡ ok env
      → envelope_message_type fb env ≡ ok tag
      → message_type fb frame ≡ ok tag
  unfolding message_type only_envelope_error
  tag_of env tag r t = rw r (rw t)

  -- A frame that `decode` accepts has, for `message_type`, the tag of a stream.
  pub message_type-decode :
      (f : StreamFrame) → decode fb frame ≡ ok f → message_type fb frame ≡ ok message_type_stream
  unfolding decode tagged_frame
  message_type-decode f h =
      let (env, r, h') = >>=-eq-ok (root fb frame) _ (only_envelope_error-ok _ _ f h) in
      let (tag, t, h'') = >>=-eq-ok (envelope_message_type fb env) _ h' in
      tag_of env message_type_stream r (t ∙ ground arith)

  message_type-decode_ack :
      (a : AckFrame)
      → decode_ack fb frame ≡ ok a
      → message_type fb frame ≡ ok message_type_stream_ack
  unfolding decode_ack tagged_ack
  message_type-decode_ack a h =
      let (env, r, h') = >>=-eq-ok (root fb frame) _ (only_envelope_error-ok _ _ a h) in
      let (tag, t, h'') = >>=-eq-ok (envelope_message_type fb env) _ h' in
      tag_of env message_type_stream_ack r (t ∙ ground arith)

  wrong_tag :
      (failure : Error) (env : Table) (tag : ℕ)
      → tag ≢ message_type_stream
      → only_envelope_error failure (tagged_frame fb env tag)
        ≡ raise (envelope_error (codes "expected Stream"))
  unfolding only_envelope_error tagged_frame
  wrong_tag failure env tag other = ground arith

  -- A frame that `message_type` reads with another tag than a stream's is refused by `decode` with
  -- an `EnvelopeError`.
  pub decode_other_tag :
      (tag : ℕ)
      → message_type fb frame ≡ ok tag
      → tag ≢ message_type_stream
      → decode fb frame ≡ raise (envelope_error (codes "expected Stream"))
  unfolding message_type decode tagged_frame
  decode_other_tag tag h other =
      let (env, r, t) = >>=-eq-ok (root fb frame) _ (only_envelope_error-ok _ _ tag h) in
      rw r (rw t (wrong_tag _ env tag other))

  -- No frame decodes both as a stream and as an ack.
  pub decode_exclusive :
      (f : StreamFrame) (a : AckFrame) → decode fb frame ≡ ok f → decode_ack fb frame ≢ ok a
  decode_exclusive f a h k =
      let same : ok message_type_stream ≡ ok message_type_stream_ack =
        sym (message_type-decode f h) ∙ message_type-decode_ack a k in
      ground arith
