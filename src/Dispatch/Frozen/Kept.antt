-- ===== src/Dispatch/Frozen/Kept.antt =====
-- A stream that has closed stays as it is, but for its own waits that are taken up again.
use python_fleet_telemetry.Prelude.{
  ℕ, ◌≡◌, ◌≢◌, refl, sym, ap, ◌∙◌, Bool, true, false, some, arith, contains, nat_eq, Option-cases,
  Bool-cases, inl, inr,
}
use python_fleet_telemetry.Prelude.Dict
use python_fleet_telemetry.Prelude.Dict.{get-put}
use python_fleet_telemetry.Protobuf.{Protobuf}
use python_fleet_telemetry.Records.{Record}
use python_fleet_telemetry.Dispatch.State.{Stream, Dispatcher}
use python_fleet_telemetry.Dispatch.Streams.{forget, pull, anext, aclose, fan_out, close}
use python_fleet_telemetry.Dispatch.Invariant.{IsWell}
use python_fleet_telemetry.Dispatch.Invariant.Streams.{fan_out-Turned, close-Turned}

module _ (pb : Protobuf) (sid : ℕ) (s : Stream pb) (shut : s.closed ≡ true) where
  -- The stream `sid` is `s`.
  abbrev pub IsHeld : Dispatcher pb → Type 0
  IsHeld d = Dict.get d.streams sid ≡ some s

  pub IsHeld-unregistered :
      (d : Dispatcher pb) → IsWell pb d → IsHeld d → contains d.queues sid ≡ false
  IsHeld-unregistered d w e = elim (Bool-cases (contains d.queues sid)) [
    | inr no_ ↦ no_
    | inl yes_ ↦
        let (_, _, open_) = (rw e at (w.streams sid)) in let opened = open_ yes_ in absurd cc
  ]

  pub IsHeld-made : (d : Dispatcher pb) → IsWell pb d → IsHeld d → sid ≢ d.made
  IsHeld-made d w e same = let gone = w.unmade sid (omega arith) in absurd cc

  pub put-IsHeld :
      (d : Dispatcher pb) (j : ℕ) (t : Stream pb)
      → IsHeld d
      → (sid ≡ j → t ≡ s)
      → Dict.get (Dict.put d.streams j t) sid ≡ some s
  put-IsHeld d j t e same = rw get-put (ground arith)

  shut_stream : record s { closed = true } ≡ s
  shut_stream = ap (λ c. record s { closed = c }) (sym shut)

  pub same_stream :
      (j : ℕ) (t : Stream pb) (d : Dispatcher pb)
      → IsHeld d
      → Dict.get d.streams j ≡ some t
      → sid ≡ j
      → t ≡ s
  same_stream j t d e there same =
      let again : Dict.get d.streams sid ≡ some t = rw same there in
      let one : some t ≡ some s = sym again ∙ e in cc

  pull-IsHeld :
      (j : ℕ) (t : Stream pb) (c : Bool) (d : Dispatcher pb)
      → IsHeld d
      → Dict.get d.streams j ≡ some t
      → t.closed ≡ c
      → IsHeld (pull pb j t c d).1
  unfolding pull forget
  pull-IsHeld j t true d e there closed = e
  pull-IsHeld j t false d e there open_ =
      put-IsHeld d j _ e (λ same. absurd (differs (same_stream j t d e there same)))
    where
      differs : t ≡ s → ⊥
      differs p = let q : t.closed ≡ s.closed = ap (λ (x : Stream pb). x.closed) p in absurd cc

  pub anext-IsHeld : (j : ℕ) (d : Dispatcher pb) → IsHeld d → IsHeld (anext pb j d).1
  unfolding anext
  anext-IsHeld j d e = elim (Option-cases (Dict.get d.streams j)) [
    | inl gone ↦ rw (gone, anext) e
    | inr (t, there) ↦ rw (there, anext) (pull-IsHeld j t t.closed d e there refl)
  ]

  pub aclose-IsHeld : (j : ℕ) (d : Dispatcher pb) → IsHeld d → IsHeld (aclose pb j d)
  unfolding aclose forget
  aclose-IsHeld j d e = elim (Option-cases (Dict.get d.streams j)) [
    | inl gone ↦ rw (gone, aclose) e
    | inr (t, there) ↦
        rw (there, aclose)
          (put-IsHeld d j (record t { closed = true }) e
            λ same.
              ap (λ (x : Stream pb). record x { closed = true }) (same_stream j t d e there same)
              ∙ shut_stream)
  ]

  pub fan_out-IsHeld :
      (r : Record pb) (d : Dispatcher pb) → IsWell pb d → IsHeld d → IsHeld (fan_out pb r d).1
  fan_out-IsHeld r d w e =
      let (d', delivers, t) = fan_out-Turned pb r d w in
      rw delivers (t.at sid ∙ rw (IsHeld-unregistered d w e) e)

  pub close-IsHeld : (d : Dispatcher pb) → IsWell pb d → IsHeld d → IsHeld (close pb d).1
  close-IsHeld d w e =
      let (d', closes, t) = close-Turned pb d w in
      rw closes (t.at sid ∙ rw (IsHeld-unregistered d w e) e)
