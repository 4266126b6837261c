-- ===== src/Dispatch/Isolation.antt =====
-- Which listeners a dispatch calls: each that matches, in the order of registration, whatever the
-- others raise.
use python_fleet_telemetry.Prelude.{
  ℕ, suc, ◌≡◌, refl, ap, ◌∙◌, true, false, ◌⊎◌, inl, inr, Option, List, [], ◌∷◌, ◌++◌, Str, arith,
  Bool-cases, if◌then◌else◌,
}
use python_fleet_telemetry.Prelude.Dict.{Dict, keys, values}
use python_fleet_telemetry.Errors.{Result, ok, raise, cancelled}
use python_fleet_telemetry.Protobuf.{Protobuf}
use python_fleet_telemetry.Records.{Record, fields}
use python_fleet_telemetry.Dispatch.State.{Registration, matches, Dispatcher}
use python_fleet_telemetry.Dispatch.Loop.{
  World, caught, perform_all, notify, with_fields, after_fan_out, dispatch,
}
use python_fleet_telemetry.Dispatch.Invariant.{IsWell}
use python_fleet_telemetry.Dispatch.Invariant.Streams.{fan_out-Turned}

module _ (pb : Protobuf) where
  -- The callbacks of the registrations that match, in order.
  abbrev pub matching : List Registration → Record pb → List Str → List ℕ
  matching [] r ks = []
  matching (reg ∷ regs) r ks =
      let rest = matching regs r ks in if matches pb reg r ks then reg.callback ∷ rest else rest

  notify-called :
      (world : World pb) (n : ℕ) (regs : List Registration) (r : Record pb) (ks : List Str)
      (d : Dispatcher pb)
      → ((m callback : ℕ) → caught pb (world m callback).outcome ≡ true)
      → ((notify pb world n regs r ks d).called ≡ matching regs r ks)
        × ((notify pb world n regs r ks d).result ≡ ok tt)
  unfolding notify
  notify-called world n [] r ks d h = (refl, refl)
  notify-called world n (reg ∷ regs) r ks d h = elim (Bool-cases (matches pb reg r ks)) [
    | inr skip ↦ rw (skip, notify) (notify-called world n regs r ks d h)
    | inl hit ↦
        let d' = perform_all pb (world n reg.callback).actions d in
        let (c, e) = notify-called world (suc n) regs r ks d' h in
        rw (hit, notify) (rw (h n reg.callback, notify) (ap (λ l. reg.callback ∷ l) c, e))
  ]

  -- However the listeners end, the dispatch ends normally or with what is no `Exception`, and the
  -- listeners that it called are the first of those that match.
  abbrev pub Prefix : List ℕ → List ℕ → Type 0
  Prefix xs all = (rest : List ℕ) × (xs ++ rest ≡ all)

  cancelled_only : (o : Result (Unit {0})) → caught pb o ≡ false → o ≡ raise cancelled
  cancelled_only (ok _) h = cc
  cancelled_only (raise e) h = ground arith

  notify-Prefix :
      (world : World pb) (n : ℕ) (regs : List Registration) (r : Record pb) (ks : List Str)
      (d : Dispatcher pb)
      → let run = notify pb world n regs r ks d in
        ((run.result ≡ ok tt) ⊎ (run.result ≡ raise cancelled))
        × Prefix run.called (matching regs r ks)
  unfolding notify
  notify-Prefix world n [] r ks d = (inl refl, ([], refl))
  notify-Prefix world n (reg ∷ regs) r ks d = elim (Bool-cases (matches pb reg r ks)) [
    | inr skip ↦ rw (skip, notify) (notify-Prefix world n regs r ks d)
    | inl hit ↦
        rw (hit, notify)
          (elim (Bool-cases (caught pb (world n reg.callback).outcome)) [
            | inr stop ↦ rw (stop, notify) (inr (cancelled_only _ stop), (matching regs r ks, refl))
            | inl go_on ↦
                let d' = perform_all pb (world n reg.callback).actions d in
                let (e, (rest, p)) = notify-Prefix world (suc n) regs r ks d' in
                rw (go_on, notify) (e, (rest, ap (λ l. reg.callback ∷ l) p))
          ])
  ]

  -- Past the fan-out a dispatch is the loop over the listeners.
  dispatch-notify :
      (world : World pb) (r : Record pb) (d : Dispatcher pb) (fs : Dict Str (Option pb.Object))
      → IsWell pb d
      → fields pb r ≡ ok fs
      → (d' : Dispatcher pb) × (dispatch pb world r d
          ≡ notify pb world 0 (values d.registrations) r (keys fs) d')
  unfolding dispatch
  dispatch-notify world r d fs w f =
      let (d', e, t) = fan_out-Turned pb r d w in
      (
        d',
        ap (after_fan_out pb world r) e
            ∙ ap (with_fields pb world r d') f
            ∙ ap (λ x. notify pb world 0 (values x) r (keys fs) d')
                (ap (λ x. x.registrations) t.rest),
      )

  -- On a well-formed dispatcher, a dispatch of a record whose fields compute, to listeners that
  -- return or raise an `Exception`, each in its own way, calls exactly the listeners that match, in
  -- the order of their registration, and ends without an error.
  pub dispatch-called :
      (world : World pb) (r : Record pb) (d : Dispatcher pb) (fs : Dict Str (Option pb.Object))
      → IsWell pb d
      → fields pb r ≡ ok fs
      → ((n callback : ℕ) → caught pb (world n callback).outcome ≡ true)
      → ((dispatch pb world r d).called ≡ matching (values d.registrations) r (keys fs))
        × ((dispatch pb world r d).result ≡ ok tt)
  dispatch-called world r d fs w f h =
      let (d', e) = dispatch-notify world r d fs w f in
      rw e (notify-called world 0 (values d.registrations) r (keys fs) d' h)

  -- On a well-formed dispatcher and a record whose fields compute, whatever the listeners do, a
  -- dispatch ends without an error or is cancelled, and the listeners that it called are the first
  -- of those that match.
  pub dispatch-Prefix :
      (world : World pb) (r : Record pb) (d : Dispatcher pb) (fs : Dict Str (Option pb.Object))
      → IsWell pb d
      → fields pb r ≡ ok fs
      → (((dispatch pb world r d).result ≡ ok tt)
          ⊎ ((dispatch pb world r d).result ≡ raise cancelled))
        × Prefix (dispatch pb world r d).called (matching (values d.registrations) r (keys fs))
  dispatch-Prefix world r d fs w f =
      let (d', e) = dispatch-notify world r d fs w f in
      rw e (notify-Prefix world 0 (values d.registrations) r (keys fs) d')
