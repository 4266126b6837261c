-- ===== src/Dispatch/Delivery.antt =====
-- What a stream holds: the newest records that fit, in the order of their dispatch.
use python_fleet_telemetry.Prelude.{
  ℕ, zero, suc, ◌≡◌, refl, sym, ap, ◌∙◌, subst, Bool, true, false, inl, inr, Option, none, some,
  List, [], ◌∷◌, ◌++◌, map, arith, ltb, contains, nat_eq, Bool-cases, if◌then◌else◌,
}
use mathlib.Core.List.{append_assoc, append-nil}
use python_fleet_telemetry.Prelude.Lists.{length, length-append}
use python_fleet_telemetry.Prelude.Dict
use python_fleet_telemetry.Prelude.Dict.{get-put}
use python_fleet_telemetry.Errors.{Result, ok}
use python_fleet_telemetry.Queue.Window.{window, pushed, window_short, window_cons}
use python_fleet_telemetry.Protobuf.{Protobuf}
use python_fleet_telemetry.Records.{Record}
use python_fleet_telemetry.Dispatch.State.{Item, item, Stream, Dispatcher, records}
use python_fleet_telemetry.Dispatch.Streams.{fan_out}
use python_fleet_telemetry.Dispatch.Loop.{deliver, perform, perform_all}
use python_fleet_telemetry.Dispatch.Ids.{contains-add}
use python_fleet_telemetry.Dispatch.Turns.{turned}
use python_fleet_telemetry.Dispatch.Invariant.{IsWell, records-IsWell}
use python_fleet_telemetry.Dispatch.Invariant.Streams.{fan_out-Turned, fan_out-IsWell}

window-nil {ℓ} : {A : Type ℓ} (m : ℕ) → window {A = A} m [] ≡ []
window-nil zero = window_short 0 [] (inl refl)
window-nil (suc n) = window_short (suc n) [] (inr (omega arith))

-- A window over a window and more is the window over all.
window-window {ℓ} :
    {A : Type ℓ} (m : ℕ) (xs : List A) (a : A)
    → window m (window m xs ++ (a ∷ [])) ≡ window m (xs ++ (a ∷ []))
window-window zero xs a = ap (λ ys. window 0 (ys ++ (a ∷ []))) (window_short 0 xs (inl refl))
window-window (suc n) [] a =
    ap (λ ys. window (suc n) (ys ++ (a ∷ []))) (window_short (suc n) [] (inr (omega arith)))
window-window (suc n) (x ∷ xs) a = elim (Bool-cases (ltb n (length xs))) [
  | inl long ↦
      ap (λ ys. window (suc n) (ys ++ (a ∷ [])))
        (window_cons (suc n) x xs (omega arith) (ground arith))
      ∙ window-window (suc n) xs a
      ∙ sym (
          window_cons (suc n) x (xs ++ (a ∷ [])) (omega arith)
            (ground (arith, length-append xs (a ∷ []))))
  | inr short ↦
      ap (λ ys. window (suc n) (ys ++ (a ∷ [])))
        (window_short (suc n) (x ∷ xs) (inr (ground arith)))
]

module _ (pb : Protobuf) where
  -- What the fan-out makes of a stream whose queue is registered.
  abbrev pub delivered : Record pb → Option (Stream pb) → Option (Stream pb)
  delivered r none = none
  delivered r (some s) = some (record s {
    queue = record s.queue { items = window s.queue.maxsize (s.queue.items ++ (item r ∷ [])) };
  })

  -- On a well-formed dispatcher the fan-out of a record raises nothing. It leaves in every
  -- registered queue the newest `maxsize` of its items and the record (all of them if `maxsize` is
  -- 0), and it changes no other stream and no listener.
  pub fan_out-window :
      (r : Record pb) (d : Dispatcher pb)
      → IsWell pb d
      → ((fan_out pb r d).0 ≡ ok tt)
        × ((j : ℕ)
            → Dict.get (fan_out pb r d).1.streams j ≡ (
                if contains d.queues j
                then delivered r (Dict.get d.streams j)
                else Dict.get d.streams j))
        × ((fan_out pb r d).1.queues ≡ d.queues)
        × ((fan_out pb r d).1.registrations ≡ d.registrations)
  fan_out-window r d w =
      let (d', e, t) = fan_out-Turned pb r d w in
      subst
        (λ (x : Result (Unit {0}) × Dispatcher pb).
          (x.0 ≡ ok tt)
          × ((j : ℕ)
              → Dict.get x.1.streams j ≡ (
                  if contains d.queues j
                  then delivered r (Dict.get d.streams j)
                  else Dict.get d.streams j))
          × (x.1.queues ≡ d.queues)
          × (x.1.registrations ≡ d.registrations))
        (sym e)
        (
          refl,
          λ j. t.at j ∙ same (contains d.queues j) (Dict.get d.streams j),
          ap (λ x. x.queues) t.rest,
          ap (λ x. x.registrations) t.rest,
        )
    where
      same :
          (b : Bool) (o : Option (Stream pb))
          → (if b then turned pb (pushed (item r)) o else o) ≡ (if b then delivered r o else o)
      same true none = refl
      same true (some s) = refl
      same false o = refl

  abbrev pub backlog : Option (Stream pb) → List (Item pb)
  backlog none = []
  backlog (some s) = s.queue.items

  deliveries :
      (rs : List (Record pb)) (old : List (Item pb)) (d : Dispatcher pb) (j : ℕ) (s : Stream pb)
      → IsWell pb d
      → contains d.queues j ≡ true
      → Dict.get d.streams j ≡ some s
      → s.queue.items ≡ window s.queue.maxsize old
      → backlog (Dict.get (perform_all pb (map deliver rs) d).streams j)
        ≡ window s.queue.maxsize (old ++ map item rs)
  unfolding perform_all perform
  deliveries [] old d j s w c e h = rw e (h ∙ ap (window s.queue.maxsize) (sym (append-nil old)))
  deliveries (r ∷ rs) old d j s w c e h =
      let (_, at, q, _) = fan_out-window r d w in
      deliveries rs (old ++ (item r ∷ [])) (fan_out pb r d).1 j
        (record s {
          queue = record s.queue {
            items = window s.queue.maxsize (s.queue.items ++ (item r ∷ []));
          };
        })
        (fan_out-IsWell pb r d w) (rw q c) (at j ∙ ground arith)
        (ap (λ ys. window s.queue.maxsize (ys ++ (item r ∷ []))) h
          ∙ window-window s.queue.maxsize old (item r))
      ∙ ap (window s.queue.maxsize) (append_assoc old (item r ∷ []) (map item rs))

  -- On a well-formed dispatcher that is not closed, a new stream that is not read holds, after the
  -- fan-out of any number of records, the newest `queue_maxsize` of those, in order (all of them if
  -- that is 0).
  pub records-window :
      (d : Dispatcher pb) (rs : List (Record pb))
      → IsWell pb d
      → d.closed ≡ false
      → backlog
          (Dict.get (perform_all pb (map deliver rs) (records pb d).1).streams (records pb d).0)
        ≡ window d.queue_maxsize (map item rs)
  unfolding records
  records-window d rs w c =
      deliveries rs [] (records pb d).1 d.made
        (record { closed = d.closed; queue = record { maxsize = d.queue_maxsize; items = [] } })
        (records-IsWell pb d w) (ground (arith, contains-add d.made d.queues d.made))
        (rw get-put (ground arith)) (sym (window-nil d.queue_maxsize))
