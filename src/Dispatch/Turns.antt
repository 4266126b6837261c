-- ===== src/Dispatch/Turns.antt =====
-- A loop of turns over the registered queues: each of them takes one turn, and nothing else
-- changes.
use python_fleet_telemetry.Prelude.{
  ℕ, ◌≡◌, refl, ap, ◌∙◌, Option, none, some, List, [], ◌∷◌, arith, contains, nat_eq, Option-cases,
  inl, inr, if◌then◌else◌,
}
use python_fleet_telemetry.Prelude.Dict
use python_fleet_telemetry.Prelude.Dict.{get-put}
use python_fleet_telemetry.Errors.{Result, ok}
use python_fleet_telemetry.Queue.{Queue, IsBounded}
use python_fleet_telemetry.Protobuf.{Protobuf}
use python_fleet_telemetry.Dispatch.State.{Item, Stream, Dispatcher}
use python_fleet_telemetry.Dispatch.Ids.{NodupIds}
use python_fleet_telemetry.Dispatch.Streams.{on_stream, each_queue}

module _ (pb : Protobuf) where
  -- The queue of every stream is within its bound.
  abbrev pub AllBounded : Dispatcher pb → Type 0
  AllBounded d = (sid : ℕ) (s : Stream pb) → Dict.get d.streams sid ≡ some s → IsBounded s.queue

  abbrev pub turned : (Queue (Item pb) → Queue (Item pb)) → Option (Stream pb) → Option (Stream pb)
  turned g none = none
  turned g (some s) = some (record s { queue = g s.queue })

  module _ (f : Queue (Item pb) → Result (Queue (Item pb))) (g : Queue (Item pb) → Queue (Item pb))
      (f-eq-g : (q : Queue (Item pb)) → IsBounded q → f q ≡ ok (g q))
      (g-IsBounded : (q : Queue (Item pb)) → IsBounded (g q)) where
    -- The loop over `sids`, from `d`, ends in `d'`.
    pub record Turned (sids : List ℕ) (d d' : Dispatcher pb) : Type 0 where
      pub rest : d' ≡ record d { streams = d'.streams }
      pub at :
          (sid : ℕ)
          → Dict.get d'.streams sid ≡ (
              if contains sids sid
              then turned g (Dict.get d.streams sid)
              else Dict.get d.streams sid)
      pub bounded : AllBounded d'

    one_turn :
        (sid : ℕ) (d : Dispatcher pb)
        → AllBounded d
        → (d' : Dispatcher pb) × (on_stream pb f sid d ≡ ok d') × Turned (sid ∷ []) d d'
    unfolding on_stream
    one_turn sid d b = elim (Option-cases (Dict.get d.streams sid)) [
      | inl e ↦ (d, rw (e, on_stream), record { rest = refl; at = λ j. ground arith; bounded = b })
      | inr (s, e) ↦ (
        record d { streams = Dict.put d.streams sid (record s { queue = g s.queue }) },
        rw (e, on_stream) (rw (f-eq-g s.queue (b sid s e), on_stream)),
        record {
          rest = refl;
          at = λ j. rw get-put (ground arith);
          bounded = λ j t p. ground (
            arith,
            get-put d.streams sid j (record s { queue = g s.queue }),
            b j t,
            g-IsBounded s.queue,
          );
        },
      )
    ]

    pub each_queue-Turned :
        (sids : List ℕ) (d : Dispatcher pb)
        → NodupIds sids
        → AllBounded d
        → (d' : Dispatcher pb) × (each_queue pb f sids d ≡ (ok tt, d')) × Turned sids d d'
    unfolding each_queue
    each_queue-Turned [] d n b = (d, refl, record { rest = refl; at = λ j. refl; bounded = b })
    each_queue-Turned (sid ∷ sids) d (fresh, n) b =
        let (d₁, e₁, t₁) = one_turn sid d b in
        let (d₂, e₂, t₂) = each_queue-Turned sids d₁ n t₁.bounded in
        (
          d₂,
          rw (e₁, each_queue) e₂,
          record {
            rest =
                t₂.rest ∙ ap {A = Dispatcher pb} (λ e. record e { streams = d₂.streams }) t₁.rest;
            at = λ j. ground (arith, t₂.at j, t₁.at j);
            bounded = t₂.bounded;
          },
        )
