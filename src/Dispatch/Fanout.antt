-- ===== src/Dispatch/Fanout.antt =====
-- The turns of `dispatch` and `close` on one queue, and a loop of turns over the registered queues.
use python_fleet_telemetry.Prelude.{
  ℕ, zero, suc, ◌+◌, ◌<◌, ◌≡◌, ap, ◌∙◌, inl, inr, true, false, some, ◌∷◌, arith, nat_eq, Bool-cases,
}
use python_fleet_telemetry.Prelude.Lists.{length}
use python_fleet_telemetry.Errors.{ok, raise, queue_full}
use python_fleet_telemetry.Queue.{Queue, full, put_nowait, IsBounded}
use python_fleet_telemetry.Queue.Window.{pushed, put_nowait-room, get_nowait-full}
use python_fleet_telemetry.Protobuf.{Protobuf}
use python_fleet_telemetry.Records.{Record}
use python_fleet_telemetry.Dispatch.State.{Item, item, sentinel}
use python_fleet_telemetry.Dispatch.Streams.{offer, push_sentinel, seal}

put_nowait-full {ℓ} :
    {A : Type ℓ} (a : A) (q : Queue A) → full q ≡ true → put_nowait q a ≡ raise queue_full
unfolding put_nowait
put_nowait-full a q h = rw h

room_after {ℓ} :
    {A : Type ℓ} (x : A) (q q' : Queue A)
    → full q ≡ true
    → IsBounded q
    → q'.maxsize ≡ q.maxsize
    → q.items ≡ x ∷ q'.items
    → full q' ≡ false
unfolding full
room_after x q q' h b m e = ground (arith, ap length e)

module _ (pb : Protobuf) where
  -- On a bounded queue the turn of `dispatch` never raises: the record goes in at the end, and of a
  -- full queue the oldest item goes.
  pub offer_lem :
      (r : Record pb) (q : Queue (Item pb)) → IsBounded q → offer pb r q ≡ ok (pushed (item r) q)
  unfolding offer
  offer_lem r q b = elim (Bool-cases (full q)) [
    | inr room ↦ rw (put_nowait-room (item r) q room)
    | inl full_ ↦
        let (x, q', got, shape, same) = get_nowait-full (item r) q full_ in
        let room : full q' ≡ false = room_after x q q' full_ b (ap (λ p. p.maxsize) same) shape in
        rw (put_nowait-full (item r) q full_)
          (rw got (put_nowait-room (item r) q' room ∙ ap ok same))
  ]

  -- The loop of `close` ends within one turn for each item and one more, on any queue, with the
  -- sentinel at the end and the oldest item gone if the queue was full.
  pub push_sentinel-terminates :
      (fuel : ℕ) (q : Queue (Item pb))
      → length q.items < fuel
      → push_sentinel pb fuel q ≡ some (ok (pushed sentinel q))
  unfolding push_sentinel
  push_sentinel-terminates zero q h = elim h [ ]
  push_sentinel-terminates (suc fuel) q h = elim (Bool-cases (full q)) [
    | inr room ↦ rw (put_nowait-room sentinel q room, push_sentinel)
    | inl full_ ↦
        let (x, q', got, shape, same) = get_nowait-full sentinel q full_ in
        rw (put_nowait-full sentinel q full_, push_sentinel)
          (rw (got, push_sentinel)
            (push_sentinel-terminates fuel q' (omega (arith, ap length shape))
              ∙ ap (λ p. some (ok p)) same))
  ]

  pub seal_lem : (q : Queue (Item pb)) → seal pb q ≡ ok (pushed sentinel q)
  unfolding seal
  seal_lem q = rw (push_sentinel-terminates (length q.items + 2) q (omega arith))
