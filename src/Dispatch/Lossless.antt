-- ===== src/Dispatch/Lossless.antt =====
-- The loop of a consumer whose queue does not overflow: no record is lost.
use mathlib.Core.List.{append_assoc, append-nil}
use python_fleet_telemetry.Prelude.{
  ℕ, zero, suc, ◌≤◌, ◌≡◌, refl, sym, ap, subst, arith, Bool, true, false, List, [], ◌∷◌, ◌++◌, map,
  nat_eq, ◌⊎◌, inl, inr,
}
use python_fleet_telemetry.Prelude.Lists.{length, length-append}
use python_fleet_telemetry.Prelude.Dict.{get-put}
use python_fleet_telemetry.Errors.{raise, cancelled}
use python_fleet_telemetry.Protobuf.{Protobuf}
use python_fleet_telemetry.Records.{Record}
use python_fleet_telemetry.Dispatch.State.{Dispatcher, records}
use python_fleet_telemetry.Dispatch.Loop.{Action, deliver, perform_all}
use python_fleet_telemetry.Dispatch.Invariant.{IsWell, records-IsWell}
use python_fleet_telemetry.Dispatch.Ids.{contains-add}
use python_fleet_telemetry.Dispatch.Consume.{awaited, stepped, consume}
use python_fleet_telemetry.Dispatch.Held.{
  Holds, Fits, awaited-nil, awaited-cons, Fits-shorter, deliver-Holds,
}

module _ (pb : Protobuf) where
  -- Pulls between which nothing is dispatched.
  abbrev pub idle : ℕ → List (List (Action pb))
  idle zero = []
  idle (suc n) = [] ∷ idle n

  -- Turns that dispatch these records, and pulls after them.
  abbrev pub deliveries : List (List (Record pb)) → ℕ → List (List (Action pb))
  deliveries [] n = idle n
  deliveries (rs ∷ turns) n = map deliver rs ∷ deliveries turns n

  abbrev pub all_of : List (List (Record pb)) → List (Record pb)
  all_of [] = []
  all_of (rs ∷ turns) = rs ++ all_of turns

  -- A step of the loop on a stream that holds these records, with how the loop goes on.
  abbrev Prints : Bool → ℕ → List (List (Action pb)) → Dispatcher pb → List (Record pb) → Type 0
  Prints waiting sid turns d rs =
      ((consume pb waiting sid turns d).printed ≡ rs)
      × ((consume pb waiting sid turns d).ended ≡ raise cancelled)

  step-Prints :
      (waiting : Bool) (sid m : ℕ) (xs rest : List (Record pb)) (d : Dispatcher pb)
      (calls : List (Action pb)) (turns : List (List (Action pb)))
      → Holds pb sid m xs (perform_all pb calls d)
      → ((waiting' : Bool) (ys : List (Record pb)) (e : Dispatcher pb)
          → Holds pb sid m ys e
          → ((xs ≡ []) × (ys ≡ [])) ⊎ ((r : Record pb) × (xs ≡ r ∷ ys))
          → Prints waiting' sid turns e (ys ++ rest))
      → Prints waiting sid (calls ∷ turns) d (xs ++ rest)
  unfolding consume stepped
  step-Prints waiting sid m [] rest d calls turns h next =
      let (got, h') = awaited-nil pb waiting sid m (perform_all pb calls d) h in
      rw (got, stepped)
        (next true [] (awaited pb waiting sid (perform_all pb calls d)).1 h' (inl (refl, refl)))
  step-Prints waiting sid m (r ∷ xs) rest d calls turns h next =
      let (got, h') = awaited-cons pb waiting sid m r xs (perform_all pb calls d) h in
      let (p, e) =
        next false xs (awaited pb waiting sid (perform_all pb calls d)).1 h' (inr (r, refl)) in
      rw (got, stepped) (ap (λ l. r ∷ l) p, e)

  idle-Prints :
      (n : ℕ) (waiting : Bool) (sid m : ℕ) (xs : List (Record pb)) (d : Dispatcher pb)
      → length xs ≤ n
      → Holds pb sid m xs d
      → Prints waiting sid (idle n) d xs
  unfolding consume perform_all
  idle-Prints zero waiting sid m [] d enough h = (refl, refl)
  idle-Prints zero waiting sid m (x ∷ xs) d enough h = absurd (omega arith)
  idle-Prints (suc n) waiting sid m xs d enough h =
      subst (Prints waiting sid (idle (suc n)) d) (append-nil xs) (
        step-Prints waiting sid m xs [] d [] (idle n) h (λ waiting' ys e h' left.
          subst (Prints waiting' sid (idle n) e) (sym (append-nil ys))
            (idle-Prints n waiting' sid m ys e (ground arith) h')))

  left-shorter :
      (xs ys rest : List (Record pb))
      → ((xs ≡ []) × (ys ≡ [])) ⊎ ((r : Record pb) × (xs ≡ r ∷ ys))
      → length (ys ++ rest) ≤ length (xs ++ rest)
  left-shorter xs ys rest (inl (e, f)) = rw e (rw f (omega arith))
  left-shorter xs ys rest (inr (r, e)) = rw e (omega arith)

  deliveries-Prints :
      (turns : List (List (Record pb))) (n : ℕ) (waiting : Bool) (sid m : ℕ) (xs : List (Record pb))
      (d : Dispatcher pb)
      → Fits pb m (xs ++ all_of turns)
      → length (xs ++ all_of turns) ≤ n
      → Holds pb sid m xs d
      → Prints waiting sid (deliveries turns n) d (xs ++ all_of turns)
  deliveries-Prints [] n waiting sid m xs d room enough h =
      subst (Prints waiting sid (idle n) d) (sym (append-nil xs))
        (idle-Prints n waiting sid m xs d (omega (arith, length-append xs [], enough)) h)
  deliveries-Prints (rs ∷ turns) n waiting sid m xs d room enough h =
      let split = append_assoc xs rs (all_of turns) in
      let room' = subst (Fits pb m) (sym split) room in
      let enough' = subst (λ l. length l ≤ n) (sym split) enough in
      let h' =
        deliver-Holds pb rs sid m xs d (Fits-shorter pb m (xs ++ rs) (all_of turns) room') h in
      subst (Prints waiting sid (deliveries (rs ∷ turns) n) d) split (
        step-Prints waiting sid m (xs ++ rs) (all_of turns) d (map deliver rs) (deliveries turns n)
          h'
          (λ waiting' ys e held left.
            let less = left-shorter (xs ++ rs) ys (all_of turns) left in
            deliveries-Prints turns n waiting' sid m ys e (omega (arith, less, room'))
              (omega (arith, less, enough')) held))

  -- If the records that other tasks dispatch between its pulls fit in the queue (any number of
  -- them, for a queue with no bound), a consumer of a new stream of a well-formed dispatcher that
  -- is not closed prints them all, in the order of their dispatch, and nothing else, given as many
  -- pulls after that as there are records; its loop then waits until it is cancelled.
  pub consume-all :
      (d : Dispatcher pb) (turns : List (List (Record pb))) (n : ℕ)
      → IsWell pb d
      → d.closed ≡ false
      → (d.queue_maxsize ≡ 0) ⊎ (length (all_of turns) ≤ d.queue_maxsize)
      → length (all_of turns) ≤ n
      → let (sid, e) = records pb d in
        let run = consume pb false sid (deliveries turns n) e in
        (run.printed ≡ all_of turns) × (run.ended ≡ raise cancelled)
  unfolding records
  consume-all d turns n w open_ room enough =
      deliveries-Prints turns n false d.made d.queue_maxsize [] (records pb d).1 room enough (
        records-IsWell pb d w,
        ground (arith, contains-add d.made d.queues d.made),
        rw get-put (ground arith),
      )
