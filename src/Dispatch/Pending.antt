-- ===== src/Dispatch/Pending.antt =====
-- The records that a stream holds, and what a pull takes of them.
use mathlib.Core.List.Sublistᴰ
use mathlib.Core.List.{Sublistᴰ, append-nil}
use python_fleet_telemetry.Prelude.{
  ℕ, zero, suc, ◌≡◌, refl, ap, subst, arith, Bool, true, false, Option, none, some, List, [], ◌∷◌,
  ◌++◌, nat_eq, ◌==◌, Option-cases, Bool-cases, ◌⊎◌, inl, inr, if◌then◌else◌,
}
use python_fleet_telemetry.Prelude.Lists.{drop}
use python_fleet_telemetry.Prelude.Dict
use python_fleet_telemetry.Prelude.Dict.{get-put}
use python_fleet_telemetry.Queue.{get_nowait}
use python_fleet_telemetry.Queue.Window.{window, pushed}
use python_fleet_telemetry.Protobuf.{Protobuf}
use python_fleet_telemetry.Records.{Record}
use python_fleet_telemetry.Dispatch.State.{Item, item, sentinel, Stream, Dispatcher}
use python_fleet_telemetry.Dispatch.Streams.{
  Anext, yields, stops, parks, receive, forget, pull, anext, resume,
}
use python_fleet_telemetry.Dispatch.Loop.{Action, deliver}
use python_fleet_telemetry.Dispatch.Turns.{turned}
use python_fleet_telemetry.Dispatch.Delivery.{backlog}
use python_fleet_telemetry.Dispatch.Consume.{awaited}

module _ (pb : Protobuf) where
  -- The records among items.
  abbrev pub records_of : List (Item pb) → List (Record pb)
  records_of [] = []
  records_of (item r ∷ items) = r ∷ records_of items
  records_of (sentinel ∷ items) = records_of items

  -- The records that the stream still holds.
  abbrev pub pending : ℕ → Dispatcher pb → List (Record pb)
  pending sid d = records_of (backlog pb (Dict.get d.streams sid))

  -- The records that calls dispatch.
  abbrev pub delivered_by : Action pb → List (Record pb)
  delivered_by (deliver r) = r ∷ []
  delivered_by call = []

  abbrev pub delivered_in : List (Action pb) → List (Record pb)
  delivered_in [] = []
  delivered_in (call ∷ calls) = delivered_by call ++ delivered_in calls

  abbrev pub dispatched : List (List (Action pb)) → List (Record pb)
  dispatched [] = []
  dispatched (calls ∷ turns) = delivered_in calls ++ dispatched turns

  records_of-append :
      (xs ys : List (Item pb)) → records_of (xs ++ ys) ≡ records_of xs ++ records_of ys
  records_of-append [] ys = refl
  records_of-append (item r ∷ xs) ys = ap (λ l. r ∷ l) (records_of-append xs ys)
  records_of-append (sentinel ∷ xs) ys = records_of-append xs ys

  drop-Sublistᴰ : (n : ℕ) (xs : List (Item pb)) → Sublistᴰ (records_of (drop n xs)) (records_of xs)
  drop-Sublistᴰ zero xs = Sublistᴰ.refl _
  drop-Sublistᴰ (suc n) [] = Sublistᴰ.refl _
  drop-Sublistᴰ (suc n) (item r ∷ xs) = Sublistᴰ.cons (drop-Sublistᴰ n xs)
  drop-Sublistᴰ (suc n) (sentinel ∷ xs) = drop-Sublistᴰ n xs

  pub more : (xs ys : List (Record pb)) → Sublistᴰ xs (xs ++ ys)
  more xs ys =
      subst (λ l. Sublistᴰ l (xs ++ ys)) (append-nil xs)
        (Sublistᴰ.append (Sublistᴰ.refl xs) (Sublistᴰ.nil-sublist ys))

  later : (xs ys : List (Record pb)) → Sublistᴰ ys (xs ++ ys)
  later xs ys = Sublistᴰ.append (Sublistᴰ.nil-sublist xs) (Sublistᴰ.refl ys)

  window-Sublistᴰ :
      (m : ℕ) (xs : List (Item pb)) → Sublistᴰ (records_of (window m xs)) (records_of xs)
  unfolding window
  window-Sublistᴰ zero xs = Sublistᴰ.refl _
  window-Sublistᴰ (suc n) xs = drop-Sublistᴰ _ xs

  -- A queue that takes in one more item.
  pub turned-Sublistᴰ :
      (i : Item pb) (registered : Bool) (o : Option (Stream pb))
      → Sublistᴰ
          (records_of (backlog pb (if registered then turned pb (pushed i) o else o)))
          (records_of (backlog pb o) ++ records_of (i ∷ []))
  turned-Sublistᴰ i true none = Sublistᴰ.nil-sublist _
  turned-Sublistᴰ i false none = Sublistᴰ.nil-sublist _
  turned-Sublistᴰ i true (some s) =
      subst (Sublistᴰ _) (records_of-append s.queue.items (i ∷ []))
        (window-Sublistᴰ s.queue.maxsize (s.queue.items ++ (i ∷ [])))
  turned-Sublistᴰ i false (some s) = more _ _

  -- What a pull hands out.
  abbrev pub yielded : Anext pb → List (Record pb)
  yielded (yields r) = r ∷ []
  yielded stops = []
  yielded parks = []

  module _ (sid : ℕ) (d : Dispatcher pb) where
    pending-forget : (s : Stream pb) → pending sid (forget pb sid s d) ≡ records_of s.queue.items
    unfolding forget
    pending-forget s = rw get-put (ground arith)

    pull-own :
        (c closed : Bool) (m : ℕ) (items : List (Item pb))
        → let s : Stream pb = record {
          closed = closed;
          queue = record { maxsize = m; items = items };
        } in
          Dict.get d.streams sid ≡ some s
          → Sublistᴰ
              (yielded (pull pb sid s c d).0 ++ pending sid (pull pb sid s c d).1)
              (records_of items)
    unfolding pull receive forget get_nowait
    pull-own true closed m items e = rw e (Sublistᴰ.refl _)
    pull-own false closed m [] e = rw (pending-forget _) (Sublistᴰ.refl _)
    pull-own false closed m (item r ∷ items) e = rw (pending-forget _) (Sublistᴰ.refl _)
    pull-own false closed m (sentinel ∷ items) e = rw (pending-forget _) (Sublistᴰ.refl _)

    pull-other :
        (j : ℕ) (c : Bool) (s : Stream pb)
        → (j == sid) ≡ false
        → pending j (pull pb sid s c d).1 ≡ pending j d
    unfolding pull forget
    pull-other j true s differs = refl
    pull-other j false s differs = rw get-put (rw differs refl)

    own :
        (c : Bool) (s : Stream pb)
        → Dict.get d.streams sid ≡ some s
        → Sublistᴰ
            (yielded (pull pb sid s c d).0 ++ pending sid (pull pb sid s c d).1)
            (records_of s.queue.items)
    own c s e = pull-own c s.closed s.queue.maxsize s.queue.items e

    -- How a pull goes, by whether there is such a stream.
    pub awaited-cases :
        (waiting : Bool)
        → (awaited pb waiting sid d ≡ (parks, d))
          ⊎ ((c : Bool) × (s : Stream pb) × (Dict.get d.streams sid ≡ some s)
              × (awaited pb waiting sid d ≡ pull pb sid s c d))
    unfolding awaited resume anext
    awaited-cases true = elim (Option-cases (Dict.get d.streams sid)) [
      | inl e ↦ inl (rw (e, resume) refl)
      | inr (s, e) ↦ inr (false, s, e, rw (e, resume) refl)
    ]
    awaited-cases false = elim (Option-cases (Dict.get d.streams sid)) [
      | inl e ↦ inl (rw (e, anext) refl)
      | inr (s, e) ↦ inr (s.closed, s, e, rw (e, anext) refl)
    ]

    pub awaited-own :
        (waiting : Bool)
        → let step = awaited pb waiting sid d in
          Sublistᴰ (yielded step.0 ++ pending sid step.1) (pending sid d)
    awaited-own waiting = elim (awaited-cases waiting) [
      | inl e ↦ rw e (Sublistᴰ.refl _)
      | inr (c, s, e, step) ↦
          let held : pending sid d ≡ records_of s.queue.items = rw e refl in
          rw step (rw held (own c s e))
    ]

    awaited-other :
        (waiting : Bool) (j : ℕ)
        → (j == sid) ≡ false
        → pending j (awaited pb waiting sid d).1 ≡ pending j d
    awaited-other waiting j differs = elim (awaited-cases waiting) [
      | inl e ↦ rw e refl
      | inr (c, s, e, step) ↦ rw step (pull-other j c s differs)
    ]

    -- A pull from any stream leaves of each stream what it held, or less.
    awaited-pending :
        (waiting : Bool) (j : ℕ) → Sublistᴰ (pending j (awaited pb waiting sid d).1) (pending j d)
    awaited-pending waiting j = elim (Bool-cases (j == sid)) [
      | inl same ↦
          let one : j ≡ sid = ground arith in
          rw one (Sublistᴰ.trans (later _ _) (awaited-own waiting))
      | inr differs ↦ rw (awaited-other waiting j differs) (Sublistᴰ.refl _)
    ]

    pub anext-pending : (j : ℕ) → Sublistᴰ (pending j (anext pb sid d).1) (pending j d)
    unfolding awaited
    anext-pending = awaited-pending false

    pub resume-pending : (j : ℕ) → Sublistᴰ (pending j (resume pb sid d).1) (pending j d)
    unfolding awaited
    resume-pending = awaited-pending true
