-- ===== src/Queue.antt =====
-- What fleet_telemetry/dispatch.py uses of `asyncio.Queue`, of Python's library: a bounded FIFO
-- whose `maxsize` 0 means no bound. Waiting is in the caller (`Anext.parks`).
pub mod Window
use python_fleet_telemetry.Prelude.{
  ℕ, suc, ◌+◌, ◌≤◌, ◌≡◌, ◌⊎◌, Bool, false, List, [], ◌∷◌, ◌++◌, arith, ltb, leb, if◌then◌else◌,
}
use python_fleet_telemetry.Prelude.Lists.{length, drop, length-append}
use python_fleet_telemetry.Errors.{Result, ok, raise, queue_full, queue_empty}

pub record Queue {ℓ} (A : Type ℓ) : Type ℓ where
  pub maxsize : ℕ
  pub items : List A

module _ {ℓ} {A : Type ℓ} where
  unfoldable pub full : Queue A → Bool
  full q = if ltb 0 q.maxsize then leb q.maxsize (length q.items) else false

  unfoldable pub put_nowait : Queue A → A → Result (Queue A)
  unfolding full
  put_nowait q a =
      if full q then raise queue_full else ok (record q { items = q.items ++ (a ∷ []) })

  unfoldable pub pop_front : ℕ → List A → Result (A × Queue A)
  pop_front m [] = raise queue_empty
  pop_front m (a ∷ rest) = ok (a, record { maxsize = m; items = rest })

  unfoldable pub get_nowait : Queue A → Result (A × Queue A)
  unfolding pop_front
  get_nowait q = pop_front q.maxsize q.items

  -- A bounded queue holds `maxsize` items at most.
  abbrev pub IsBounded : Queue A → Type 0
  IsBounded q = (q.maxsize ≡ 0) ⊎ (length q.items ≤ q.maxsize)
