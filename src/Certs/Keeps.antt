-- ===== src/Certs/Keeps.antt =====
-- What holds of the disk before a method and after it, however the method ends: a rule for each way
-- to build one.
use python_fleet_telemetry.Prelude.{
  ℕ, suc, Bool, true, false, Option-cases, inl, inr, if◌then◌else◌,
}
use python_fleet_telemetry.Errors.{Result, ok, raise}
use python_fleet_telemetry.Certs.Disk.{
  CredentialPath, Disk, System, Action, proceed, ◌>>=◌, result, inspect, try_finally, call, exists,
  read_bytes, close,
}

pub record Keeps {A : Type 0} (P : Disk → Type 0) (action : Action A) : Type 0 where
  pub kept : (before : Disk) → P before → P (action before).1

module _ (P : Disk → Type 0) where
  pub result-Keeps : {A : Type 0} (r : Result A) → Keeps P (result r)
  unfolding result
  result-Keeps r = record { kept = λ before h. h }

  pub inspect-Keeps : {A : Type 0} (f : Disk → Result A) → Keeps P (inspect f)
  unfolding inspect
  inspect-Keeps f = record { kept = λ before h. h }

  proceed-keeps :
      {A B : Type 0} (reached : Result A × Disk) (next : A → Action B)
      → P reached.1
      → ((a : A) → Keeps P (next a))
      → P (proceed reached next).1
  proceed-keeps (raise e, d) next h rest = h
  proceed-keeps (ok a, d) next h rest = (rest a).kept d h

  pub >>=-Keeps :
      {A B : Type 0} (action : Action A) (next : A → Action B)
      → Keeps P action
      → ((a : A) → Keeps P (next a))
      → Keeps P (action >>= next)
  unfolding ◌>>=◌
  >>=-Keeps action next first rest = record {
    kept = λ before h. proceed-keeps (action before) next (first.kept before h) rest;
  }

  pub try_finally-Keeps :
      (action cleanup : Action (Unit {0}))
      → Keeps P action
      → Keeps P cleanup
      → Keeps P (try_finally action cleanup)
  unfolding try_finally
  try_finally-Keeps action cleanup first last = record {
    kept = λ before h. last.kept (action before).1 (first.kept before h);
  }

  pub if-Keeps :
      {A : Type 0} (b : Bool) (yes_ no_ : Action A)
      → Keeps P yes_
      → Keeps P no_
      → Keeps P (if b then yes_ else no_)
  if-Keeps true yes_ no_ k l = k
  if-Keeps false yes_ no_ k l = l

  module _ (system : System) (ticks : (d : Disk) (n : ℕ) → P d → P (record d { calls = n })) where
    pub call-Keeps :
        (broken : ℕ → Disk → Disk) (change : Disk → Disk)
        → ((n : ℕ) (d : Disk) → P d → P (broken n d))
        → ((d : Disk) → P d → P (change d))
        → Keeps P (call system broken change)
    unfolding call
    call-Keeps broken change hb hc = record {
      kept = λ d h. elim (Option-cases (system.fault d.calls)) [
        | inl works ↦ rw (works, call) (hc _ (ticks d (suc d.calls) h))
        | inr ((e, n), fails) ↦ rw (fails, call) (hb n _ (ticks d (suc d.calls) h))
      ];
    }

    pub exists-Keeps : (path : CredentialPath) → Keeps P (exists system path)
    unfolding exists
    exists-Keeps path = search (>>=-Keeps, call-Keeps, inspect-Keeps)

    pub read_bytes-Keeps : (path : CredentialPath) → Keeps P (read_bytes system path)
    unfolding read_bytes
    read_bytes-Keeps path = search (>>=-Keeps, call-Keeps, inspect-Keeps)

    pub close-Keeps : Keeps P (close system)
    unfolding close
    close-Keeps = call-Keeps _ _ (λ n d h. h) (λ d h. h)
