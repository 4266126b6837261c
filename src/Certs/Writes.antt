-- ===== src/Certs/Writes.antt =====
-- What the writes of certs.py keep of the files, from what one file may become.
use python_fleet_telemetry.Prelude.{
  ℕ, suc, ◌≡◌, Option, none, some, Option-cases, inl, inr, Bool, Bytes, ◌++◌,
}
use python_fleet_telemetry.Prelude.Lists.{take}
use python_fleet_telemetry.Crypto.{Crypto}
use python_fleet_telemetry.Certs.Disk.{
  CredentialPath, File, Files, Disk, System, Action, ◌>>=◌, inspect, present, call, truncate,
  open_truncated, write, close, chmod, mkdir, chmod_directory, file_at, set_file, on_file, opened,
  appended, with_mode, unchanged, in_directory, exists, read_bytes,
}
use python_fleet_telemetry.Certs.Issue.{write_file, load_cert, load_ec_key, draw}
use python_fleet_telemetry.Certs.Credentials.{both_exist, mkdir_private}
use python_fleet_telemetry.Certs.Keeps.{
  Keeps, result-Keeps, >>=-Keeps, try_finally-Keeps, if-Keeps, call-Keeps, exists-Keeps,
  read_bytes-Keeps, close-Keeps,
}

-- A predicate on the files alone.
abbrev pub Of : (Files → Type 0) → Disk → Type 0
Of Q d = Q d.files

module _ (Q : Files → Type 0) (system : System) where
  call-KeepsOf :
      (broken : ℕ → Disk → Disk) (change : Disk → Disk)
      → ((n : ℕ) (d : Disk) → Of Q d → Of Q (broken n d))
      → ((d : Disk) → Of Q d → Of Q (change d))
      → Keeps (Of Q) (call system broken change)
  call-KeepsOf = call-Keeps (Of Q) system (λ d n h. h)

  pub exists-KeepsOf : (path : CredentialPath) → Keeps (Of Q) (exists system path)
  exists-KeepsOf = exists-Keeps (Of Q) system (λ d n h. h)

  -- What follows a test for a file whose state is known.
  pub exists_then-KeepsOf :
      {A : Type 0} (path : CredentialPath) (o : Option File) (next : Bool → Action A)
      → ((fs : Files) → Q fs → file_at path fs ≡ o)
      → Keeps (Of Q) (next (present system o))
      → Keeps (Of Q) (exists system path >>= next)
  unfolding exists call ◌>>=◌ inspect
  exists_then-KeepsOf path o next known rest = record {
    kept = λ d h. elim (Option-cases (system.fault d.calls)) [
      | inl works ↦
          rw (works, call) (rw (known d.files h) (rest.kept (record d { calls = suc d.calls }) h))
      | inr (e, fails) ↦ rw (fails, call) h
    ];
  }

  read_bytes-KeepsOf : (path : CredentialPath) → Keeps (Of Q) (read_bytes system path)
  read_bytes-KeepsOf = read_bytes-Keeps (Of Q) system (λ d n h. h)

  close-KeepsOf : Keeps (Of Q) (close system)
  close-KeepsOf = close-Keeps (Of Q) system (λ d n h. h)

  pub both_exist-KeepsOf : (a b : CredentialPath) → Keeps (Of Q) (both_exist system a b)
  unfolding both_exist
  both_exist-KeepsOf a b = search (>>=-Keeps, if-Keeps, result-Keeps, exists-KeepsOf)

  pub mkdir_private-KeepsOf : Keeps (Of Q) (mkdir_private system)
  unfolding mkdir_private mkdir chmod_directory
  mkdir_private-KeepsOf = search (>>=-Keeps, call-KeepsOf)

  pub load_cert-KeepsOf :
      (crypto : Crypto) (clock : ℕ → ℕ) (path : CredentialPath)
      → Keeps (Of Q) (load_cert system crypto clock path)
  unfolding load_cert
  load_cert-KeepsOf crypto clock path = search (>>=-Keeps, result-Keeps, read_bytes-KeepsOf)

  pub load_ec_key-KeepsOf :
      (crypto : Crypto) (clock : ℕ → ℕ) (path : CredentialPath)
      → Keeps (Of Q) (load_ec_key system crypto clock path)
  unfolding load_ec_key
  load_ec_key-KeepsOf crypto clock path = search (>>=-Keeps, result-Keeps, read_bytes-KeepsOf)

  pub draw-KeepsOf : (crypto : Crypto) (clock : ℕ → ℕ) → Keeps (Of Q) (draw system crypto clock)
  unfolding draw
  draw-KeepsOf crypto clock = record { kept = λ d h. h }

  module _ (path : CredentialPath) (mode : ℕ) (created : ℕ)
      (opens : (fs : Files) → Q fs → Q (set_file path (opened system created (file_at path fs)) fs))
      (fills : (fs : Files) (f : File) (bytes : Bytes)
        → file_at path fs ≡ some f
        → Q fs
        → Q (set_file path (record f { content = bytes }) fs))
      (moves : (fs : Files) (f : File)
        → file_at path fs ≡ some f
        → Q fs
        → Q (set_file path (record f { mode = mode }) fs)) where
    in_directory-KeepsOf :
        (m : Option ℕ) (d : Disk) → Of Q d → Of Q (in_directory system m path created d).1
    unfolding in_directory
    in_directory-KeepsOf none d h = h
    in_directory-KeepsOf (some m) d h = opens d.files h

    truncate-KeepsOf : Keeps (Of Q) (truncate system path created)
    unfolding truncate
    truncate-KeepsOf = record { kept = λ d h. in_directory-KeepsOf d.directory d h }

    on_file-KeepsOf :
        (f : File → File) (d : Disk)
        → ((g : File) → file_at path d.files ≡ some g → Of Q d → Q (set_file path (f g) d.files))
        → Of Q d
        → Of Q (on_file system f path d)
    on_file-KeepsOf f d one h = elim (Option-cases (file_at path d.files)) [
      | inl absent ↦ rw absent h
      | inr (g, there) ↦ rw there (one g there h)
    ]

    appended-KeepsOf :
        (bytes : Bytes) (d : Disk) → Of Q d → Of Q (on_file system (appended system bytes) path d)
    appended-KeepsOf bytes d =
        on_file-KeepsOf (appended system bytes) d λ g e q. fills d.files g (g.content ++ bytes) e q

    write-KeepsOf : (bytes : Bytes) → Keeps (Of Q) (write system path bytes)
    unfolding write
    write-KeepsOf bytes =
        call-KeepsOf (λ n. on_file system (appended system (take n bytes)) path)
          (on_file system (appended system bytes) path) (λ n. appended-KeepsOf (take n bytes))
          (appended-KeepsOf bytes)

    chmod-KeepsOf : Keeps (Of Q) (chmod system path mode)
    unfolding chmod
    chmod-KeepsOf =
        call-KeepsOf (unchanged system) (on_file system (with_mode system mode) path) (λ n d h. h)
          (λ d. on_file-KeepsOf (with_mode system mode) d (λ g e q. moves d.files g e q))

    open_truncated-KeepsOf : Keeps (Of Q) (open_truncated system path created)
    unfolding open_truncated
    open_truncated-KeepsOf = search (>>=-Keeps, call-KeepsOf, truncate-KeepsOf)

    -- An open, a write, a close and a change of the mode, as far as they come.
    pub write_file-KeepsOf :
        (crypto : Crypto) (clock : ℕ → ℕ) (bytes : Bytes)
        → Keeps (Of Q) (write_file system crypto clock path created bytes mode)
    unfolding write_file
    write_file-KeepsOf crypto clock bytes = search (
      >>=-Keeps, try_finally-Keeps, open_truncated-KeepsOf, write-KeepsOf, close-KeepsOf,
      chmod-KeepsOf,
    )
