-- ===== src/Certs/Disk.antt =====
-- The directory of a `ServerCredentials`, and the operating system's calls on it that
-- fleet_telemetry/certs.py makes, each of which may fail.
use python_fleet_telemetry.Prelude.{
  ℕ, suc, Bool, true, false, Option, none, some, [], ◌++◌, Str, Bytes, codes,
}
use python_fleet_telemetry.Prelude.Lists.{take}
use python_fleet_telemetry.Errors.{Error, Result, ok, raise, file_not_found, finally}

-- The four paths, by their properties' names.
pub data CredentialPath : Type 0 where
  ca_cert_path ca_key_path server_cert_path server_key_path : CredentialPath

abbrev pub file_name : CredentialPath → Str
file_name ca_cert_path = codes "ca.pem"
file_name ca_key_path = codes "ca.key"
file_name server_cert_path = codes "server.pem"
file_name server_key_path = codes "server.key"

pub record File : Type 0 where
  pub content : Bytes
  pub mode : ℕ

pub record Files : Type 0 where
  pub ca_cert : Option File
  pub ca_key : Option File
  pub server_cert : Option File
  pub server_key : Option File

abbrev pub file_at : CredentialPath → Files → Option File
file_at ca_cert_path fs = fs.ca_cert
file_at ca_key_path fs = fs.ca_key
file_at server_cert_path fs = fs.server_cert
file_at server_key_path fs = fs.server_key

abbrev pub set_file : CredentialPath → File → Files → Files
set_file ca_cert_path f fs = record fs { ca_cert = some f }
set_file ca_key_path f fs = record fs { ca_key = some f }
set_file server_cert_path f fs = record fs { server_cert = some f }
set_file server_key_path f fs = record fs { server_key = some f }

-- The mode of the directory if it is there, the files in it, the number of calls made so far, and
-- the number of times that fresh values (a key, a serial number, the time) were drawn.
pub record Disk : Type 0 where
  pub directory : Option ℕ
  pub files : Files
  pub calls : ℕ
  pub drawn : ℕ

-- Whether a call fails, by its number: with an error, after some bytes are written. `created` is
-- what the umask leaves of the mode of a new file or directory.
pub record System : Type 0 where
  pub fault : ℕ → Option (Error × ℕ)
  pub created : ℕ → ℕ

-- A method: what was written before an error stays written.
abbrev pub Action : Type 0 → Type 0
Action A = Disk → Result A × Disk

abbrev pub proceed : {A B : Type 0} → Result A × Disk → (A → Action B) → Result B × Disk
proceed (raise e, d) next = (raise e, d)
proceed (ok a, d) next = next a d

infixl 5 ◌>>=◌ ◌>>◌
unfoldable pub ◌>>=◌ : {A B : Type 0} → Action A → (A → Action B) → Action B
◌>>=◌ action next d = proceed (action d) next

abbrev pub ◌>>◌ : {B : Type 0} → Action (Unit {0}) → Action B → Action B
first >> next = first >>= λ _. next

-- A result that touches nothing, and one that is read off the disk.
unfoldable pub result : {A : Type 0} → Result A → Action A
result r d = (r, d)

unfoldable pub inspect : {A : Type 0} → (Disk → Result A) → Action A
inspect f d = (f d, d)

abbrev pub closed_after : Result (Unit {0}) × Disk → Action (Unit {0}) → Result (Unit {0}) × Disk
closed_after (own, d) cleanup = let (last, d') = cleanup d in (finally own last, d')

-- `try: action finally: cleanup`
unfoldable pub try_finally : Action (Unit {0}) → Action (Unit {0}) → Action (Unit {0})
unfolding finally
try_finally action cleanup d = closed_after (action d) cleanup

module _ (system : System) where
  -- A call that changes the directory by `change` if it works, and by `broken` if it fails.
  unfoldable pub call : (ℕ → Disk → Disk) → (Disk → Disk) → Action (Unit {0})
  call broken change d = elim (system.fault d.calls) [
    | none ↦ (ok tt, change (record d { calls = suc d.calls }))
    | some (e, n) ↦ (raise e, broken n (record d { calls = suc d.calls }))
  ]

  abbrev pub unchanged : ℕ → Disk → Disk
  unchanged n d = d

  abbrev pub present : Option File → Bool
  present none = false
  present (some f) = true

  -- `path.exists()`
  unfoldable pub exists : CredentialPath → Action Bool
  unfolding call ◌>>=◌ inspect
  exists path = do call unchanged (λ d. d); inspect (λ d. ok (present (file_at path d.files)))

  abbrev pub found : Option File → Result Bytes
  found none = raise (file_not_found [])
  found (some f) = ok f.content

  -- `path.read_bytes()`
  unfoldable pub read_bytes : CredentialPath → Action Bytes
  unfolding call ◌>>=◌ inspect
  read_bytes path = do call unchanged (λ d. d); inspect (λ d. found (file_at path d.files))

  -- An open with `O_CREAT | O_TRUNC` keeps the mode of a file that is there.
  abbrev pub opened_mode : ℕ → Option File → ℕ
  opened_mode mode none = system.created mode
  opened_mode mode (some f) = f.mode

  abbrev pub opened : ℕ → Option File → File
  opened mode o = record { content = []; mode = opened_mode mode o }

  unfoldable pub in_directory : Option ℕ → CredentialPath → ℕ → Action (Unit {0})
  in_directory none path mode d = (raise (file_not_found []), d)
  in_directory (some m) path mode d =
      (ok tt, record d { files = set_file path (opened mode (file_at path d.files)) d.files })

  unfoldable pub truncate : CredentialPath → ℕ → Action (Unit {0})
  unfolding in_directory
  truncate path mode d = in_directory d.directory path mode d

  unfoldable pub open_truncated : CredentialPath → ℕ → Action (Unit {0})
  unfolding call truncate ◌>>=◌
  open_truncated path mode = do call unchanged (λ d. d); truncate path mode

  abbrev pub changed : (File → File) → CredentialPath → Option File → Disk → Disk
  changed f path none d = d
  changed f path (some file) d = record d { files = set_file path (f file) d.files }

  abbrev pub on_file : (File → File) → CredentialPath → Disk → Disk
  on_file f path d = changed f path (file_at path d.files) d

  abbrev pub appended : Bytes → File → File
  appended bytes f = record f { content = f.content ++ bytes }

  abbrev pub with_mode : ℕ → File → File
  with_mode mode f = record f { mode = mode }

  -- `os.write` on the open file, or the write of `write_bytes`
  unfoldable pub write : CredentialPath → Bytes → Action (Unit {0})
  unfolding call
  write path bytes =
      call (λ n. on_file (appended (take n bytes)) path) (on_file (appended bytes) path)

  unfoldable pub close : Action (Unit {0})
  unfolding call
  close = call unchanged (λ d. d)

  -- `os.chmod` of a file
  unfoldable pub chmod : CredentialPath → ℕ → Action (Unit {0})
  unfolding call
  chmod path mode = call unchanged (on_file (with_mode mode) path)

  abbrev pub made : Option ℕ → ℕ
  made none = system.created 0o777
  made (some m) = m

  -- `directory.mkdir(parents=True, exist_ok=True)`
  unfoldable pub mkdir : Action (Unit {0})
  unfolding call
  mkdir = call unchanged (λ d. record d { directory = some (made d.directory) })

  -- `os.chmod` of the directory
  unfoldable pub chmod_directory : ℕ → Action (Unit {0})
  unfolding call
  chmod_directory mode = call unchanged (λ d. record d { directory = some mode })
