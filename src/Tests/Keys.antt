-- ===== src/Tests/Keys.antt =====
-- A small stand-in for `cryptography`, for the tests: a certificate is the list of what is read of
-- it.
use python_fleet_telemetry.Prelude.{
  ℕ, zero, suc, ◌+◌, ◌≡◌, refl, Option, none, some, List, [], ◌∷◌, Str, Bytes,
}
use python_fleet_telemetry.Prelude.Lists.{length}
use python_fleet_telemetry.Errors.{Result, ok, raise, value_error}
use python_fleet_telemetry.Crypto.{Crypto, IsLawful, GeneralName, dns_name, stored_names}

abbrev pub identifier_code : Option ℕ → ℕ
identifier_code none = 0
identifier_code (some i) = suc i

-- It signs certificates with one DNS name or with none.
abbrev sign_names : Option (List GeneralName) → ℕ → ℕ → Result Bytes
sign_names none subject i = ok (0 ∷ subject ∷ i ∷ [])
sign_names (some (dns_name s ∷ [])) subject i = ok (1 ∷ subject ∷ i ∷ s)
sign_names (some _) subject i = raise (value_error [])

abbrev read_names : Bytes → Result (Option (List GeneralName))
read_names (zero ∷ cert) = ok none
read_names (suc zero ∷ subject ∷ i ∷ s) = ok (some (dns_name s ∷ []))
read_names _ = raise (value_error [])

abbrev read_identifier : Bytes → Result ℕ
read_identifier (tag ∷ subject ∷ suc i ∷ s) = ok i
read_identifier _ = raise (value_error [])

abbrev read_subject : Bytes → ℕ
read_subject (tag ∷ subject ∷ s) = subject
read_subject _ = 0

abbrev read_key : Bytes → Result (Option ℕ)
read_key (k ∷ []) = ok (some k)
read_key _ = raise (value_error [])

abbrev name_of : List Str → ℕ
name_of [] = 0
name_of (s ∷ rest) = suc (length s)

abbrev pub small_crypto : Crypto
small_crypto = record {
  Certificate = Bytes;
  PrivateKey = ℕ;
  PublicKey = ℕ;
  Name = ℕ;
  Identifier = ℕ;
  generate_private_key = λ n. n + 7;
  random_serial_number = λ n. n;
  public_key = λ k. k;
  private_bytes = λ k. k ∷ [];
  load_pem_private_key = read_key;
  public_bytes = λ x. x;
  load_pem_certificate = λ b. ok b;
  common_name = λ attributes. ok (name_of attributes);
  check_dns_name = λ s. ok tt;
  identifier_of = λ k. k;
  sign = λ b k. sign_names b.alternative_names b.subject_name (identifier_code b.subject_key);
  subject = read_subject;
  subject_key_identifier = read_identifier;
  alternative_names_of = read_names;
}

sign_names-reads :
    (names : Option (List GeneralName)) (subject : ℕ) (i : Option ℕ) (x : Bytes)
    → sign_names names subject (identifier_code i) ≡ ok x
    → (read_names x ≡ ok (stored_names names))
      × ((k : ℕ) → i ≡ some k → read_identifier x ≡ ok k)
      × (read_subject x ≡ subject)
sign_names-reads none subject i x h =
    let e : 0 ∷ subject ∷ identifier_code i ∷ [] ≡ x = cc in
    rw (← e) (refl, (λ k j. rw j refl), refl)
sign_names-reads (some (dns_name s ∷ [])) subject i x h =
    let e : 1 ∷ subject ∷ identifier_code i ∷ s ≡ x = cc in
    rw (← e) (refl, (λ k j. rw j refl), refl)
sign_names-reads _ subject i x h = absurd cc

pub small_crypto-IsLawful : IsLawful small_crypto
small_crypto-IsLawful = record {
  load-certificate = λ x. refl;
  load-key = λ k. refl;
  names-sign = λ b k x h. (sign_names-reads b.alternative_names b.subject_name b.subject_key x h).0;
  identifier-sign =
      λ b k x i h j. (sign_names-reads b.alternative_names b.subject_name b.subject_key x h).1 i j;
  subject-sign =
      λ b k x h. (sign_names-reads b.alternative_names b.subject_name b.subject_key x h).2;
}
