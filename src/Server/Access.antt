-- ===== src/Server/Access.antt =====
-- Who gets a session, and what is left of one that is cancelled while it connects.
use python_fleet_telemetry.Prelude.{
  ◌≡◌, ◌≢◌, ◌↔◌, ◌⊎◌, refl, sym, ap, ◌∙◌, true, false, Option, none, some, [], ◌∷◌, Str, Bytes,
  codes, arith, str_eq, Bool-cases, Option-cases, inl, inr, if◌then◌else◌,
}
use python_fleet_telemetry.Prelude.Dict
use python_fleet_telemetry.Prelude.Dict.{get-put, contains-put, keys}
use python_fleet_telemetry.Errors.{
  Error, Result, ok, raise, value_error, envelope_error, unauthorized_certificate, file_not_found,
  decode_error, os_error, connection_error, overflow_error, type_error, assertion_error,
  stop_async_iteration, queue_full, queue_empty, other, cancelled, >>=-eq-ok, Result-cases,
}
use python_fleet_telemetry.Text.Utf8.{replace}
use python_fleet_telemetry.Protobuf.{Protobuf}
use python_fleet_telemetry.Flatbuffers.{Flatbuffers}
use python_fleet_telemetry.X509.{X509}
use python_fleet_telemetry.Identity.{Identity, common_name, identity_from_cert}
use python_fleet_telemetry.Identity.Issuers.{recognized, identity_from_cert-recognized}
use python_fleet_telemetry.Server.State.{
  Connection, Server, Request, authorized, present, admit, check_cert, authorize,
}
use python_fleet_telemetry.Server.Registry.{connections-connect, session-is_current}
use python_fleet_telemetry.Server.Sessions.{
  connection, connect, Transition, Environment, status, respond, with_vin, prepared_with,
  after_connect, with_authorization, handle, or_empty, is_current, upgraded,
}

module _ (x509 : X509) (request : Request) (vin : Str) where
  -- What a request must show for a session under `vin`.
  pub record Credentials : Type 0 where
    pub has_transport : request.has_transport ≡ true
    pub has_ssl_object : request.has_ssl_object ≡ true
    pub der : Bytes
    pub der_given : request.der ≡ some der
    pub der_nonempty : der ≢ []
    pub cert : x509.Certificate
    pub loads : x509.load_der der ≡ ok cert
    pub issuer_recognized : recognized (common_name x509 (x509.issuer cert)) ≡ true
    pub vin_of_subject : vin ≡ replace b'.' b'-' (common_name x509 (x509.subject cert))
    pub vin_nonempty : vin ≢ []

  admit_authorized :
      (m : Result Identity)
      → admit m ≡ ok (authorized vin)
      → (i : Identity) × (m ≡ ok i) × (i.vin ≡ vin) × (vin ≢ [])
  unfolding admit
  admit_authorized (ok i) h = (i, refl, ground arith, ground arith)
  admit_authorized (raise (unauthorized_certificate cn)) h = cc
  admit_authorized (raise (value_error cn)) h = cc
  admit_authorized (raise (envelope_error cn)) h = cc
  admit_authorized (raise (file_not_found cn)) h = cc
  admit_authorized (raise decode_error) h = cc
  admit_authorized (raise os_error) h = cc
  admit_authorized (raise connection_error) h = cc
  admit_authorized (raise overflow_error) h = cc
  admit_authorized (raise type_error) h = cc
  admit_authorized (raise assertion_error) h = cc
  admit_authorized (raise stop_async_iteration) h = cc
  admit_authorized (raise queue_full) h = cc
  admit_authorized (raise queue_empty) h = cc
  admit_authorized (raise (other n)) h = cc
  admit_authorized (raise cancelled) h = cc

  admit-ok : (i : Identity) → i.vin ≡ vin → vin ≢ [] → admit (ok i) ≡ ok (authorized vin)
  unfolding admit
  admit-ok i h nonempty = ground arith

  present-eq : (o : Option Bytes) (der : Bytes) → present o ≡ some der → (o ≡ some der) × (der ≢ [])
  unfolding present
  present-eq none der h = absurd cc
  present-eq (some []) der h = absurd cc
  present-eq (some (b ∷ bs)) der h = (h, ground arith)

  eq-present : (der : Bytes) → der ≢ [] → present (some der) ≡ some der
  unfolding present
  eq-present [] h = absurd (h refl)
  eq-present (b ∷ bs) h = refl

  identity-of :
      (cert : x509.Certificate) (i : Identity)
      → identity_from_cert x509 cert ≡ ok i
      → (recognized (common_name x509 (x509.issuer cert)) ≡ true)
        × (i.vin ≡ replace b'.' b'-' (common_name x509 (x509.subject cert)))
  identity-of cert i h =
      let e = sym (identity_from_cert-recognized x509 cert) ∙ h in
      elim (Bool-cases (recognized (common_name x509 (x509.issuer cert)))) [
        | inl known ↦ (known, vin_of (sym (rw known refl) ∙ e))
        | inr foreign ↦ absurd (ground (arith, e, foreign))
      ]
    where
      vin_of :
          ok (record {
            vin = replace b'.' b'-' (common_name x509 (x509.subject cert));
            client_type = codes "vehicle_device";
          })
            ≡ ok i
          → i.vin ≡ replace b'.' b'-' (common_name x509 (x509.subject cert))
      vin_of e = cc

  check_cert-Credentials :
      request.has_transport ≡ true
      → request.has_ssl_object ≡ true
      → check_cert x509 (present request.der) ≡ ok (authorized vin)
      → Credentials
  unfolding check_cert
  check_cert-Credentials t l h = elim (Option-cases (present request.der)) [
    | inl e ↦ absurd (cc)
    | inr (der, e) ↦
        let (given, nonempty) = present-eq request.der der e in
        let (cert, loaded, admitted) =
          >>=-eq-ok (x509.load_der der) _ (sym (ap (check_cert x509) e) ∙ h) in
        let (i, identified, is_vin, vin_nonempty) =
          admit_authorized (identity_from_cert x509 cert) admitted in
        let (recognized_issuer, vin_given) = identity-of cert i identified in
        record {
          has_transport = t;
          has_ssl_object = l;
          der = der;
          der_given = given;
          der_nonempty = nonempty;
          cert = cert;
          loads = loaded;
          issuer_recognized = recognized_issuer;
          vin_of_subject = (sym is_vin ∙ vin_given);
          vin_nonempty = vin_nonempty;
        }
  ]

  authorized-Credentials : authorize x509 request ≡ ok (authorized vin) → Credentials
  unfolding authorize
  authorized-Credentials h = elim (Bool-cases request.has_transport) [
    | inl t ↦ elim (Bool-cases request.has_ssl_object) [
      | inl l ↦ check_cert-Credentials t l (sym (rw t (rw l refl)) ∙ h)
      | inr l ↦ absurd (ground arith)
    ]
    | inr t ↦ absurd (ground arith)
  ]

  Credentials-authorized : Credentials → authorize x509 request ≡ ok (authorized vin)
  unfolding authorize check_cert
  Credentials-authorized c = rw (c.has_transport) (
      rw (c.has_ssl_object) (
        rw (c.der_given) (
          rw (eq-present c.der c.der_nonempty) (
            rw (c.loads) (
              rw (identity_from_cert-recognized x509 c.cert)
                (rw (c.issuer_recognized) (admit-ok _ (sym c.vin_of_subject) c.vin_nonempty)))))))

  -- A request is authorized under a VIN exactly when it has a TLS session with a certificate that
  -- loads, whose issuer is recognized and whose subject gives that VIN, which is not empty.
  pub authorize_iff : (authorize x509 request ≡ ok (authorized vin)) ↔ Credentials
  authorize_iff = (authorized-Credentials, Credentials-authorized)

module _ (pb : Protobuf) (x509 : X509) (fb : Flatbuffers) (env : Environment pb) (s : Server pb)
    (vin : Str) where
  handle_authorized :
      s.closed ≡ false
      → authorize x509 env.request ≡ ok (authorized vin)
      → handle pb x509 fb env s ≡ with_vin pb fb env vin s
  unfolding handle with_authorization
  handle_authorized open_ granted =
      ap
        (λ b.
          if b
          then respond pb s (ok (status 503 (codes "server is shutting down")))
          else with_authorization pb fb env (authorize x509 env.request) s)
        open_
      ∙ ap (λ a. with_authorization pb fb env a s) granted

  handle_prepared :
      s.closed ≡ false
      → authorize x509 env.request ≡ ok (authorized vin)
      → env.prepared ≡ ok tt
      → handle pb x509 fb env s ≡ prepared_with pb fb env vin (env.while_preparing s)
  unfolding with_vin
  handle_prepared open_ granted upgraded_ =
      handle_authorized open_ granted
      ∙ ap
          (λ p. elim p [
            | raise e ↦ respond pb (env.while_preparing s) (raise e)
            | ok _ ↦ prepared_with pb fb env vin (env.while_preparing s)
          ])
          upgraded_

  after_connect-cases :
      (conn : Connection) (opened : Transition pb)
      → let left = after_connect pb fb env vin conn opened in
        ((opened.result ≡ ok tt)
          × (is_current pb (Dict.get left.server.connections vin) conn ≡ false))
        ⊎ ((e : Error) × (opened.result ≡ raise e)
            × (left.response ≡ raise e)
            × (left.effects ≡ [])
            × (left.server ≡ env.while_connecting opened.server))
  unfolding after_connect respond upgraded
  after_connect-cases conn opened = elim (Result-cases opened.result) [
    | inl (a, e) ↦ inl (
      e,
      rw (e, after_connect)
          (session-is_current pb fb vin conn env.turns env.meanwhile env.disconnect_world
            env.disconnected_at (env.while_connecting opened.server)),
    )
    | inr (x, e) ↦
        inr
          (x, e, rw (e, after_connect) refl, rw (e, after_connect) refl, rw (e, after_connect) refl)
  ]

  -- A run of `_handle` of an open server on a request that is authorized and upgraded, whatever
  -- other tasks do while it waits. Either the dispatch of the CONNECTED record returns, and when
  -- the run has ended, with an error or without, its own connection is not in the registry. Or that
  -- dispatch raises, as it does if the task is cancelled while a listener runs: then its error ends
  -- the run, no message is read, and from the registry, which holds the connection then, only other
  -- tasks take it.
  pub handle-is_current :
      s.closed ≡ false
      → authorize x509 env.request ≡ ok (authorized vin)
      → env.prepared ≡ ok tt
      → let s' = env.while_preparing s in
        let peer = or_empty pb env.request.remote in
        let conn = connection pb vin peer env.request.version env.connected_at s' in
        let opened =
          connect pb env.connect_world vin peer env.request.version env.connected_at s' in
        let left = handle pb x509 fb env s in
        ((opened.result ≡ ok tt)
          × (is_current pb (Dict.get left.server.connections vin) conn ≡ false))
        ⊎ ((e : Error) × (opened.result ≡ raise e)
            × (left.response ≡ raise e)
            × (left.effects ≡ [])
            × (Dict.get opened.server.connections vin ≡ some conn)
            × (left.server ≡ env.while_connecting opened.server))
  unfolding prepared_with
  handle-is_current open_ granted upgraded_ =
      let s' = env.while_preparing s in
      let peer = or_empty pb env.request.remote in
      let conn = connection pb vin peer env.request.version env.connected_at s' in
      let opened = connect pb env.connect_world vin peer env.request.version env.connected_at s' in
      let stored =
        ap (λ d. Dict.get d vin)
          (connections-connect pb env.connect_world vin peer env.request.version env.connected_at
            s')
        ∙ rw get-put (ground arith) in
      rw (handle_prepared open_ granted upgraded_) (elim (after_connect-cases conn opened) [
        | inl returned ↦ inl returned
        | inr (e, broken, response, effects, same) ↦
            inr (e, broken, response, effects, stored, same)
      ])
