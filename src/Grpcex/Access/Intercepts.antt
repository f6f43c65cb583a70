-- ===== src/Grpcex/Access/Intercepts.antt =====
-- grpcex/access_controller.go: the two interceptors, and the errors of the calls that are denied. A text
-- stands in the detail of an error by its number.
use framego.Prelude.{ℕ, List, [], ◌∷◌, Option, none, some}
use framego.Prelude.Text.{bytes}
use framego.Errors.{plain, Error, new_error, with_field, with_grpc_code}
use framego.Grpcex.Access.{
  Str, Enforcer, AuthInfo, inproc, tls, other, Verdict, granted, panics, peer_not_found_in_context,
  access_denied, auth_tls_info_not_found, peer_cert_not_found, auth_type_not_supported,
  anonymous_service_name, base_name, check_access,
}
use framego.Grpcex.Calls.{Peer, Call, failed, panicked, Outcome, Handle, returns}
use framego.Appmgr.Context.{error}

-- `codes.Unauthenticated`.
abbrev pub unauthenticated_code : ℕ
unauthenticated_code = 16

-- `serviceName` after the loop.
abbrev pub last_name : Str → List Str → Str
last_name name [] = name
last_name name (n ∷ names) = last_name n names

abbrev pub auth_info_of : Option Peer → Option (Option AuthInfo)
auth_info_of none = none
auth_info_of (some p) = some p.auth_info

abbrev pub info_of : Option Peer → Option AuthInfo
info_of none = none
info_of (some p) = p.auth_info

module _ (number : Str → ℕ) where
  -- With the details of the client.
  abbrev pub with_client : Option AuthInfo → Str → Error → Error
  with_client (some inproc) method e =
      with_field e (number (bytes "client_service")) (number anonymous_service_name)
  with_client (some (tls (cert ∷ certs))) method e =
      with_field
        (with_field e (number (bytes "client"))
          (number (last_name cert.common_name cert.dns_names)))
        (number (bytes "method")) (number method)
  with_client (some (other auth_type)) method e =
      with_field e (number (bytes "auth_type")) (number auth_type)
  with_client _ method e = e

  unfoldable pub denial : Option AuthInfo → Str → Str → Error
  unfolding new_error with_field with_grpc_code
  denial info method text =
      with_grpc_code (with_client info (base_name method) (new_error text)) unauthenticated_code

  abbrev pub denied : Option AuthInfo → Str → Str → Outcome
  denied info method text = returns (failed (denial info method text))

  -- The handler's outcome, or the error.
  abbrev pub by_verdict : Verdict → Option AuthInfo → Str → Outcome → Outcome
  by_verdict granted info method outcome = outcome
  by_verdict panics info method outcome =
      returns (panicked (error (plain (bytes "invalid memory address or nil pointer dereference"))))
  by_verdict peer_not_found_in_context info method outcome =
      denied info method (bytes "peer_not_found_in_context")
  by_verdict access_denied info method outcome = denied info method (bytes "access_denied")
  by_verdict auth_tls_info_not_found info method outcome =
      denied info method (bytes "auth_tls_info_not_found")
  by_verdict peer_cert_not_found info method outcome =
      denied info method (bytes "peer_cert_not_found")
  by_verdict auth_type_not_supported info method outcome =
      denied info method (bytes "auth_type_not_supported")

  unfoldable pub access_unary_server_interceptor :
      {A : Type 0} → Enforcer → Call A → Handle A → Outcome
  unfolding check_access
  access_unary_server_interceptor enforce call handler =
      by_verdict (check_access enforce (auth_info_of call.peer) call.full_method)
        (info_of call.peer) call.full_method (handler call)

  unfoldable pub access_stream_server_interceptor :
      {A : Type 0} → Enforcer → Call A → Handle A → Outcome
  unfolding check_access
  access_stream_server_interceptor enforce call handler =
      by_verdict (check_access enforce (auth_info_of call.peer) call.full_method)
        (info_of call.peer) call.full_method (handler call)
