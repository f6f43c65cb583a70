-- ===== src/Appmgr/Chain/Passes.antt =====
-- What the interceptors of a chain leave of a call, and chains that keep it from the handler.
use mathlib.Core.List.{Memᴰ}
use framego.Prelude.{ℕ, ◌≡◌, ◌≢◌, refl, ◌∙◌, List, [], ◌∷◌, map, Option, some}
use framego.Prelude.Text.{Str, bytes}
use framego.Grpcex.Access.{
  Enforcer, AuthInfo, Verdict, granted, panics, peer_not_found_in_context, access_denied,
  auth_tls_info_not_found, peer_cert_not_found, auth_type_not_supported, check_access,
}
use framego.Grpcex.Access.Intercepts.{
  by_verdict, auth_info_of, info_of, access_unary_server_interceptor,
  access_stream_server_interceptor,
}
use framego.Grpcex.Validator.{Message, validator_unary_server_interceptor, Delivered}
use framego.Grpcex.Calls.{Call, Outcome, Handle, Interceptor, IsSameCaller, IsSameCall}
use framego.Grpcex.Zerolog.{
  context_logger_unary_server_interceptor, context_logger_stream_server_interceptor,
  log_request_unary_server_interceptor, log_request_stream_server_interceptor, with_context_logger,
}
use framego.Appmgr.Context.{
  Panic, set_context_service, service_context_unary_server_interceptor,
  service_context_stream_server_interceptor,
}
use framego.Appmgr.Middleware.{
  Handler, service_context_unary, service_context_stream, context_logger_unary,
  context_logger_stream, log_request_unary, log_request_stream, recovery_unary, recovery_stream,
  validator_server_unary, validator_server_stream, access_control_unary, access_control_stream,
}
use framego.Appmgr.Chain.{
  Library, IsLibrary, recovery, through_validator, validator_stream_server_interceptor, unary_of,
  stream_of,
}

-- The handler has no part in what the interceptor does with the call.
abbrev pub IsShut : {A : Type 0} → Interceptor A → Call A → Type 0
IsShut {A} i c = (h k : Handle A) → i c h ≡ i c k

pub same_caller_trans :
    {A : Type 0} → (b c d : Call A) → IsSameCaller b c → IsSameCaller c d → IsSameCaller b d
same_caller_trans b c d (m, p, t) (m', p', t') = (m' ∙ m, p' ∙ p, t' ∙ t)

pub IsSameCall-trans :
    {A : Type 0} → (b c d : Call A) → IsSameCall b c → IsSameCall c d → IsSameCall b d
IsSameCall-trans b c d (s, r) (s', r') = (same_caller_trans b c d s s', r' ∙ r)

pub recovers-eq :
    {A : Type 0}
    → (lib : Library A) (f : Panic → Outcome) (c : Call A) (h k : Handle A) → IsLibrary lib
    → h c ≡ k c
    → lib.recovers f c h ≡ lib.recovers f c k
recovers-eq lib f c h k is_library e =
    rw (is_library.recovers_lem f c h, is_library.recovers_lem f c k, e) refl

module _ {A : Type 0} (Rel : Call A → Call A → Type 0) where
  -- Two handlers that agree on each call that this one may become.
  abbrev pub Agree : Call A → Handle A → Handle A → Type 0
  Agree c h k = (d : Call A) → Rel c d → h d ≡ k d

  -- A chain with an interceptor that is shut is shut, if each one only makes related calls.
  pub chain-IsShut :
      (lib : Library A) (of : Handler → Interceptor A) (x : Handler) (hs : List Handler)
      (c : Call A)
      → IsLibrary lib
      → ((d : Call A) → Rel d d)
      → ((d e f : Call A) → Rel d e → Rel e f → Rel d f)
      → ((y : Handler) (d : Call A) (h k : Handle A) → Agree d h k → of y d h ≡ of y d k)
      → ((d : Call A) → Rel c d → IsShut (of x) d)
      → Memᴰ x hs
      → IsShut (λ d h. lib.chain (map of hs) d h) c
  chain-IsShut lib of x [] c is_library same trans passes shut i h k = elim i [ ]
  chain-IsShut lib of x (y ∷ hs) c is_library same trans passes shut (Memᴰ.head e) h k =
      rw
        (
          is_library.chain_cons (of y) (map of hs) c h,
          is_library.chain_cons (of y) (map of hs) c k,
          ← e,
        )
        (shut c (same c) (λ d. lib.chain (map of hs) d h) (λ d. lib.chain (map of hs) d k))
  chain-IsShut lib of x (y ∷ hs) c is_library same trans passes shut (Memᴰ.tail i) h k =
      let rest = λ (d : Call A) (s : Rel c d).
        chain-IsShut lib of x hs d is_library same trans passes (λ e t. shut e (trans c d e s t)) i
          h k in
      rw
        (is_library.chain_cons (of y) (map of hs) c h, is_library.chain_cons (of y) (map of hs) c k)
        (passes y c (λ d. lib.chain (map of hs) d h) (λ d. lib.chain (map of hs) d k) rest)

pub by_verdict-eq :
    (number : Str → ℕ) (v : Verdict) (info : Option AuthInfo) (method : Str) (o p : Outcome)
    → v ≢ granted
    → by_verdict number v info method o ≡ by_verdict number v info method p
by_verdict-eq number granted info method o p h = absurd (h refl)
by_verdict-eq number panics info method o p h = refl
by_verdict-eq number peer_not_found_in_context info method o p h = refl
by_verdict-eq number access_denied info method o p h = refl
by_verdict-eq number auth_tls_info_not_found info method o p h = refl
by_verdict-eq number peer_cert_not_found info method o p h = refl
by_verdict-eq number auth_type_not_supported info method o p h = refl

abbrev pub same : {A : Type 0} → (c : Call A) → IsSameCaller c c
same c = (refl, refl, refl)

-- A call whose access is not granted.
abbrev pub IsUngranted : {A : Type 0} → Enforcer → Call A → Type 0
IsUngranted e c = check_access e (auth_info_of c.peer) c.full_method ≢ granted

pub IsUngranted-same :
    {A : Type 0}
    → (e : Enforcer) (c d : Call A) → IsSameCaller c d
    → IsUngranted e c
    → IsUngranted e d
IsUngranted-same e c d (m, p, t) h = λ g. h (rw (m, p) at g)

module _ (number : Str → ℕ) where
  pub unary_of-passes :
      (lib : Library Message)
      → IsLibrary lib
      → (x : Handler) (c : Call Message) (h k : Handle Message) → Agree IsSameCall c h k
      → unary_of number lib x c h ≡ unary_of number lib x c k
  unfolding unary_of service_context_unary_server_interceptor validator_unary_server_interceptor
      context_logger_unary_server_interceptor log_request_unary_server_interceptor
      access_unary_server_interceptor with_context_logger
  unary_of-passes lib is_library (service_context_unary s) c h k agree =
      agree (record c { ctx = set_context_service c.ctx (some s) }) (same c, refl)
  unary_of-passes lib is_library context_logger_unary c h k agree =
      agree (with_context_logger c) (same c, refl)
  unary_of-passes lib is_library log_request_unary c h k agree = rw (agree c (same c, refl)) refl
  unary_of-passes lib is_library recovery_unary c h k agree =
      recovers-eq lib (recovery (number (bytes "cause"))) c h k is_library (agree c (same c, refl))
  unary_of-passes lib is_library validator_server_unary c h k agree =
      rw (agree c (same c, refl)) refl
  unary_of-passes lib is_library (access_control_unary e) c h k agree =
      rw (agree c (same c, refl)) refl
  unary_of-passes lib is_library x c h k agree = is_library.passes x c h k agree

  pub stream_of-passes :
      (lib : Library (List Delivered))
      → IsLibrary lib
      → (x : Handler) (c : Call (List Delivered)) (h k : Handle (List Delivered))
      → Agree IsSameCaller c h k
      → stream_of number lib x c h ≡ stream_of number lib x c k
  unfolding stream_of service_context_stream_server_interceptor validator_stream_server_interceptor
      context_logger_stream_server_interceptor log_request_stream_server_interceptor
      access_stream_server_interceptor with_context_logger
  stream_of-passes lib is_library (service_context_stream s) c h k agree =
      agree (record c { ctx = set_context_service c.ctx (some s) }) (same c)
  stream_of-passes lib is_library context_logger_stream c h k agree =
      agree (with_context_logger c) (same c)
  stream_of-passes lib is_library log_request_stream c h k agree = rw (agree c (same c)) refl
  stream_of-passes lib is_library recovery_stream c h k agree =
      recovers-eq lib (recovery (number (bytes "cause"))) c h k is_library (agree c (same c))
  stream_of-passes lib is_library validator_server_stream c h k agree =
      agree (record c { req = map through_validator c.req }) (same c)
  stream_of-passes lib is_library (access_control_stream e) c h k agree = rw (agree c (same c)) refl
  stream_of-passes lib is_library x c h k agree = is_library.passes x c h k (λ d s. agree d s.0)

  pub access_unary-IsShut :
      {A : Type 0}
      → (e : Enforcer) (c : Call A) → IsUngranted e c
      → IsShut (access_unary_server_interceptor number e) c
  unfolding access_unary_server_interceptor
  access_unary-IsShut e c ungranted h k =
      by_verdict-eq number (check_access e (auth_info_of c.peer) c.full_method) (info_of c.peer)
        c.full_method (h c) (k c) ungranted

  pub access_stream-IsShut :
      {A : Type 0}
      → (e : Enforcer) (c : Call A) → IsUngranted e c
      → IsShut (access_stream_server_interceptor number e) c
  unfolding access_stream_server_interceptor
  access_stream-IsShut e c ungranted h k =
      by_verdict-eq number (check_access e (auth_info_of c.peer) c.full_method) (info_of c.peer)
        c.full_method (h c) (k c) ungranted
