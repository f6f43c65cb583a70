-- ===== src/Appmgr/Chain/Calm.antt =====
-- Calls of a service that recovers.
use mathlib.Core.List.{Memᴰ}
use framego.Prelude.{ℕ, ◌≢◌, refl, sym, ap, ◌∙◌, List, [], ◌∷◌, map, Option, none, some, arith}
use framego.Prelude.Text.{Str, bytes}
use framego.Errors.{Error}
use framego.Config.StringMap.{Raw, StringMap}
use framego.Grpcex.Access.{
  AuthInfo, Verdict, granted, panics, peer_not_found_in_context, access_denied,
  auth_tls_info_not_found, peer_cert_not_found, auth_type_not_supported, check_access,
}
use framego.Grpcex.Access.Intercepts.{
  by_verdict, auth_info_of, info_of, access_unary_server_interceptor,
  access_stream_server_interceptor,
}
use framego.Grpcex.Access.NoPeer.{check_access-panics}
use framego.Grpcex.Validator.{
  Message, unless_rejected, validate, validator_unary_server_interceptor, Delivered,
}
use framego.Grpcex.Calls.{
  Call, Entry, Reply, answered, failed, panicked, Outcome, Handle, Interceptor, IsSameCaller,
  IsSameCall,
}
use framego.Grpcex.Zerolog.{
  context_logger_unary_server_interceptor, context_logger_stream_server_interceptor,
  log_request_unary_server_interceptor, log_request_stream_server_interceptor, with_context_logger,
}
use framego.Appmgr.Context.{
  Panic, set_context_service, service_context_unary_server_interceptor,
  service_context_stream_server_interceptor,
}
use framego.Appmgr.Middleware.{
  Service, Handler, service_context_unary, service_context_stream, context_logger_unary,
  context_logger_stream, log_request_unary, log_request_stream, recovery_unary, recovery_stream,
  validator_server_unary, validator_server_stream, access_control_unary, access_control_stream,
}
use framego.Appmgr.Middleware.Builtin.{Env}
use framego.Appmgr.Middleware.Builtin.Configured.{Configures, apply_recovery}
use framego.Appmgr.Chain.{
  Library, IsLibrary, recovered, recovery, answer_of, through_validator,
  validator_stream_server_interceptor, unary_of, stream_of, serve_unary, serve_stream,
}

abbrev pub IsQuiet : Outcome → Type 0
IsQuiet o = (p : Panic) → o.reply ≢ panicked p

-- An interceptor of a library does not panic of its own.
abbrev pub IsCalm : {A : Type 0} → Library A → Type 0
IsCalm {A} lib =
    (x : Handler) (c : Call A) (h : Handle A)
    → ((d : Call A) → IsSameCall c d → IsQuiet (h d))
    → IsQuiet (lib.interceptor x c h)

-- The peer, if there is one, has an AuthInfo.
abbrev pub HasAuth : {A : Type 0} → Call A → Type 0
HasAuth c = auth_info_of c.peer ≢ some none

recovered-IsQuiet :
    (cause_key : ℕ) (entries : List Entry) (r : Reply)
    → IsQuiet (recovered (recovery cause_key) entries r)
unfolding recovery
recovered-IsQuiet cause_key entries (answered n) p h = ground (h, arith)
recovered-IsQuiet cause_key entries (failed e) p h = ground (h, arith)
recovered-IsQuiet cause_key entries (panicked q) p h = ground (h, arith)

recovers-IsQuiet :
    {A : Type 0}
    → (lib : Library A) (cause_key : ℕ) (c : Call A) (h : Handle A) → IsLibrary lib
    → IsQuiet (lib.recovers (recovery cause_key) c h)
recovers-IsQuiet lib cause_key c h is_library =
    rw (is_library.recovers_lem (recovery cause_key) c h)
      (recovered-IsQuiet cause_key (h c).entries (h c).reply)

by_verdict-IsQuiet :
    (number : Str → ℕ) (v : Verdict) (info : Option AuthInfo) (method : Str) (o : Outcome)
    → v ≢ panics
    → IsQuiet o
    → IsQuiet (by_verdict number v info method o)
by_verdict-IsQuiet number granted info method o calm q = q
by_verdict-IsQuiet number panics info method o calm q = absurd (calm refl)
by_verdict-IsQuiet number peer_not_found_in_context info method o calm q = λ p h. ground (h, arith)
by_verdict-IsQuiet number access_denied info method o calm q = λ p h. ground (h, arith)
by_verdict-IsQuiet number auth_tls_info_not_found info method o calm q = λ p h. ground (h, arith)
by_verdict-IsQuiet number peer_cert_not_found info method o calm q = λ p h. ground (h, arith)
by_verdict-IsQuiet number auth_type_not_supported info method o calm q = λ p h. ground (h, arith)

unless_rejected-IsQuiet :
    (o : Option Error) (outcome : Outcome)
    → IsQuiet outcome
    → IsQuiet (answer_of (unless_rejected o outcome))
unless_rejected-IsQuiet none outcome q = q
unless_rejected-IsQuiet (some e) outcome q = λ p h. ground (h, arith)

-- A chain that recovers somewhere is quiet, if each interceptor is quiet where the rest is.
chain-IsQuiet :
    {A : Type 0}
    → (lib : Library A) (of : Handler → Interceptor A) (x : Handler) (hs : List Handler)
      (c : Call A) (h : Handle A)
    → IsLibrary lib
    → ((y : Handler) (d : Call A) (k : Handle A)
        → HasAuth d
        → ((e : Call A) → IsSameCaller d e → IsQuiet (k e))
        → IsQuiet (of y d k))
    → ((d : Call A) (k : Handle A) → IsQuiet (of x d k))
    → HasAuth c
    → Memᴰ x hs
    → IsQuiet (lib.chain (map of hs) c h)
chain-IsQuiet lib of x [] c h is_library calm quiet auth i = elim i [ ]
chain-IsQuiet lib of x (y ∷ hs) c h is_library calm quiet auth (Memᴰ.head e) =
    rw (is_library.chain_cons (of y) (map of hs) c h, ← e)
      (quiet c (λ d. lib.chain (map of hs) d h))
chain-IsQuiet lib of x (y ∷ hs) c h is_library calm quiet auth (Memᴰ.tail i) =
    rw (is_library.chain_cons (of y) (map of hs) c h) (
      calm y c (λ d. lib.chain (map of hs) d h) auth
        (λ d s.
          chain-IsQuiet lib of x hs d h is_library calm quiet
            (λ e. auth (ap auth_info_of (sym s.1) ∙ e)) i))

module _ (number : Str → ℕ) where
  unary_of-IsQuiet :
      (lib : Library Message)
      → IsLibrary lib
      → IsCalm lib
      → (x : Handler) (c : Call Message) (h : Handle Message) → HasAuth c
      → ((d : Call Message) → IsSameCaller c d → IsQuiet (h d))
      → IsQuiet (unary_of number lib x c h)
  unfolding unary_of service_context_unary_server_interceptor validator_unary_server_interceptor
      context_logger_unary_server_interceptor log_request_unary_server_interceptor
      access_unary_server_interceptor with_context_logger
  unary_of-IsQuiet lib is_library calm (service_context_unary s) c h auth q =
      q (record c { ctx = set_context_service c.ctx (some s) }) (refl, refl, refl)
  unary_of-IsQuiet lib is_library calm context_logger_unary c h auth q =
      q (with_context_logger c) (refl, refl, refl)
  unary_of-IsQuiet lib is_library calm log_request_unary c h auth q = q c (refl, refl, refl)
  unary_of-IsQuiet lib is_library calm recovery_unary c h auth q =
      recovers-IsQuiet lib (number (bytes "cause")) c h is_library
  unary_of-IsQuiet lib is_library calm validator_server_unary c h auth q =
      unless_rejected-IsQuiet (validate c.req) (h c) (q c (refl, refl, refl))
  unary_of-IsQuiet lib is_library calm (access_control_unary e) c h auth q =
      by_verdict-IsQuiet number (check_access e (auth_info_of c.peer) c.full_method)
        (info_of c.peer) c.full_method (h c)
        (λ p. auth (check_access-panics e (auth_info_of c.peer) c.full_method p))
        (q c (refl, refl, refl))
  unary_of-IsQuiet lib is_library calm x c h auth q = calm x c h (λ d s. q d s.0)

  stream_of-IsQuiet :
      (lib : Library (List Delivered))
      → IsLibrary lib
      → IsCalm lib
      → (x : Handler) (c : Call (List Delivered)) (h : Handle (List Delivered)) → HasAuth c
      → ((d : Call (List Delivered)) → IsSameCaller c d → IsQuiet (h d))
      → IsQuiet (stream_of number lib x c h)
  unfolding stream_of service_context_stream_server_interceptor validator_stream_server_interceptor
      context_logger_stream_server_interceptor log_request_stream_server_interceptor
      access_stream_server_interceptor with_context_logger
  stream_of-IsQuiet lib is_library calm (service_context_stream s) c h auth q =
      q (record c { ctx = set_context_service c.ctx (some s) }) (refl, refl, refl)
  stream_of-IsQuiet lib is_library calm context_logger_stream c h auth q =
      q (with_context_logger c) (refl, refl, refl)
  stream_of-IsQuiet lib is_library calm log_request_stream c h auth q = q c (refl, refl, refl)
  stream_of-IsQuiet lib is_library calm recovery_stream c h auth q =
      recovers-IsQuiet lib (number (bytes "cause")) c h is_library
  stream_of-IsQuiet lib is_library calm validator_server_stream c h auth q =
      q (record c { req = map through_validator c.req }) (refl, refl, refl)
  stream_of-IsQuiet lib is_library calm (access_control_stream e) c h auth q =
      by_verdict-IsQuiet number (check_access e (auth_info_of c.peer) c.full_method)
        (info_of c.peer) c.full_method (h c)
        (λ p. auth (check_access-panics e (auth_info_of c.peer) c.full_method p))
        (q c (refl, refl, refl))
  stream_of-IsQuiet lib is_library calm x c h auth q = calm x c h (λ d s. q d s.0)

module _ (number : Str → ℕ) (lib : Library Message) (streams : Library (List Delivered)) (env : Env)
    (s : Service) (configs : List Raw) (config : Raw) (written : Str) (options : StringMap)
    (us ss : List Handler) where
  -- Where a configuration of a service names recovery, no call ends with a panic, unary or stream, whatever its handler does and whatever the other interceptors are; conditions: the service's interceptors are made, those of libraries change only the values of the context and do not panic of their own, and the peer of the call, if there is one, has an AuthInfo.
  pub serve-IsQuiet :
      IsLibrary lib
      → IsLibrary streams
      → IsCalm lib
      → IsCalm streams
      → Configures env s configs config written options us ss (bytes "recovery")
      → (c : Call Message) (h : Handle Message) → HasAuth c
      → (d : Call (List Delivered)) (k : Handle (List Delivered)) → HasAuth d
      → IsQuiet (serve_unary number lib us c h) × IsQuiet (serve_stream number streams ss d k)
  unfolding serve_unary serve_stream unary_of stream_of
  serve-IsQuiet unary stream calm calm_stream configures c h auth d k auth_stream =
      let (i, j) = apply_recovery env s configs config written options us ss configures in
      (
        chain-IsQuiet lib (unary_of number lib) recovery_unary us c h unary
            (unary_of-IsQuiet number lib unary calm)
            (λ f l. recovers-IsQuiet lib (number (bytes "cause")) f l unary) auth i,
        chain-IsQuiet streams (stream_of number streams) recovery_stream ss d k stream
            (stream_of-IsQuiet number streams stream calm_stream)
            (λ f l. recovers-IsQuiet streams (number (bytes "cause")) f l stream) auth_stream j,
      )
