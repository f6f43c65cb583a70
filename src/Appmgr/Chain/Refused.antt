-- ===== src/Appmgr/Chain/Refused.antt =====
-- Calls that a service keeps from its handlers.
use framego.Prelude.{ℕ, ◌≡◌, ◌≢◌, refl, sym, ap, ◌∙◌, List, Option, none, some}
use framego.Prelude.Text.{Str, bytes}
use framego.Config.StringMap.{Raw, StringMap}
use framego.Grpcex.Access.{Enforcer}
use framego.Grpcex.Validator.{
  Message, validator_unary_server_interceptor, unless_rejected, Delivered,
}
use framego.Grpcex.Calls.{Call, Outcome, IsSameCaller, IsSameCall}
use framego.Appmgr.Middleware.{
  Service, Handler, validator_server_unary, access_control_unary, access_control_stream,
}
use framego.Appmgr.Middleware.Builtin.{Env}
use framego.Appmgr.Chain.{
  Library, IsLibrary, answer_of, unary_of, stream_of, serve_unary, serve_stream,
}
use framego.Appmgr.Middleware.Builtin.Configured.{
  Configures, Enforces, apply_enforcer, apply_request_validation,
}
use framego.Appmgr.Chain.Passes.{
  IsShut, IsUngranted, same_caller_trans, IsSameCall-trans, chain-IsShut, unary_of-passes,
  stream_of-passes, access_unary-IsShut, access_stream-IsShut, IsUngranted-same,
}
use framego.Grpcex.Validator.Rejects.{violation, validate-eq}
use framego.Errors.{Cause}
use framego.Grpcex.Validator.{rejected}

unless_rejected-eq :
    (o : Option Cause) (a b : Outcome)
    → o ≢ none
    → answer_of (unless_rejected (rejected o) a) ≡ answer_of (unless_rejected (rejected o) b)
unfolding rejected
unless_rejected-eq none a b h = absurd (h refl)
unless_rejected-eq (some cause) a b h = refl

validator-IsShut :
    (number : Str → ℕ) (lib : Library Message) (c : Call Message)
    → violation c.req ≢ none
    → IsShut (unary_of number lib validator_server_unary) c
unfolding unary_of validator_unary_server_interceptor
validator-IsShut number lib c bad h k = rw (validate-eq c.req) (
    unless_rejected-eq (violation c.req) (h (record c { req = c.req }))
      (k (record c { req = c.req })) bad)

module _ (number : Str → ℕ) (lib : Library Message) (streams : Library (List Delivered)) (env : Env)
    (s : Service) (configs : List Raw) (config : Raw) (written : Str) (options : StringMap)
    (us ss : List Handler) where
  -- Where a configuration of a service names access control, a call that its enforcer does not grant gets an answer in which the handler has no part, unary or stream, whatever the other interceptors are; conditions: the service's interceptors are made, and those of libraries change only the values of the context.
  pub serve-ungranted :
      (e : Enforcer)
      → IsLibrary lib
      → IsLibrary streams
      → Enforces env s configs config written options us ss e
      → Configures env s configs config written options us ss (bytes "access_control")
      → (c : Call Message) (d : Call (List Delivered)) → IsUngranted e c
      → IsUngranted e d
      → IsShut (serve_unary number lib us) c × IsShut (serve_stream number streams ss) d
  unfolding serve_unary serve_stream unary_of stream_of
  serve-ungranted e unary stream enforces configures c d ungranted ungranted_stream =
      let (i, j) =
        apply_enforcer env s configs config written options us ss e enforces configures in
      (
        chain-IsShut IsSameCaller lib (unary_of number lib) (access_control_unary e) us c unary
            (λ f. (refl, refl, refl)) same_caller_trans
            (λ y f h k agree. unary_of-passes number lib unary y f h k (λ g q. agree g q.0))
            (λ f q. access_unary-IsShut number e f (IsUngranted-same e c f q ungranted)) i,
        chain-IsShut IsSameCaller streams (stream_of number streams) (access_control_stream e) ss d
            stream (λ f. (refl, refl, refl)) same_caller_trans
            (stream_of-passes number streams stream)
            (λ f q. access_stream-IsShut number e f (IsUngranted-same e d f q ungranted_stream)) j,
      )

  -- Where a configuration of a service names request validation, a unary call whose message has a violation gets an answer in which the handler has no part, whatever the other interceptors are; conditions: the service's interceptors are made, and those of libraries change only the values of the context.
  pub serve_unary-invalid :
      IsLibrary lib
      → Configures env s configs config written options us ss (bytes "request_validation")
      → (c : Call Message) → violation c.req ≢ none
      → IsShut (serve_unary number lib us) c
  unfolding serve_unary unary_of
  serve_unary-invalid unary configures c bad =
      let i = apply_request_validation env s configs config written options us ss configures in
      chain-IsShut IsSameCall lib (unary_of number lib) validator_server_unary us c unary
        (λ d. ((refl, refl, refl), refl)) IsSameCall-trans (unary_of-passes number lib unary)
        (λ d q. validator-IsShut number lib d (λ e. bad (sym (ap violation q.1) ∙ e))) i.0
