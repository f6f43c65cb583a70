-- ===== src/Appmgr/Chain.antt =====
-- appmgr/middleware.go: what the collected interceptors of a service do with a call, chained as
-- GrpcServerInterceptor chains them. The interceptors of grpc_ctxtags, grpc_prometheus and the
-- application, grpc_recovery, and the chain of grpc_middleware are parameters.
pub mod Passes
pub mod Refused
pub mod Calm
use framego.Prelude.{ℕ, ◌≡◌, ◌≢◌, List, [], ◌∷◌, ◌++◌, map, Option, none, some}
use framego.Prelude.Text.{Str, bytes}
use framego.Errors.{Error}
use framego.Grpcex.Access.Intercepts.{
  access_unary_server_interceptor, access_stream_server_interceptor,
}
use framego.Grpcex.Validator.{
  Message, Answer, refused, handled, validate, validator_unary_server_interceptor, Delivered,
  failed, invalid, delivered, delivered_unless,
}
use framego.Grpcex.Calls.{
  Call, Entry, grpc_handler_panic_recovery, Reply, panicked, answered, Outcome, Handle, Interceptor,
  returns, and_logs, IsSameCall,
}
use framego.Grpcex.Calls as Calls
use framego.Grpcex.Zerolog.{
  entry, context_logger_unary_server_interceptor, context_logger_stream_server_interceptor,
  log_request_unary_server_interceptor, log_request_stream_server_interceptor,
}
use framego.Appmgr.Context.{
  Panic, recovery_handler, service_context_unary_server_interceptor,
  service_context_stream_server_interceptor,
}
use framego.Appmgr.Middleware.{
  Handler, service_context_unary, service_context_stream, context_logger_unary,
  context_logger_stream, log_request_unary, log_request_stream, recovery_unary, recovery_stream,
  validator_server_unary, validator_server_stream, access_control_unary, access_control_stream,
}

-- What the libraries make: an interceptor, one that recovers, and a chain.
pub record Library (A : Type 0) : Type 0 where
  pub interceptor : Handler → Interceptor A
  pub recovers : (Panic → Outcome) → Interceptor A
  pub chain : List (Interceptor A) → Interceptor A

abbrev pub recovered : (Panic → Outcome) → List Entry → Reply → Outcome
recovered f entries (panicked p) =
    and_logs (record { entries = entries; reply = (f p).reply }) (f p).entries
recovered f entries r = record { entries = entries; reply = r }

-- What the code relies on: a chain runs its interceptors from the left, recovery gives a panic to its
-- handler, and an interceptor of a library may change the values of the context only.
pub record IsLibrary {A : Type 0} (lib : Library A) : Type 0 where
  pub chain_nil : (c : Call A) (h : Handle A) → lib.chain [] c h ≡ h c
  pub chain_cons :
      (i : Interceptor A) (is : List (Interceptor A)) (c : Call A) (h : Handle A)
      → lib.chain (i ∷ is) c h ≡ i c (λ d. lib.chain is d h)
  pub recovers_lem :
      (f : Panic → Outcome) (c : Call A) (h : Handle A)
      → lib.recovers f c h ≡ recovered f (h c).entries (h c).reply
  pub passes :
      (x : Handler) (c : Call A) (h k : Handle A)
      → ((d : Call A) → IsSameCall c d → h d ≡ k d)
      → lib.interceptor x c h ≡ lib.interceptor x c k

-- The option of grpc_recovery, with the key of the error's detail; the package's logger has no field.
unfoldable pub recovery : ℕ → Panic → Outcome
unfolding recovery_handler
recovery cause_key p =
    let e = recovery_handler cause_key p in
    record { entries = entry [] (grpc_handler_panic_recovery e) ∷ []; reply = Calls.failed e }

abbrev pub answer_of : Answer Outcome → Outcome
answer_of (refused e) = returns (Calls.failed e)
answer_of (handled o) = o

-- What the stream's wrapper gives for what the stream gives.
abbrev pub through_validator : Delivered → Delivered
through_validator (delivered m) = delivered_unless m (validate m)
through_validator d = d

unfoldable pub validator_stream_server_interceptor :
    Call (List Delivered) → Handle (List Delivered) → Outcome
validator_stream_server_interceptor call handler =
    handler (record call { req = map through_validator call.req })

module _ (number : Str → ℕ) where
  module _ (lib : Library Message) where
    unfoldable pub unary_of : Handler → Interceptor Message
    unfolding recovery service_context_unary_server_interceptor validator_unary_server_interceptor
        context_logger_unary_server_interceptor log_request_unary_server_interceptor
        access_unary_server_interceptor
    unary_of (service_context_unary s) call handler =
        service_context_unary_server_interceptor (some s) call.ctx call.req
          (λ ctx req. handler (record call { ctx = ctx; req = req }))
    unary_of context_logger_unary call handler =
        context_logger_unary_server_interceptor call handler
    unary_of log_request_unary call handler = log_request_unary_server_interceptor call handler
    unary_of recovery_unary call handler =
        lib.recovers (recovery (number (bytes "cause"))) call handler
    unary_of validator_server_unary call handler =
        answer_of
          (validator_unary_server_interceptor (λ req. handler (record call { req = req })) call.req)
    unary_of (access_control_unary e) call handler =
        access_unary_server_interceptor number e call handler
    unary_of x call handler = lib.interceptor x call handler

    -- A unary call of a service with these interceptors.
    unfoldable pub serve_unary : List Handler → Call Message → Handle Message → Outcome
    unfolding unary_of
    serve_unary us call handler = lib.chain (map unary_of us) call handler

  module _ (lib : Library (List Delivered)) where
    -- A stream is what its `RecvMsg` gives.
    unfoldable pub stream_of : Handler → Interceptor (List Delivered)
    unfolding recovery service_context_stream_server_interceptor validator_stream_server_interceptor
        context_logger_stream_server_interceptor log_request_stream_server_interceptor
        access_stream_server_interceptor
    stream_of (service_context_stream s) call handler =
        service_context_stream_server_interceptor (some s) (call.ctx, call.req)
          (λ (ctx, req). handler (record call { ctx = ctx; req = req }))
    stream_of context_logger_stream call handler =
        context_logger_stream_server_interceptor call handler
    stream_of log_request_stream call handler = log_request_stream_server_interceptor call handler
    stream_of recovery_stream call handler =
        lib.recovers (recovery (number (bytes "cause"))) call handler
    stream_of validator_server_stream call handler =
        validator_stream_server_interceptor call handler
    stream_of (access_control_stream e) call handler =
        access_stream_server_interceptor number e call handler
    stream_of x call handler = lib.interceptor x call handler

    unfoldable pub serve_stream :
        List Handler → Call (List Delivered) → Handle (List Delivered) → Outcome
    unfolding stream_of
    serve_stream ss call handler = lib.chain (map stream_of ss) call handler
