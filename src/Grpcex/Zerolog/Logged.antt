-- ===== src/Grpcex/Zerolog/Logged.antt =====
-- What is logged of a call behind the two interceptors.
use framego.Prelude.{◌≡◌, refl, [], ◌∷◌, ◌++◌}
use framego.Prelude.Text.{bytes}
use framego.Grpcex.Metadata.{get_client_ip}
use framego.Grpcex.Calls.{Call, grpc_stream_start, Handle, and_logs}
use framego.Grpcex.Zerolog.{
  address_of, entry, unary_event, stream_event, get_context_logger, with_context_logger,
  context_logger_unary_server_interceptor, context_logger_stream_server_interceptor,
  log_request_unary_server_interceptor, log_request_stream_server_interceptor,
}
use framego.Appmgr.Context.{Logger, from_context, set_context_logger}

-- The fields of a call's logger: a new uuid, the method and the client's address.
abbrev pub fields_of : {A : Type 0} → Call A → Logger
fields_of call =
    (bytes "request_id", call.uuids 0)
    ∷ (bytes "method", call.full_method)
    ∷ (bytes "ip", get_client_ip call.metadata (address_of call.peer))
    ∷ []

logger_of_call :
    {A : Type 0} → (call : Call A) → from_context (with_context_logger call).ctx ≡ fields_of call
unfolding from_context with_context_logger set_context_logger get_context_logger
logger_of_call call = refl

-- Behind the context logger and then the request log, a call ends as its handler ends, a panic included, and its end is logged once, after all that the handler logs, by a logger with the call's uuid, method and client address; a stream's start is logged before.
pub context_logger-log_request :
    {A : Type 0}
    → (call : Call A) (handler : Handle A)
    → (context_logger_unary_server_interceptor call
          (λ c. log_request_unary_server_interceptor c handler)
        ≡ and_logs
            (handler (with_context_logger call))
            (entry (fields_of call) (unary_event (handler (with_context_logger call)).reply) ∷ []))
      × (context_logger_stream_server_interceptor call
            (λ c. log_request_stream_server_interceptor c handler)
          ≡ record {
            entries =
                entry (fields_of call) grpc_stream_start
                  ∷ (handler (with_context_logger call)).entries
                ++ entry (fields_of call) (stream_event (handler (with_context_logger call)).reply)
                  ∷ [];
            reply = (handler (with_context_logger call)).reply;
          })
unfolding context_logger_unary_server_interceptor context_logger_stream_server_interceptor
    log_request_unary_server_interceptor log_request_stream_server_interceptor
context_logger-log_request call handler = rw (logger_of_call call) (refl, refl)
