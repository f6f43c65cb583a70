-- ===== src/Grpcex/Zerolog.antt =====
-- grpcex/zerolog.go: the logger of a call, and what is logged of each. Times are left out.
pub mod Logged
use framego.Prelude.{ℕ, ◌+◌, List, [], ◌∷◌, ◌++◌, Option, none, some}
use framego.Prelude.Text.{Str, bytes}
use framego.Grpcex.Metadata.{get_client_ip}
use framego.Grpcex.Calls.{
  Peer, Call, Event, grpc_request, grpc_request_with_error, grpc_request_panic, grpc_stream_start,
  grpc_stream_end, grpc_stream_end_with_error, Entry, Reply, answered, failed, panicked, Outcome,
  Handle, and_logs,
}
use framego.Appmgr.Context.{Logger, from_context, set_context_logger}

abbrev pub address_of : Option Peer → Option Str
address_of none = none
address_of (some p) = some p.address

unfoldable pub get_context_logger : {A : Type 0} → Call A → Logger
unfolding get_client_ip
get_context_logger call =
    (bytes "request_id", call.uuids 0)
    ∷ (bytes "method", call.full_method)
    ∷ (bytes "ip", get_client_ip call.metadata (address_of call.peer))
    ∷ []

-- The call that the handler is given, in a call or in a stream alike.
unfoldable pub with_context_logger : {A : Type 0} → Call A → Call A
unfolding get_context_logger set_context_logger
with_context_logger call = record call {
  uuids = λ n. call.uuids (n + 1);
  ctx = set_context_logger call.ctx (some (get_context_logger call));
}

unfoldable pub context_logger_unary_server_interceptor : {A : Type 0} → Call A → Handle A → Outcome
unfolding with_context_logger
context_logger_unary_server_interceptor call handler = handler (with_context_logger call)

unfoldable pub context_logger_stream_server_interceptor : {A : Type 0} → Call A → Handle A → Outcome
unfolding with_context_logger
context_logger_stream_server_interceptor call handler = handler (with_context_logger call)

-- What is logged when the handler is done; `logPanic` logs a panic and raises it again.
abbrev pub unary_event : Reply → Event
unary_event (answered n) = grpc_request
unary_event (failed e) = grpc_request_with_error e
unary_event (panicked p) = grpc_request_panic p

abbrev pub stream_event : Reply → Event
stream_event (answered n) = grpc_stream_end
stream_event (failed e) = grpc_stream_end_with_error e
stream_event (panicked p) = grpc_request_panic p

abbrev pub entry : Logger → Event → Entry
entry l event = record { by = l; event = event }

unfoldable pub log_request_unary_server_interceptor : {A : Type 0} → Call A → Handle A → Outcome
unfolding from_context
log_request_unary_server_interceptor call handler =
    let outcome = handler call in
    and_logs outcome (entry (from_context call.ctx) (unary_event outcome.reply) ∷ [])

unfoldable pub log_request_stream_server_interceptor : {A : Type 0} → Call A → Handle A → Outcome
unfolding from_context
log_request_stream_server_interceptor call handler =
    let outcome = handler call in
    let log = from_context call.ctx in
    record {
      entries =
          entry log grpc_stream_start ∷ outcome.entries
          ++ entry log (stream_event outcome.reply) ∷ [];
      reply = outcome.reply;
    }
