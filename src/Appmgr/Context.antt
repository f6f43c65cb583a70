-- ===== src/Appmgr/Context.antt =====
-- appmgr/context.go, and the service context's interceptors and the recovery handler of
-- appmgr/middleware.go; log/context.go. A context is the list of its values by key, the last that was
-- set first.
pub mod Seen
use framego.Prelude.{ℕ, List, [], ◌∷◌, Option, none, some}
use framego.Prelude.Text.{Str, bytes, find, put}
use framego.Appmgr.Middleware.{Service}
use framego.Errors.{Cause, Error, wrap, new_error, with_field, with_grpc_code}

-- A logger is the fields that it writes; `Logger` of the package log has none.
abbrev pub Logger : Type 0
Logger = List (Str × Str)

-- A value of a context: a nil interface, a service, a pointer to a logger, or one of another type.
pub data Value : Type 0 where
  nil : Value
  service : Service → Value
  logger : Option Logger → Value
  other_value : ℕ → Value

abbrev pub Context : Type 0
Context = List (Str × Value)

abbrev pub context_service_key : Str
context_service_key = bytes "_service"

abbrev pub as_service : Option Value → Option Service
as_service none = none
as_service (some nil) = none
as_service (some (service s)) = some s
as_service (some (logger l)) = none
as_service (some (other_value n)) = none

unfoldable pub get_context_service : Context → Option Service
get_context_service ctx = as_service (find context_service_key ctx)

abbrev pub to_value : Option Service → Value
to_value none = nil
to_value (some s) = service s

-- `context.WithValue`.
unfoldable pub set_context_service : Context → Option Service → Context
set_context_service ctx s = (context_service_key, to_value s) ∷ ctx

abbrev pub context_logger_key : Str
context_logger_key = bytes "_logger"

abbrev pub as_logger : Option Value → Logger
as_logger (some (logger (some l))) = l
as_logger _ = []

unfoldable pub from_context : Context → Logger
from_context ctx = as_logger (find context_logger_key ctx)

unfoldable pub set_context_logger : Context → Option Logger → Context
set_context_logger ctx l = (context_logger_key, logger l) ∷ ctx

unfoldable pub set_gin_context_logger : Context → Option Logger → Context
set_gin_context_logger ctx l = put context_logger_key (logger l) ctx

-- `Set` of gin's context, which has a map.
unfoldable pub set_gin_context_service : Context → Option Service → Context
set_gin_context_service ctx s = put context_service_key (to_value s) ctx

unfoldable pub service_context_unary_server_interceptor :
    {Req : Type 0} {A : Type 0} → Option Service → Context → Req → (Context → Req → A) → A
unfolding set_context_service
service_context_unary_server_interceptor s ctx req handler = handler (set_context_service ctx s) req

-- A stream is its context and the rest.
unfoldable pub service_context_stream_server_interceptor :
    {Rest : Type 0} {A : Type 0} → Option Service → Context × Rest → (Context × Rest → A) → A
unfolding set_context_service
service_context_stream_server_interceptor s (ctx, rest) handler =
    handler (set_context_service ctx s, rest)

-- The value of a panic.
pub data Panic : Type 0 where
  error : Cause → Panic
  value : ℕ → Panic

-- `codes.Internal`.
abbrev pub internal_code : ℕ
internal_code = 13

-- The error with which a call whose handler panics ends; `cause_key` is the key of its detail.
unfoldable pub recovery_handler : ℕ → Panic → Error
unfolding wrap new_error with_field with_grpc_code
recovery_handler cause_key (error raw_err) =
    with_grpc_code (wrap raw_err (bytes "panic")) internal_code
recovery_handler cause_key (value p) =
    with_grpc_code (with_field (new_error (bytes "panic")) cause_key p) internal_code
