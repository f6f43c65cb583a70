-- ===== src/Appmgr/Context/Seen.antt =====
-- What a handler sees of its service, and what a client sees of a panic.
use framego.Prelude.{ℕ, ◌≡◌, refl, Option, none, some, if◌then◌else◌}
use framego.Prelude.Text.{Str, bytes, find, find-put, is_same}
use framego.Appmgr.Middleware.{Service}
use framego.Appmgr.Context.{
  Context, context_service_key, as_service, to_value, get_context_service, set_context_service,
  set_gin_context_service, service_context_unary_server_interceptor, Panic, error, value,
  recovery_handler,
}
use framego.Errors.{Env, wrap, new_error, with_field, grpc_status_of}
use framego.Errors.Codes.{KeepsCodes, code_of, with_grpc_code_answers}

as_service-to_value : (s : Option Service) → as_service (some (to_value s)) ≡ s
as_service-to_value none = refl
as_service-to_value (some s) = refl

-- A handler behind the service context's interceptor, or behind its gin handler, finds the service, and every other key leads to what it led to before.
pub get_context_service-set :
    (ctx : Context) (s : Option Service) (key : Str)
    → (service_context_unary_server_interceptor s ctx key (λ c k. get_context_service c) ≡ s)
      × (get_context_service (set_gin_context_service ctx s) ≡ s)
      × (find key (set_context_service ctx s)
          ≡ (if is_same context_service_key key then some (to_value s) else find key ctx))
      × (find key (set_gin_context_service ctx s)
          ≡ (if is_same context_service_key key then some (to_value s) else find key ctx))
unfolding service_context_unary_server_interceptor get_context_service set_context_service
    set_gin_context_service
get_context_service-set ctx s key = (
  as_service-to_value s,
  rw (find-put context_service_key context_service_key (to_value s) ctx) (as_service-to_value s),
  refl,
  find-put key context_service_key (to_value s) ctx,
)

-- A panic of a handler reaches the client with the code `Internal`, whatever code the value of the panic carries; condition: `WithDetails` keeps the code of a status.
pub recovery_handler_code :
    (env : Env) (cause_key : ℕ) (p : Panic)
    → KeepsCodes env
    → code_of (grpc_status_of env (recovery_handler cause_key p)) ≡ some 13
unfolding recovery_handler
recovery_handler_code env cause_key (error raw) keeps =
    with_grpc_code_answers env (wrap raw (bytes "panic")) 13 keeps
recovery_handler_code env cause_key (value p) keeps =
    with_grpc_code_answers env (with_field (new_error (bytes "panic")) cause_key p) 13 keeps
