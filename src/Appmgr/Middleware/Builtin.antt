-- ===== src/Appmgr/Middleware/Builtin.antt =====
-- The middlewares of appmgr/middleware.go, resolvePathInConfig, the default manager, and Apply.
pub mod Configured
pub mod Default
use framego.Prelude.{
  ℕ, Bool, true, false, ◌||◌, ◌+◌, List, [], ◌∷◌, ◌++◌, Option, none, some, if◌then◌else◌,
}
use framego.Prelude.Text.{Str, bytes, has_prefix}
use framego.Config.StringMap.{Raw, Reader, StringMap, Structs, Result, ok, err, get_string}
use framego.Ginex.{
  Made, exits, made, CorsConfig, CompressConfig, CompressOption, cors_middleware,
  compress_middleware,
}
use framego.Grpcex.Access.{Enforcer}
use framego.Appmgr.Middleware.{
  Service, Handler, Interceptors, Middleware, MiddlewareManager, Applier, Applied,
  register_middleware, add_middleware, add_configs, ctxtags_unary, ctxtags_stream,
  service_context_gin, service_context_unary, service_context_stream, context_logger_gin,
  context_logger_unary, context_logger_stream, log_request_gin, log_request_unary,
  log_request_stream, prometheus_gin, prometheus_server_unary, prometheus_server_stream,
  prometheus_client_unary, prometheus_client_stream, recovery_gin, recovery_unary, recovery_stream,
  validator_server_unary, validator_server_stream, validator_client_unary, cors, compress,
  access_control_unary, access_control_stream,
}

-- What the middlewares depend on: jsonpath, the decoding of options, `regexp.Compile`, the path of
-- the configuration file, `path.Join` of its directory with a path, and NewAccessController.
pub record Env : Type 0 where
  pub read : Reader
  pub cors_structs : Structs CorsConfig
  pub compress_structs : Structs CompressConfig
  pub compiles : Str → Bool
  pub config_file_used : Str
  pub join_dir : Str → Str → Str
  pub new_access_controller : Str → Str → Option Enforcer

abbrev pub no_gin : StringMap → Made (Option Handler)
no_gin options = made none

abbrev pub no_interceptors : StringMap → Made Interceptors
no_interceptors options = made (none, none)

abbrev pub interceptors : Handler → Handler → StringMap → Made Interceptors
interceptors unary stream options = made (some unary, some stream)

unfoldable pub context_tags_middleware : Middleware
context_tags_middleware = record {
  gin_handler = no_gin;
  grpc_server_interceptor = interceptors ctxtags_unary ctxtags_stream;
  grpc_client_interceptor = no_interceptors;
}

unfoldable pub service_context_middleware : Service → Middleware
service_context_middleware s = record {
  gin_handler = λ options. made (some (service_context_gin s));
  grpc_server_interceptor = interceptors (service_context_unary s) (service_context_stream s);
  grpc_client_interceptor = no_interceptors;
}

unfoldable pub context_logger_middleware : Middleware
context_logger_middleware = record {
  gin_handler = λ options. made (some context_logger_gin);
  grpc_server_interceptor = interceptors context_logger_unary context_logger_stream;
  grpc_client_interceptor = no_interceptors;
}

unfoldable pub log_request_middleware : Middleware
log_request_middleware = record {
  gin_handler = λ options. made (some log_request_gin);
  grpc_server_interceptor = interceptors log_request_unary log_request_stream;
  grpc_client_interceptor = no_interceptors;
}

unfoldable pub metrics_middleware : Middleware
metrics_middleware = record {
  gin_handler = λ options. made (some prometheus_gin);
  grpc_server_interceptor = interceptors prometheus_server_unary prometheus_server_stream;
  grpc_client_interceptor = interceptors prometheus_client_unary prometheus_client_stream;
}

unfoldable pub open_tracing_middleware : Middleware
open_tracing_middleware = record {
  gin_handler = no_gin;
  grpc_server_interceptor = no_interceptors;
  grpc_client_interceptor = no_interceptors;
}

unfoldable pub recovery_middleware : Middleware
recovery_middleware = record {
  gin_handler = λ options. made (some recovery_gin);
  grpc_server_interceptor = interceptors recovery_unary recovery_stream;
  grpc_client_interceptor = no_interceptors;
}

unfoldable pub request_validation_middleware : Middleware
request_validation_middleware = record {
  gin_handler = no_gin;
  grpc_server_interceptor = interceptors validator_server_unary validator_server_stream;
  grpc_client_interceptor = λ options. made (some validator_client_unary, none);
}

abbrev pub gin_made {ℓ} : {A : Type ℓ} → (A → Handler) → Made A → Made (Option Handler)
gin_made h exits = exits
gin_made h (made c) = made (some (h c))

abbrev pub or_empty : Result Str → Str
or_empty (ok s) = s
or_empty (err e) = []

abbrev pub joined_unless : Bool → Env → Str → Str
joined_unless true env file_path = file_path
joined_unless false env file_path = env.join_dir env.config_file_used file_path

abbrev pub is_empty : Str → Bool
is_empty [] = true
is_empty (c ∷ s) = false

unfoldable pub resolve_path_in_config : Env → Str → Str
resolve_path_in_config env file_path =
    joined_unless
      ((is_empty file_path || has_prefix file_path (bytes "/")) || is_empty env.config_file_used)
      env file_path

abbrev pub controlled : Option Enforcer → Made Interceptors
controlled none = exits
controlled (some e) = made (some (access_control_unary e), some (access_control_stream e))

unfoldable pub access_control_of : Env → Str → Str → Made Interceptors
unfolding resolve_path_in_config
access_control_of env model [] = exits
access_control_of env model (c ∷ policy) =
    let model_file = if is_empty model then model else resolve_path_in_config env model in
    controlled (env.new_access_controller model_file (resolve_path_in_config env (c ∷ policy)))

unfoldable pub service_applier : Option Service → Applier
unfolding add_middleware context_tags_middleware service_context_middleware
service_applier none = add_middleware [] [] (some context_tags_middleware) []
service_applier (some s) =
    let ma = add_middleware [] [] (some context_tags_middleware) [] in
    add_middleware ma [] (some (service_context_middleware s)) []

unfoldable pub apply : Reader → MiddlewareManager → Option Service → List Raw → Applied
unfolding add_configs service_applier
apply read m service configs = add_configs read m service (service_applier service) 0 configs

module _ (env : Env) where
  unfoldable pub cors_of : Middleware
  unfolding cors_middleware
  cors_of = record {
    gin_handler = λ options. gin_made cors (cors_middleware env.cors_structs options);
    grpc_server_interceptor = no_interceptors;
    grpc_client_interceptor = no_interceptors;
  }

  unfoldable pub compress_of : Middleware
  unfolding compress_middleware
  compress_of = record {
    gin_handler = λ options.
        gin_made compress (compress_middleware env.compress_structs env.compiles options);
    grpc_server_interceptor = no_interceptors;
    grpc_client_interceptor = no_interceptors;
  }

  unfoldable pub access_control_middleware : Middleware
  unfolding access_control_of get_string
  access_control_middleware = record {
    gin_handler = no_gin;
    grpc_server_interceptor = λ options.
        access_control_of env (or_empty (get_string env.read options (bytes "model")))
          (or_empty (get_string env.read options (bytes "policy")));
    grpc_client_interceptor = no_interceptors;
  }

  -- The registrations before the last.
  unfoldable pub before_access_control : MiddlewareManager
  unfolding register_middleware context_logger_middleware log_request_middleware metrics_middleware
      open_tracing_middleware recovery_middleware request_validation_middleware cors_of compress_of
  before_access_control =
      let m = register_middleware [] (bytes "context_logger") (some context_logger_middleware) in
      let m = register_middleware m (bytes "log_request") (some log_request_middleware) in
      let m = register_middleware m (bytes "metrics") (some metrics_middleware) in
      let m = register_middleware m (bytes "open_tracing") (some open_tracing_middleware) in
      let m = register_middleware m (bytes "recovery") (some recovery_middleware) in
      let m =
        register_middleware m (bytes "request_validation") (some request_validation_middleware) in
      let m = register_middleware m (bytes "cors") (some cors_of) in
      register_middleware m (bytes "compress") (some compress_of)

  unfoldable pub new_default_middleware_manager : MiddlewareManager
  unfolding register_middleware before_access_control access_control_middleware
  new_default_middleware_manager =
      register_middleware before_access_control (bytes "access_control")
        (some access_control_middleware)
