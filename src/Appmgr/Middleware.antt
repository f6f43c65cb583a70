-- ===== src/Appmgr/Middleware.antt =====
-- appmgr/middleware.go and parseMiddlewareConfig of appmgr/config.go: the manager, which has the
-- middlewares by name, and the applier, which collects their handlers. Names are ASCII texts.
pub mod Builtin
pub mod Collected
pub mod Enabled
pub mod Named
pub mod NoService
use framego.Prelude.{
  ℕ, Bool, true, false, ◌||◌, ◌+◌, List, [], ◌∷◌, ◌++◌, Option, none, some, if◌then◌else◌,
}
use framego.Prelude.Text.{Str, bytes, is_same, to_lower, find, put}
use framego.Config.StringMap.{
  Raw, Reader, StringMap, Result, ok, err, string, int, int64, bool, map, list, other,
  to_string_map, get_string,
}
use framego.Ginex.{Made, exits, made, CorsConfig, CompressOption}
use framego.Grpcex.Access.{Enforcer}

pub record Service : Type 0 where
  pub get_name : Str

-- A handler or an interceptor, by the call that makes it; `custom` is one of the application's own.
pub data Handler : Type 0 where
  ctxtags_unary ctxtags_stream : Handler
  service_context_gin service_context_unary service_context_stream : Service → Handler
  context_logger_gin context_logger_unary context_logger_stream : Handler
  log_request_gin log_request_unary log_request_stream : Handler
  prometheus_gin prometheus_server_unary prometheus_server_stream : Handler
  prometheus_client_unary prometheus_client_stream : Handler
  recovery_gin recovery_unary recovery_stream : Handler
  validator_server_unary validator_server_stream validator_client_unary : Handler
  cors : CorsConfig → Handler
  compress : List CompressOption → Handler
  access_control_unary access_control_stream : Enforcer → Handler
  custom : ℕ → Handler

-- A unary and a stream interceptor, each perhaps nil.
abbrev pub Interceptors : Type 0
Interceptors = Option Handler × Option Handler

-- A nil map of options is an empty one.
pub record Middleware : Type 0 where
  pub gin_handler : StringMap → Made (Option Handler)
  pub grpc_server_interceptor : StringMap → Made Interceptors
  pub grpc_client_interceptor : StringMap → Made Interceptors

-- A middleware may be registered as nil.
abbrev pub MiddlewareManager : Type 0
MiddlewareManager = List (Str × Option Middleware)

unfoldable pub register_middleware : MiddlewareManager → Str → Option Middleware → MiddlewareManager
register_middleware m name middleware = put (to_lower name) middleware m

abbrev pub or_nil : Option (Option Middleware) → Option Middleware
or_nil none = none
or_nil (some middleware) = middleware

unfoldable pub get_middleware : MiddlewareManager → Str → Option Middleware
get_middleware m name = or_nil (find (to_lower name) m)

pub record MiddlewareConstructor : Type 0 where
  pub name : Str
  pub m : Option Middleware
  pub options : StringMap

abbrev pub Applier : Type 0
Applier = List MiddlewareConstructor

unfoldable pub add_middleware : Applier → Str → Option Middleware → StringMap → Applier
add_middleware a name middleware options =
    a ++ (record { name = name; m = middleware; options = options }) ∷ []

pub data Failure : Type 0 where
  unknown_type missed_name unknown_middleware_name : Failure

pub data Parsed : Type 0 where
  failed : Failure → Parsed
  parsed : Str → StringMap → Parsed

abbrev pub named : StringMap → Result Str → Parsed
named options (ok name) = parsed name options
named options (err e) = failed missed_name

unfoldable pub parse_middleware_config : Reader → Raw → Parsed
unfolding get_string
parse_middleware_config read (string name) = parsed name []
parse_middleware_config read (map items) =
    let options = to_string_map items in named options (get_string read options (bytes "name"))
parse_middleware_config read _ = failed unknown_type

pub data Added : Type 0 where
  refused : Failure → Added
  added : Applier → Added

unfoldable pub add_found : Applier → Str → StringMap → Option Middleware → Added
unfolding add_middleware
add_found a name options none = refused unknown_middleware_name
add_found a name options (some middleware) =
    added (add_middleware a (to_lower name) (some middleware) options)

unfoldable pub add_parsed : MiddlewareManager → Applier → Parsed → Added
unfolding get_middleware add_found
add_parsed mm a (failed e) = refused e
add_parsed mm a (parsed name options) = add_found a name options (get_middleware mm name)

unfoldable pub add_middleware_by_config : Reader → MiddlewareManager → Applier → Raw → Added
unfolding parse_middleware_config add_parsed
add_middleware_by_config read mm a config = add_parsed mm a (parse_middleware_config read config)

abbrev pub is_enabled : Applier → Str → Bool
is_enabled [] name = false
is_enabled (mc ∷ a) name = is_same mc.name name || is_enabled a name

unfoldable pub is_middleware_enabled : Applier → Str → Bool
is_middleware_enabled a [] = false
is_middleware_enabled a (c ∷ name) = is_enabled a (to_lower (c ∷ name))

-- The applier and the errors that are logged, each with the index of its configuration.
pub data Applied : Type 0 where
  panicked : Applied
  applied : Applier → List (ℕ × Failure) → Applied

abbrev pub next_applier : Applier → Added → Applier
next_applier a (refused e) = a
next_applier a (added a') = a'

abbrev pub with_logged : ℕ × Failure → Applied → Applied
with_logged e panicked = panicked
with_logged e (applied a errors) = applied a (e ∷ errors)

-- The error is logged with the name of the service; `GetName` of a nil service panics.
abbrev pub logged : Option Service → ℕ → Added → Applied → Applied
logged service i (added a) rest = rest
logged none i (refused e) rest = panicked
logged (some s) i (refused e) rest = with_logged (i, e) rest

unfoldable pub add_configs :
    Reader → MiddlewareManager → Option Service → Applier → ℕ → List Raw → Applied
unfolding add_middleware_by_config
add_configs read mm service a i [] = applied a []
add_configs read mm service a i (config ∷ configs) =
    let result = add_middleware_by_config read mm a config in
    let rest = add_configs read mm service (next_applier a result) (i + 1) configs in
    logged service i result rest

abbrev pub join_handler : Made (Option Handler) → Made (List Handler) → Made (List Handler)
join_handler exits rest = exits
join_handler (made h) exits = exits
join_handler (made none) (made hs) = made hs
join_handler (made (some h)) (made hs) = made (h ∷ hs)

abbrev pub gin_step : Option Middleware → StringMap → Made (List Handler) → Made (List Handler)
gin_step none options rest = rest
gin_step (some middleware) options rest = join_handler (middleware.gin_handler options) rest

-- The handlers in the order in which `routes.Use` is called.
unfoldable pub apply_gin : Applier → Made (List Handler)
apply_gin [] = made []
apply_gin (mc ∷ a) = gin_step mc.m mc.options (apply_gin a)

abbrev pub cons_some : Option Handler → List Handler → List Handler
cons_some none hs = hs
cons_some (some h) hs = h ∷ hs

abbrev pub join_interceptors :
    Made Interceptors → Made (List Handler × List Handler) → Made (List Handler × List Handler)
join_interceptors exits rest = exits
join_interceptors (made is) exits = exits
join_interceptors (made (u, s)) (made (us, ss)) = made (cons_some u us, cons_some s ss)

abbrev pub server_step :
    Option Middleware
    → StringMap
    → Made (List Handler × List Handler)
    → Made (List Handler × List Handler)
server_step none options rest = rest
server_step (some middleware) options rest =
    join_interceptors (middleware.grpc_server_interceptor options) rest

-- The unary and the stream interceptors with which the two chains are made.
unfoldable pub grpc_server_interceptor : Applier → Made (List Handler × List Handler)
grpc_server_interceptor [] = made ([], [])
grpc_server_interceptor (mc ∷ a) = server_step mc.m mc.options (grpc_server_interceptor a)

abbrev pub client_step :
    Option Middleware
    → StringMap
    → Made (List Handler × List Handler)
    → Made (List Handler × List Handler)
client_step none options rest = rest
client_step (some middleware) options rest =
    join_interceptors (middleware.grpc_client_interceptor options) rest

unfoldable pub grpc_client_interceptor : Applier → Made (List Handler × List Handler)
grpc_client_interceptor [] = made ([], [])
grpc_client_interceptor (mc ∷ a) = client_step mc.m mc.options (grpc_client_interceptor a)
