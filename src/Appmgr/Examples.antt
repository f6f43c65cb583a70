-- ===== src/Appmgr/Examples.antt =====
-- Instances for the middlewares: a default manager, and a service with three configurations.
use framego.Prelude.{◌≡◌, ◌∙◌, refl, true, List, [], ◌∷◌, ◌++◌, none, some}
use framego.Prelude.Text.{bytes, to_lower, lower, find}
use framego.Config.StringMap.{
  Raw, Reader, StringMap, string, int, map, no_items, item, get_string, read_at, regularize_path,
}
use framego.Prelude.Int.{pos}
use framego.Grpcex.Access.{Enforcer}
use framego.Ginex.{made}
use framego.Appmgr.Middleware.{
  Service, Handler, MiddlewareManager, parsed, parse_middleware_config, grpc_server_interceptor,
  access_control_unary, access_control_stream,
}
use framego.Appmgr.Middleware.Builtin.{
  Env, apply, new_default_middleware_manager, access_control_middleware, access_control_of,
  resolve_path_in_config,
}
use framego.Appmgr.Middleware.Builtin.Default.{default_access_control}
use framego.Appmgr.Middleware.Collected.{
  own_unary, own_stream, applier_of, grpc_server_interceptor-apply,
}

-- Reads the key that follows the root and the dot.
abbrev pub read_key : Reader
read_key m (a ∷ b ∷ key) = find key m
read_key m _ = none

abbrev pub service : Service
service = record { get_name = bytes "shop" }

abbrev enforcer : Enforcer
enforcer s method = some true

abbrev pub env : Env
env = record {
  read = read_key;
  cors_structs = record {
    json_deep_copy = λ m. none;
    validate = λ c. true;
    unmarshal_key = λ p. none;
  };
  compress_structs = record {
    json_deep_copy = λ m. none;
    validate = λ c. true;
    unmarshal_key = λ p. none;
  };
  compiles = λ r. true;
  config_file_used = [];
  join_dir = λ c p. p;
  new_access_controller = λ model policy. some enforcer;
}

abbrev pub access_control : Raw
access_control = map (
    item (bytes "name") (string (bytes "Access_Control"))
      (item (bytes "policy") (string (bytes "p.csv")) no_items))

abbrev pub options : StringMap
options =
    (bytes "name", string (bytes "Access_Control")) ∷ (bytes "policy", string (bytes "p.csv")) ∷ []

pub parsed_options :
    parse_middleware_config read_key access_control ≡ parsed (bytes "Access_Control") options
unfolding parse_middleware_config get_string read_at regularize_path
parsed_options = refl

abbrev manager : MiddlewareManager
manager = new_default_middleware_manager env

abbrev configs : List Raw
configs = string (bytes "recovery") ∷ int (pos 1) ∷ string (bytes "Metrics") ∷ []

abbrev unary : List Handler
unary = own_unary service ++ access_control_unary enforcer ∷ []

abbrev stream : List Handler
stream = own_stream service ++ access_control_stream enforcer ∷ []

pub lower_name : to_lower (bytes "Access_Control") ≡ bytes "access_control"
unfolding lower
lower_name = refl

interceptors_made :
    grpc_server_interceptor
      (applier_of (apply read_key manager (some service) (access_control ∷ [])))
    ≡ made (unary, stream)
unfolding grpc_server_interceptor access_control_middleware access_control_of resolve_path_in_config
    get_string read_at regularize_path
interceptors_made =
    grpc_server_interceptor-apply read_key manager service (access_control ∷ [])
    ∙ (rw (parsed_options, default_access_control env (bytes "Access_Control") lower_name) refl)
