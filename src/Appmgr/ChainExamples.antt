-- ===== src/Appmgr/ChainExamples.antt =====
-- Instances for the chain: a service with access control, recovery and request validation, a policy that
-- allows nothing, and libraries whose interceptors call the handler.
use mathlib.Core.List.{Memᴰ}
use framego.Prelude.{ℕ, ◌≡◌, ◌∙◌, refl, List, [], ◌∷◌, ◌++◌, none, some, false, arith}
use framego.Prelude.Text.{Str, bytes, to_lower, lower}
use framego.Errors.{plain}
use framego.Config.StringMap.{Raw, string, get_string, read_at, regularize_path}
use framego.Ginex.{made}
use framego.Grpcex.Access.{Enforcer, inproc, check_access}
use framego.Grpcex.Validator.{Message, validator, Delivered, delivered}
use framego.Grpcex.Calls.{Call, Handle, Interceptor, returns, panicked}
use framego.Appmgr.Context.{value}
use framego.Appmgr.Middleware.{
  Handler, parsed, parse_middleware_config, grpc_server_interceptor, access_control_unary,
  access_control_stream, recovery_unary, recovery_stream, validator_server_unary,
  validator_server_stream,
}
use framego.Appmgr.Middleware.Builtin.{
  Env, apply, access_control_middleware, access_control_of, resolve_path_in_config,
  new_default_middleware_manager, recovery_middleware, request_validation_middleware,
}
use framego.Appmgr.Middleware.Builtin.Default.{default_access_control}
use framego.Appmgr.Middleware.Builtin.Configured.{
  Enforces, default_recovery, default_request_validation,
}
use framego.Appmgr.Middleware.Collected.{
  own_unary, own_stream, applier_of, grpc_server_interceptor-apply,
}
use framego.Appmgr.Chain.{Library, IsLibrary, recovered, serve_unary, serve_stream}
use framego.Appmgr.Chain.Passes.{IsShut, IsUngranted}
use framego.Appmgr.Chain.Refused.{serve-ungranted, serve_unary-invalid}
use framego.Appmgr.Chain.Calm.{IsQuiet, IsCalm, HasAuth, serve-IsQuiet}
use framego.Appmgr.Examples.{
  read_key, service, env, access_control, options, parsed_options, lower_name,
}

abbrev enforcer : Enforcer
enforcer s method = some false

abbrev strict : Env
strict = record env { new_access_controller = λ model policy. some enforcer }

abbrev run_chain : {A : Type 0} → List (Interceptor A) → Interceptor A
run_chain [] c h = h c
run_chain (i ∷ is) c h = i c (λ d. run_chain is d h)

abbrev plain_library : {A : Type 0} → Library A
plain_library = record {
  interceptor = λ x c h. h c;
  recovers = λ f c h. recovered f (h c).entries (h c).reply;
  chain = run_chain;
}

plain_library-IsLibrary : {A : Type 0} → IsLibrary (plain_library {A = A})
plain_library-IsLibrary = record {
  chain_nil = λ c h. refl;
  chain_cons = λ i is c h. refl;
  recovers_lem = λ f c h. refl;
  passes = λ x c h k agree. agree c ((refl, refl, refl), refl);
}

plain_library-IsCalm : {A : Type 0} → IsCalm (plain_library {A = A})
plain_library-IsCalm x c h quiet = quiet c ((refl, refl, refl), refl)

abbrev configs : List Raw
configs = access_control ∷ string (bytes "Recovery") ∷ string (bytes "request_validation") ∷ []

abbrev unary : List Handler
unary =
    own_unary service
    ++ access_control_unary enforcer ∷ recovery_unary ∷ validator_server_unary ∷ []

abbrev stream : List Handler
stream =
    own_stream service
    ++ access_control_stream enforcer ∷ recovery_stream ∷ validator_server_stream ∷ []

recovery_name : to_lower (bytes "Recovery") ≡ bytes "recovery"
unfolding lower
recovery_name = refl

validation_name : to_lower (bytes "request_validation") ≡ bytes "request_validation"
unfolding lower
validation_name = refl

parsed_recovery :
    parse_middleware_config read_key (string (bytes "Recovery")) ≡ parsed (bytes "Recovery") []
unfolding parse_middleware_config
parsed_recovery = refl

parsed_validation :
    parse_middleware_config read_key (string (bytes "request_validation"))
    ≡ parsed (bytes "request_validation") []
unfolding parse_middleware_config
parsed_validation = refl

all_made :
    grpc_server_interceptor
      (applier_of (apply read_key (new_default_middleware_manager strict) (some service) configs))
    ≡ made (unary, stream)
unfolding grpc_server_interceptor access_control_middleware access_control_of resolve_path_in_config
    get_string read_at regularize_path recovery_middleware request_validation_middleware
all_made =
    grpc_server_interceptor-apply read_key (new_default_middleware_manager strict) service configs
    ∙ (rw
        (
          parsed_options,
          parsed_recovery,
          parsed_validation,
          default_access_control strict (bytes "Access_Control") lower_name,
          default_recovery strict (bytes "Recovery") recovery_name,
          default_request_validation strict (bytes "request_validation") validation_name,
        )
        refl)

enforces :
    Enforces strict service configs access_control
      (bytes "Access_Control")
      options
      unary
      stream
      enforcer
unfolding access_control_middleware access_control_of resolve_path_in_config get_string read_at
    regularize_path
enforces = refl

abbrev number : Str → ℕ
number s = 0

abbrev call : {A : Type 0} → A → Call A
call req = record {
  full_method = bytes "/shop.Shop/Buy";
  peer = some (record { address = bytes "1.2.3.4"; auth_info = some inproc });
  metadata = none;
  uuids = λ n. bytes "id";
  ctx = [];
  req = req;
}

abbrev message : Message
message = validator (λ n. some (plain (bytes "too short"))) 7

abbrev messages : List Delivered
messages = delivered message ∷ []

abbrev panics : {A : Type 0} → Handle A
panics c = returns (panicked (value 5))

call-IsUngranted : {A : Type 0} → (req : A) → IsUngranted enforcer (call req)
unfolding check_access
call-IsUngranted req h = ground (h, arith)

call_auth : {A : Type 0} → (req : A) → HasAuth (call req)
call_auth req e = ground (e, arith)

serve-ungranted_example :
    IsShut (serve_unary number plain_library unary) (call message)
    × IsShut (serve_stream number plain_library stream) (call messages)
serve-ungranted_example =
    serve-ungranted number plain_library plain_library strict service configs access_control
      (bytes "Access_Control") options unary stream enforcer plain_library-IsLibrary
      plain_library-IsLibrary enforces (Memᴰ.head refl, parsed_options, lower_name, all_made)
      (call message) (call messages) (call-IsUngranted message) (call-IsUngranted messages)

serve_unary-invalid_example : IsShut (serve_unary number plain_library unary) (call message)
serve_unary-invalid_example =
    serve_unary-invalid number plain_library plain_library strict service configs
      (string (bytes "request_validation")) (bytes "request_validation") [] unary stream
      plain_library-IsLibrary
      (Memᴰ.tail (Memᴰ.tail (Memᴰ.head refl)), parsed_validation, validation_name, all_made)
      (call message) (λ e. ground (e, arith))

serve-IsQuiet_example :
    IsQuiet (serve_unary number plain_library unary (call message) panics)
    × IsQuiet (serve_stream number plain_library stream (call messages) panics)
serve-IsQuiet_example =
    serve-IsQuiet number plain_library plain_library strict service configs
      (string (bytes "Recovery")) (bytes "Recovery") [] unary stream plain_library-IsLibrary
      plain_library-IsLibrary plain_library-IsCalm plain_library-IsCalm
      (Memᴰ.tail (Memᴰ.head refl), parsed_recovery, recovery_name, all_made) (call message) panics
      (call_auth message) (call messages) panics (call_auth messages)
