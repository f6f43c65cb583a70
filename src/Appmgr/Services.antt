-- ===== src/Appmgr/Services.antt =====
-- appmgr/service.go, newGrpcServerWithChannel of appmgr/grpc.go and newGinEngin of appmgr/gin.go: the
-- servers of a service. grpchan's handler map is the list of what is registered, in order.
pub mod Guarded
pub mod Runs
use framego.Prelude.{
  ℕ, ◌+◌, Bool, true, false, List, [], ◌∷◌, ◌++◌, Option, none, some, if◌then◌else◌, map,
}
use framego.Prelude.Text.{Str, bytes}
use framego.Config.StringMap.{Raw}
use framego.Ginex.{Made, exits, made}
use framego.Appmgr.Middleware.{
  Service, Handler, MiddlewareManager, Applier, Applied, panicked, applied, grpc_server_interceptor,
  apply_gin, is_middleware_enabled,
}
use framego.Appmgr.Middleware.Builtin.{Env, apply}
use framego.Appmgr.Clients.{GrpcSecurityConfig, resolve}
use framego.Appmgr.Tls.{
  Files, TlsConfig, NewTls, failed as tls_failed, no_tls, configured, new_tls_config, server_creds,
}
use framego.Appmgr.Tls as Tls

pub record ServiceConfig : Type 0 where
  pub name : Str
  pub grpc_endpoint : Str
  pub http_endpoint : Str
  pub security : GrpcSecurityConfig
  pub middlewares : List Raw

-- The network server and the channel in the process, by the interceptors that they are made with.
pub record GrpcServer : Type 0 where
  pub unary : List Handler
  pub stream : List Handler
  pub creds : Option TlsConfig

pub record GrpcChannel : Type 0 where
  pub unary : List Handler
  pub stream : List Handler

-- A gin engine by its handlers, and whether calls without a route go to the HTTP mux of gRPC.
pub record GinEngine : Type 0 where
  pub handlers : List Handler
  pub to_grpc : Bool

pub record ServiceImpl : Type 0 where
  pub name : Str
  pub middlewares : Applier
  pub grpc_endpoint : Str
  pub grpc_server : Option GrpcServer
  pub grpc_channel : Option GrpcChannel
  pub grpc_registrar : Option (List Str)
  pub http_endpoint : Str
  pub gin_engine : Option GinEngine
  pub checks : List Str
  pub wait_group : ℕ

-- A service, the error of its TLS configuration, or the end of the process.
pub data NewService : Type 0 where
  ends : NewService
  failed : Tls.Failure → NewService
  serves : ServiceImpl → NewService

unfoldable pub new_grpc_server_with_channel :
    Option TlsConfig → Applier → Made (GrpcServer × GrpcChannel)
unfolding server_creds
new_grpc_server_with_channel tls middlewares = chained (grpc_server_interceptor middlewares)
  where
    chained : Made (List Handler × List Handler) → Made (GrpcServer × GrpcChannel)
    chained exits = exits
    chained (made (us, ss)) = made (
      record { unary = us; stream = ss; creds = server_creds tls },
      record { unary = us; stream = ss },
    )

unfoldable pub new_gin_engin : Applier → Bool → Made GinEngine
new_gin_engin middlewares to_grpc = with_handlers (apply_gin middlewares)
  where
    with_handlers : Made (List Handler) → Made GinEngine
    with_handlers exits = exits
    with_handlers (made hs) = made (record { handlers = hs; to_grpc = to_grpc })

abbrev pub empty_service : Str → Applier → ServiceImpl
empty_service name middlewares = record {
  name = name;
  middlewares = middlewares;
  grpc_endpoint = [];
  grpc_server = none;
  grpc_channel = none;
  grpc_registrar = none;
  http_endpoint = [];
  gin_engine = none;
  checks = [];
  wait_group = 0;
}

abbrev pub with_server : ServiceImpl → Str → Made (GrpcServer × GrpcChannel) → NewService
with_server s endpoint exits = ends
with_server s endpoint (made (server, channel)) = serves (record s {
  grpc_endpoint = endpoint;
  grpc_server = some server;
  grpc_channel = some channel;
  grpc_registrar = some [];
})

abbrev pub with_tls : ServiceImpl → Str → NewTls → NewService
with_tls s endpoint (tls_failed e) = failed e
with_tls s endpoint no_tls =
    with_server s endpoint (new_grpc_server_with_channel none s.middlewares)
with_tls s endpoint (configured tls) =
    with_server s endpoint (new_grpc_server_with_channel (some tls) s.middlewares)

abbrev pub with_engine : ServiceImpl → Str → Made GinEngine → NewService
with_engine s endpoint exits = ends
with_engine s endpoint (made engine) =
    serves (record s { http_endpoint = endpoint; gin_engine = some engine })

abbrev pub has : {A : Type 0} → Option A → Bool
has none = false
has (some a) = true

-- A service has a gRPC server exactly if it has a gRPC endpoint.
unfoldable pub add_http : Str → NewService → NewService
unfolding new_gin_engin
add_http [] result = result
add_http (c ∷ endpoint) (serves s) =
    with_engine s (c ∷ endpoint) (new_gin_engin s.middlewares (has s.grpc_server))
add_http (c ∷ endpoint) result = result

unfoldable pub add_grpc : Env → Files → GrpcSecurityConfig → Str → ServiceImpl → NewService
unfolding resolve new_tls_config new_grpc_server_with_channel
add_grpc env files security [] s = serves s
add_grpc env files security (c ∷ endpoint) s =
    with_tls s (c ∷ endpoint) (new_tls_config files (resolve env security))

abbrev pub with_applier : Env → Files → ServiceConfig → Applied → NewService
with_applier env files config panicked = ends
with_applier env files config (applied middlewares errors) = add_http config.http_endpoint (
    add_grpc env files config.security config.grpc_endpoint (empty_service config.name middlewares))

unfoldable pub new_service : Env → Files → MiddlewareManager → ServiceConfig → NewService
unfolding apply add_grpc add_http
new_service env files mm config =
    with_applier env files config
      (apply env.read mm (some (record { get_name = config.name })) config.middlewares)

-- RegisterService, for an implementation with a HealthCheck of its own or without.
abbrev pub with_check : Bool → Str → ServiceImpl → ServiceImpl
with_check false name s = s
with_check true name s = record s { checks = s.checks ++ name ∷ [] }

abbrev pub register_in : Option (List Str) → Bool → Str → ServiceImpl → ServiceImpl
register_in none is_checker name s = s
register_in (some names) is_checker name s = record (with_check is_checker name s) {
  grpc_registrar = some (names ++ name ∷ []);
}

unfoldable pub register_service : Bool → Str → ServiceImpl → ServiceImpl
register_service is_checker name s = register_in s.grpc_registrar is_checker name s

unfoldable pub add_health_check : Str → ServiceImpl → ServiceImpl
add_health_check name s = record s { checks = s.checks ++ name ∷ [] }
