-- ===== src/Appmgr/Services/Guarded.antt =====
-- The interceptors of a new service's gRPC server and of its channel in the process.
use framego.Prelude.{◌≡◌, ◌≢◌, refl, subst, List, [], ◌∷◌, Option, none, some}
use framego.Prelude.Text.{Str}
use framego.Ginex.{Made, exits, made}
use framego.Appmgr.Middleware.{
  Handler, MiddlewareManager, Applier, Applied, panicked, applied, grpc_server_interceptor,
}
use framego.Appmgr.Middleware.Builtin.{Env, apply}
use framego.Appmgr.Middleware.Collected.{applier_of}
use framego.Appmgr.Clients.{GrpcSecurityConfig, resolve}
use framego.Appmgr.Tls.{
  Files, TlsConfig, NewTls, failed as tls_failed, no_tls, configured, new_tls_config,
}
use framego.Appmgr.Services.{
  ServiceConfig, GrpcServer, GrpcChannel, GinEngine, ServiceImpl, NewService, ends, failed, serves,
  new_grpc_server_with_channel, new_gin_engin, empty_service, with_server, with_tls, with_engine,
  has, add_http, add_grpc, with_applier, new_service,
}

-- The server and the channel have the interceptors of these middlewares.
abbrev pub IsChained : Applier → ServiceImpl → Type 0
IsChained a s =
    (server : GrpcServer) × (channel : GrpcChannel) × (s.grpc_server ≡ some server)
    × (s.grpc_channel ≡ some channel)
    × (grpc_server_interceptor a ≡ made (server.unary, server.stream))
    × (channel.unary ≡ server.unary)
    × (channel.stream ≡ server.stream)

abbrev IsChainedIf : Applier → NewService → Type 0
IsChainedIf a ends = Unit {0}
IsChainedIf a (failed e) = Unit {0}
IsChainedIf a (serves s) = IsChained a s × (s.middlewares ≡ a)

with_server-IsChainedIf :
    (name endpoint : Str) (a : Applier) (tls : Option TlsConfig)
    → IsChainedIf a
        (with_server (empty_service name a) endpoint (new_grpc_server_with_channel tls a))
unfolding new_grpc_server_with_channel
with_server-IsChainedIf name endpoint a tls = by (grpc_server_interceptor a) refl
  where
    by :
        (x : Made (List Handler × List Handler))
        → grpc_server_interceptor a ≡ x
        → IsChainedIf a
            (with_server (empty_service name a) endpoint (new_grpc_server_with_channel tls a))
    by exits e = rw e tt
    by (made (us, ss)) e = rw e ((_, _, refl, refl, e, refl, refl), refl)

add_http-IsChainedIf :
    (a : Applier) (endpoint : Str) (result : NewService)
    → IsChainedIf a result
    → IsChainedIf a (add_http endpoint result)
unfolding add_http new_gin_engin
add_http-IsChainedIf a [] result h = h
add_http-IsChainedIf a (c ∷ endpoint) ends h = tt
add_http-IsChainedIf a (c ∷ endpoint) (failed e) h = tt
add_http-IsChainedIf a (c ∷ endpoint) (serves s) h =
    by (new_gin_engin s.middlewares (has s.grpc_server))
  where
    by : (x : Made GinEngine) → IsChainedIf a (with_engine s (c ∷ endpoint) x)
    by exits = tt
    by (made engine) = h

add_grpc-IsChainedIf :
    (env : Env) (files : Files) (security : GrpcSecurityConfig) (name endpoint : Str) (a : Applier)
    → endpoint ≢ []
    → IsChainedIf a (add_grpc env files security endpoint (empty_service name a))
unfolding add_grpc
add_grpc-IsChainedIf env files security name [] a h = absurd (h refl)
add_grpc-IsChainedIf env files security name (c ∷ endpoint) a h =
    by (new_tls_config files (resolve env security))
  where
    by : (x : NewTls) → IsChainedIf a (with_tls (empty_service name a) (c ∷ endpoint) x)
    by (tls_failed e) = tt
    by no_tls = with_server-IsChainedIf name (c ∷ endpoint) a none
    by (configured tls) = with_server-IsChainedIf name (c ∷ endpoint) a (some tls)

with_applier-IsChainedIf :
    (env : Env) (files : Files) (config : ServiceConfig) (x : Applied)
    → config.grpc_endpoint ≢ []
    → IsChainedIf (applier_of x) (with_applier env files config x)
with_applier-IsChainedIf env files config panicked h = tt
with_applier-IsChainedIf env files config (applied a errors) h =
    add_http-IsChainedIf a config.http_endpoint
      (add_grpc env files config.security config.grpc_endpoint (empty_service config.name a))
      (add_grpc-IsChainedIf env files config.security config.name config.grpc_endpoint a h)

-- Where a service with a gRPC endpoint is made, its network server and its channel in the process both run the interceptors that Apply collects for its name and its middlewares, none left out on either way.
pub new_service-IsChained :
    (env : Env) (files : Files) (mm : MiddlewareManager) (config : ServiceConfig) (s : ServiceImpl)
    → config.grpc_endpoint ≢ []
    → new_service env files mm config ≡ serves s
    → IsChained
        (applier_of
          (apply env.read mm (some (record { get_name = config.name })) config.middlewares))
        s
unfolding new_service
new_service-IsChained env files mm config s endpoint h =
    let x = apply env.read mm (some (record { get_name = config.name })) config.middlewares in
    (subst (IsChainedIf (applier_of x)) h (with_applier-IsChainedIf env files config x endpoint)).0
