-- ===== src/Appmgr/Dial.antt =====
-- newGrpcClient of appmgr/grpc.go, and the clients of appmgr/client.go made with it. `grpc.Dial` is a
-- parameter: what it gives for an endpoint, the credentials and the two chains, `none` for its error.
use framego.Prelude.{List, Option, none, some}
use framego.Prelude.Text.{Str}
use framego.Config.StringMap.{Raw}
use framego.Ginex.{Made, exits, made}
use framego.Appmgr.Middleware.{Handler, MiddlewareManager, Applier, grpc_client_interceptor}
use framego.Appmgr.Middleware.Builtin.{Env}
use framego.Appmgr.Clients.{GrpcServerConfig, NewManager, new_client_manager}
use framego.Appmgr.Tls.{
  Files, TlsConfig, NewTls, failed, no_tls, configured, new_tls_config, client_creds,
}

abbrev pub Dialer : Type 0 → Type 0
Dialer Conn = Str → Option TlsConfig → List Handler → List Handler → Option Conn

abbrev pub dial_with :
    {Conn : Type 0}
    → Dialer Conn
    → Str
    → Option TlsConfig
    → Made (List Handler × List Handler)
    → Made (Option Conn)
dial_with dial endpoint creds exits = exits
dial_with dial endpoint creds (made (us, ss)) = made (dial endpoint creds us ss)

-- A nil client is `none`.
unfoldable pub new_grpc_client :
    {Conn : Type 0} → Dialer Conn → Str → Str → Option TlsConfig → Applier → Made (Option Conn)
unfolding client_creds grpc_client_interceptor
new_grpc_client dial name endpoint tls middlewares =
    dial_with dial endpoint (client_creds name tls) (grpc_client_interceptor middlewares)

-- The TLS configuration of newClientManager, unless it is an error.
abbrev pub without_error : NewTls → Option (Option TlsConfig)
without_error (failed e) = none
without_error no_tls = some none
without_error (configured tls) = some (some tls)

unfoldable pub dial_clients :
    {Conn : Type 0}
    → Env
    → Files
    → Dialer Conn
    → MiddlewareManager
    → List Raw
    → List GrpcServerConfig
    → NewManager (Made (Option Conn))
unfolding new_client_manager new_tls_config new_grpc_client
dial_clients env files dial mm configs servers =
    new_client_manager env (λ c. without_error (new_tls_config files c)) (new_grpc_client dial) mm
      configs servers
