-- ===== src/Appmgr/Clients.antt =====
-- appmgr/client.go: gRPC clients by name. How a TLS configuration and a client are made is handed in: by
-- Appmgr/Tls.antt and Appmgr/Dial.antt, for the code.
pub mod Conns
use framego.Prelude.{
  ℕ, Bool, true, false, List, [], ◌∷◌, Option, none, some, ◌==◌, if◌then◌else◌, map,
}
use framego.Prelude.Text.{Str, find, put}
use framego.Config.StringMap.{Raw}
use framego.Appmgr.Middleware.{MiddlewareManager, Applier, Applied, panicked, applied}
use framego.Appmgr.Middleware.Builtin.{Env, apply, resolve_path_in_config}

pub record GrpcSecurityConfig : Type 0 where
  pub cert : Str
  pub key : Str
  pub ca : Str

pub record GrpcServerConfig : Type 0 where
  pub name : Str
  pub endpoint : Str
  pub security : GrpcSecurityConfig

unfoldable pub resolve : Env → GrpcSecurityConfig → GrpcSecurityConfig
unfolding resolve_path_in_config
resolve env c = record {
  cert = resolve_path_in_config env c.cert;
  key = resolve_path_in_config env c.key;
  ca = resolve_path_in_config env c.ca;
}

abbrev pub cons_first : ℕ → List Str → List Str
cons_first c [] = (c ∷ []) ∷ []
cons_first c (s ∷ ss) = (c ∷ s) ∷ ss

-- `strings.Split` at the commas.
unfoldable pub split : Str → List Str
split [] = [] ∷ []
split (c ∷ s) = let rest = split s in if c == b',' then [] ∷ rest else cons_first c rest

abbrev pub unless_none : {T A : Type 0} → Option T → Option A → Option A
unless_none none rest = none
unless_none (some t) rest = rest

-- The clients, or `none` for an error; `panics` is the nil service of Apply.
pub data NewManager (C : Type 0) : Type 0 where
  panics : NewManager C
  managed : Option (List (Str × List C)) → NewManager C

module _ {T C : Type 0} (env : Env) (new_tls_config : GrpcSecurityConfig → Option T)
    (new_grpc_client : Str → Str → T → Applier → C) where
  abbrev pub next_clients :
      Applier → GrpcServerConfig → List (Str × List C) → Option T → List (Str × List C)
  next_clients middlewares server m none = m
  next_clients middlewares server m (some tls) =
      put server.name
        (map (λ endpoint. new_grpc_client server.name endpoint tls middlewares)
          (split server.endpoint))
        m

  -- The loop over the servers; `none` is the error of a TLS configuration.
  unfoldable pub add_servers :
      Applier → List (Str × List C) → List GrpcServerConfig → Option (List (Str × List C))
  unfolding resolve split
  add_servers middlewares m [] = some m
  add_servers middlewares m (server ∷ servers) =
      let tls = new_tls_config (resolve env server.security) in
      let rest = add_servers middlewares (next_clients middlewares server m tls) servers in
      unless_none tls rest

  abbrev pub with_applier : List GrpcServerConfig → Applied → NewManager C
  with_applier servers panicked = panics
  with_applier servers (applied middlewares errors) = managed (add_servers middlewares [] servers)

  unfoldable pub new_client_manager :
      MiddlewareManager → List Raw → List GrpcServerConfig → NewManager C
  unfolding add_servers apply
  new_client_manager mm configs servers = with_applier servers (apply env.read mm none configs)

abbrev pub first_conn : {C : Type 0} → Option (List C) → Option C
first_conn none = none
first_conn (some []) = none
first_conn (some (c ∷ cs)) = some c

unfoldable pub get_grpc_client_conn : {C : Type 0} → List (Str × List C) → Str → Option C
get_grpc_client_conn clients name = first_conn (find name clients)

abbrev pub conns_or_nil : {C : Type 0} → Option (List C) → List C
conns_or_nil none = []
conns_or_nil (some cs) = cs

-- A nil slice is an empty one.
unfoldable pub get_grpc_client_conns : {C : Type 0} → List (Str × List C) → Str → List C
get_grpc_client_conns clients name = conns_or_nil (find name clients)
