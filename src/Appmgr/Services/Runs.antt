-- ===== src/Appmgr/Services/Runs.antt =====
-- appmgr/service.go Run, with serveGrpcService and serveHttpService of appmgr/serve.go up to where they
-- return. `listens` is whether `net.Listen` succeeds at an endpoint.
use framego.Prelude.{
  ℕ, ◌+◌, ◌≡◌, ◌↔◌, refl, Bool, true, false, List, [], ◌∷◌, ◌++◌, Option, none, some, if◌then◌else◌,
  arith, Bool-cases, inl, inr,
}
use framego.Prelude.Text.{Str, bytes}
use framego.Health.Status.{Status, State, unknown, healthy, unhealthy}
use framego.Appmgr.Middleware.{is_middleware_enabled}
use framego.Appmgr.Services.{ServiceImpl, GrpcServer, GinEngine, has}

pub data Failure : Type 0 where
  init_health_check_failed : Status → Failure
  grpc_server_listen_error : Str → Failure
  http_server_listen_error : Str → Failure

-- What runs: the service, what its gRPC server and its channel serve, and where.
pub record Running : Type 0 where
  pub impl : ServiceImpl
  pub grpc_services : List Str
  pub channel_services : List Str
  pub has_metrics : Bool
  pub grpc_at : Option Str
  pub http_at : Option Str
  pub gateway_of_health : Bool

-- `registered` is what the registrar has.
abbrev pub registered : Option (List Str) → List Str
registered none = []
registered (some names) = names

-- What Run registers itself, by the package that does it.
abbrev pub own_services : List Str
own_services = bytes "health" ∷ bytes "channelz" ∷ bytes "reflection" ∷ []

abbrev pub idle : ServiceImpl → Running
idle s = record {
  impl = s;
  grpc_services = [];
  channel_services = [];
  has_metrics = false;
  grpc_at = none;
  http_at = none;
  gateway_of_health = false;
}

abbrev pub one_more : ServiceImpl → ServiceImpl
one_more s = record s { wait_group = s.wait_group + 1 }

abbrev pub count_of : {A : Type 0} → Option A → ℕ
count_of none = 0
count_of (some a) = 1

abbrev pub at_of : {A : Type 0} → Option A → Str → Option Str
at_of none endpoint = none
at_of (some server) endpoint = some endpoint

abbrev pub names_of : ServiceImpl → Option GrpcServer → List Str
names_of s none = []
names_of s (some server) = registered s.grpc_registrar ++ own_services

module _ (listens : Str → Bool) where
  -- `serveGrpcService`; on an error the wait group keeps what was added.
  unfoldable pub serve_grpc_service : Running → Running × Option Failure
  serve_grpc_service r =
      let endpoint = r.impl.grpc_endpoint in
      if listens endpoint
      then (record r { grpc_at = some endpoint }, none)
      else (r, some (grpc_server_listen_error endpoint))

  unfoldable pub serve_http_service : Running → Running × Option Failure
  serve_http_service r =
      let endpoint = r.impl.http_endpoint in
      if listens endpoint
      then (record r { http_at = some endpoint }, none)
      else (r, some (http_server_listen_error endpoint))

  abbrev pub run_grpc : ServiceImpl → Option GrpcServer → Running × Option Failure
  run_grpc s none = (idle s, none)
  run_grpc s (some server) =
      let names = registered s.grpc_registrar ++ own_services in
      serve_grpc_service (record (idle (one_more (record s { grpc_registrar = some names }))) {
        grpc_services = names;
        channel_services = if has s.grpc_channel then names else [];
        has_metrics = is_middleware_enabled s.middlewares (bytes "metrics");
      })

  abbrev pub run_http : Option GinEngine → Running × Option Failure → Running × Option Failure
  run_http none result = result
  run_http (some engine) (r, some e) = (r, some e)
  run_http (some engine) (r, none) =
      serve_http_service
        (record r { impl = one_more r.impl; gateway_of_health = has r.impl.grpc_server })

  abbrev pub run_if_healthy :
      Status → ServiceImpl → State → Running × Option Failure → Running × Option Failure
  run_if_healthy status s healthy result = result
  run_if_healthy status s _ result = (idle s, some (init_health_check_failed status))

  -- `status` is what the health runner's Start gives.
  unfoldable pub run : Status → ServiceImpl → Running × Option Failure
  unfolding serve_grpc_service serve_http_service is_middleware_enabled
  run status s =
      run_if_healthy status s status.state (run_http s.gin_engine (run_grpc s s.grpc_server))

  -- Its endpoint listens, if the service has such a server.
  abbrev pub Listens : {A : Type 0} → Option A → Str → Type 0
  Listens none endpoint = Unit {0}
  Listens (some server) endpoint = listens endpoint ≡ true

  -- What a service that runs serves.
  abbrev pub IsServing : ServiceImpl → Option GrpcServer → Option GinEngine → Running → Type 0
  IsServing s g h r =
      (r.impl.wait_group ≡ s.wait_group + count_of g + count_of h)
      × (r.grpc_at ≡ at_of g s.grpc_endpoint)
      × (r.http_at ≡ at_of h s.http_endpoint)
      × (r.grpc_services ≡ names_of s g)

  abbrev pub Runs : ServiceImpl → State → Option GrpcServer → Option GinEngine → Running → Type 0
  Runs s x g h r =
      (x ≡ healthy) × Listens g s.grpc_endpoint × Listens h s.http_endpoint × IsServing s g h r

  -- Run gives no error exactly if the first health check is healthy and each endpoint for which the service has a server listens; then these are served, the gRPC server with what was registered and the health, channelz and reflection services, and the wait group counts one more for each.
  pub run_iff :
      (status : Status) (s : ServiceImpl)
      → ((run status s).1 ≡ none) ↔ Runs s status.state s.grpc_server s.gin_engine (run status s).0
  unfolding run serve_grpc_service serve_http_service
  run_iff status s = by status.state s.grpc_server s.gin_engine
    where
      by :
          (x : State) (g : Option GrpcServer) (h : Option GinEngine)
          → ((run_if_healthy status s x (run_http h (run_grpc s g))).1 ≡ none)
            ↔ Runs s x g h (run_if_healthy status s x (run_http h (run_grpc s g))).0
      by healthy none none = (λ e. (refl, tt, tt, (ground arith, refl, refl, refl)), λ k. refl)
      by healthy none (some h) = elim (Bool-cases (listens s.http_endpoint)) [
        | inl t ↦ rw t (λ e. (refl, tt, refl, (ground arith, refl, refl, refl)), λ k. refl)
        | inr f ↦ rw f (λ e. absurd (ground (e, arith)), λ k. absurd (ground (k.2, arith)))
      ]
      by healthy (some g) none = elim (Bool-cases (listens s.grpc_endpoint)) [
        | inl t ↦ rw t (λ e. (refl, refl, tt, (ground arith, refl, refl, refl)), λ k. refl)
        | inr f ↦ rw f (λ e. absurd (ground (e, arith)), λ k. absurd (ground (k.1, arith)))
      ]
      by healthy (some g) (some h) = elim (Bool-cases (listens s.grpc_endpoint)) [
        | inr f ↦ rw f (λ e. absurd (ground (e, arith)), λ k. absurd (ground (k.1, arith)))
        | inl t ↦ rw t (elim (Bool-cases (listens s.http_endpoint)) [
          | inl t' ↦ rw t' (λ e. (refl, refl, refl, (ground arith, refl, refl, refl)), λ k. refl)
          | inr f ↦ rw f (λ e. absurd (ground (e, arith)), λ k. absurd (ground (k.2, arith)))
        ])
      ]
      by unknown g h = (λ e. absurd (ground (e, arith)), λ k. absurd (ground (k.0, arith)))
      by unhealthy g h = (λ e. absurd (ground (e, arith)), λ k. absurd (ground (k.0, arith)))
