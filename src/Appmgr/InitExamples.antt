-- ===== src/Appmgr/InitExamples.antt =====
-- Instances for Init and the services: an application with two services and a job, where each constructor
-- gives a number.
use framego.Prelude.{ℕ, ◌≡◌, ◌↔◌, ◌⊎◌, refl, true, false, List, [], ◌∷◌, none, some, arith}
use framego.Prelude.Int.{pos}
use framego.Prelude.Text.{Str, bytes}
use framego.Health.Status.{Status, healthy}
use framego.Appmgr.Middleware.{grpc_server_interceptor, apply_gin}
use framego.Appmgr.Middleware.Builtin.{apply, context_tags_middleware, service_context_middleware}
use framego.Appmgr.Middleware.Collected.{applier_of}
use framego.Appmgr.Clients.{GrpcSecurityConfig, managed}
use framego.Appmgr.Tls.{Files}
use framego.Appmgr.Services.{
  ServiceConfig, ServiceImpl, NewService, serves, new_service, empty_service,
}
use framego.Appmgr.Services.Guarded.{IsChained, new_service-IsChained}
use framego.Appmgr.Services.Runs.{run, Runs, run_iff}
use framego.Appmgr.Serve.{
  gone, ended, Serving, Event, cancels, http_stops, http_shutdown_ends, http_serve_ends, grpc_stops,
  grpc_stop_ends, grpc_serve_starts, grpc_serve_ends, goes, begin, exec_all,
}
use framego.Appmgr.Serve.Waits.{wait_returns}
use framego.Appmgr.Init.{AppConfig, Init, exits, inits, Deps, App, init, get_service, select_job}
use framego.Appmgr.Init.Services.{IsFound, get_service-init, init_job, jobs_in}
use framego.Appmgr.Examples.{env}

abbrev files : Files
files = record {
  load_x509_key_pair = λ cert key. some 1;
  read_file = λ path. some path;
  certs_from_pem = λ text. some 2;
}

abbrev no_security : GrpcSecurityConfig
no_security = record { cert = []; key = []; ca = [] }

abbrev shop : ServiceConfig
shop = record {
  name = bytes "shop";
  grpc_endpoint = bytes ":90";
  http_endpoint = bytes ":80";
  security = no_security;
  middlewares = [];
}

abbrev pages : ServiceConfig
pages = record {
  name = bytes "pages";
  grpc_endpoint = [];
  http_endpoint = bytes ":81";
  security = no_security;
  middlewares = [];
}

abbrev service_of : NewService → ServiceImpl
service_of (serves s) = s
service_of _ = empty_service [] []

abbrev shop_service : ServiceImpl
shop_service = service_of (new_service env files [] shop)

shop_made : new_service env files [] shop ≡ serves shop_service
unfolding new_service grpc_server_interceptor apply_gin context_tags_middleware
    service_context_middleware
shop_made = refl

new_service-IsChained_example :
    IsChained
      (applier_of (apply env.read [] (some (record { get_name = bytes "shop" })) []))
      shop_service
new_service-IsChained_example =
    new_service-IsChained env files [] shop shop_service (λ e. ground (e, arith)) shop_made

abbrev status : Status
status = record { state = healthy; error = none; source = "" }

run_iff_example :
    ((run (λ endpoint. true) status shop_service).1 ≡ none)
    ↔ Runs
        (λ endpoint. true)
        shop_service
        status.state
        shop_service.grpc_server
        shop_service.gin_engine
        (run (λ endpoint. true) status shop_service).0
run_iff_example = run_iff (λ endpoint. true) status shop_service

shop_runs : (run (λ endpoint. true) status shop_service).1 ≡ none
unfolding run new_service grpc_server_interceptor apply_gin
shop_runs = refl

abbrev at_rest : Serving
at_rest = record {
  is_cancelled = true;
  http_serves = false;
  http_stopper = gone;
  grpc_server = ended;
  grpc_stopper = gone;
  wait_group = 0;
}

abbrev events : List Event
events =
    grpc_serve_starts ∷ cancels ∷ http_stops ∷ grpc_stops ∷ http_serve_ends ∷ grpc_stop_ends
    ∷ http_shutdown_ends ∷ grpc_serve_ends ∷ []

shop_rests : exec_all events (begin (run (λ endpoint. true) status shop_service).0) ≡ goes at_rest
unfolding run begin exec_all new_service grpc_server_interceptor apply_gin
shop_rests = refl

shop_waits_not : shop_service.wait_group ≡ 0
unfolding new_service grpc_server_interceptor apply_gin
shop_waits_not = refl

wait_returns_example :
    (gone ≡ gone)
    × (ended ≡ ended)
    × ((true ≡ true) ⊎ ((shop_service.grpc_server ≡ none) × (shop_service.gin_engine ≡ none)))
wait_returns_example =
    wait_returns (λ endpoint. true) status shop_service events at_rest shop_waits_not shop_runs
      shop_rests refl

abbrev app_config : AppConfig ℕ ℕ ℕ
app_config = record {
  name = bytes "app";
  observable_endpoint = bytes ":70";
  modules = [];
  services = shop ∷ pages ∷ [];
  jobs = bytes "clean" ∷ [];
  clients = record { middlewares = []; servers = [] };
  databases = [];
  caches = [];
  pulsars = [];
  id_generator = record { service_id = pos 1; key = bytes "00" };
}

abbrev deps : Str → Deps ℕ ℕ ℕ ℕ ℕ ℕ ℕ ℕ
deps job = record {
  runs_command = true;
  init_config = true;
  app_config = some app_config;
  job = job;
  new_client_manager = λ mm c. managed (some []);
  new_databases = λ cs. some 1;
  new_caches = λ cs. some 2;
  new_pulsars = λ cs. some 3;
  decode_string = λ s. some s;
  new_generator_from_host_name = λ key id. some 4;
  files = files;
}

abbrev TestApp : Type 0
TestApp = App ℕ ℕ ℕ ℕ ℕ ℕ ℕ ℕ ℕ

abbrev app : TestApp
app = record { middlewares = []; jobs = (bytes "sync", 7) ∷ []; parts = none }

abbrev app_of : Init TestApp → TestApp
app_of (inits a) = a
app_of (exits e) = app

app_made : init env (deps []) app ≡ inits (app_of (init env (deps []) app))
unfolding init new_service grpc_server_interceptor apply_gin context_tags_middleware
    service_context_middleware
app_made = refl

get_service-init_example :
    IsFound env files []
      (bytes "pages")
      (select_job [] app_config).services
      (get_service (app_of (init env (deps []) app)) (bytes "pages"))
get_service-init_example =
    get_service-init env (deps []) app (app_of (init env (deps []) app)) (bytes "pages") app_config
      app_made refl

job_made : init env (deps (bytes "sync")) app ≡ inits (app_of (init env (deps (bytes "sync")) app))
unfolding init
job_made = refl

init_job_example :
    (jobs_in (app_of (init env (deps (bytes "sync")) app)).parts ≡ bytes "sync" ∷ [])
    × (get_service (app_of (init env (deps (bytes "sync")) app)) (bytes "shop") ≡ none)
init_job_example =
    init_job env (deps (bytes "sync")) app (app_of (init env (deps (bytes "sync")) app))
      (bytes "shop") (λ e. ground (e, arith)) job_made
