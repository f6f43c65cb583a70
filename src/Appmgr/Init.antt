-- ===== src/Appmgr/Init.antt =====
-- appmgr/app.go: NewApp, Init, and what an application is asked for. What cobra, viper and the
-- constructors of the other packages answer is a parameter; each constructor that is under the repository
-- is modelled in its own file and is handed in with its parameters.
pub mod Inited
pub mod Services
use framego.Prelude.{ℕ, Bool, true, false, List, [], ◌∷◌, Option, none, some, if◌then◌else◌}
use framego.Prelude.Int.{ℤ}
use framego.Prelude.Text.{Str, bytes, find, put}
use framego.Config.StringMap.{Raw}
use framego.Appmgr.Middleware.{Service, Middleware, MiddlewareManager, register_middleware}
use framego.Appmgr.Middleware.Builtin.{Env, new_default_middleware_manager}
use framego.Appmgr.Clients.{GrpcServerConfig, NewManager, managed, panics}
use framego.Appmgr.Tls as Tls
use framego.Appmgr.Tls.{Files}
use framego.Appmgr.Services.{
  ServiceConfig, ServiceImpl, NewService, ends, failed, serves, new_service,
}

pub record IdGeneratorConfig : Type 0 where
  pub service_id : ℤ
  pub key : Str

pub record ClientsConfig : Type 0 where
  pub middlewares : List Raw
  pub servers : List GrpcServerConfig

-- `observable` is what is left of it: the endpoint and the modules.
pub record AppConfig (Database Cache Pulsar : Type 0) : Type 0 where
  pub name : Str
  pub observable_endpoint : Str
  pub modules : List Str
  pub services : List ServiceConfig
  pub jobs : List Str
  pub clients : ClientsConfig
  pub databases : List Database
  pub caches : List Cache
  pub pulsars : List Pulsar
  pub id_generator : IdGeneratorConfig

-- The steps at which Init ends the process.
pub data Exit : Type 0 where
  no_run : Exit
  init_config_error parse_app_config_error init_clients_error init_databases_error
        init_caches_error :
      Exit
  init_pulsars_error parse_id_encrypt_key_error init_id_generator_error fatal : Exit
  nil_service_panic : Exit
  init_service_error : Str → Tls.Failure → Exit

pub data Init {ℓ} (A : Type ℓ) : Type ℓ where
  exits : Exit → Init A
  inits : A → Init A

-- A step, and what follows it.
abbrev pub and_then {ℓ κ} : {A : Type ℓ} {B : Type κ} → Init A → (A → Init B) → Init B
and_then (exits e) k = exits e
and_then (inits a) k = k a

abbrev pub or_exit : {A : Type 0} → Exit → Option A → Init A
or_exit e none = exits e
or_exit e (some a) = inits a

abbrev pub unless_set : Exit → Bool → Init (Unit {0})
unless_set e true = inits tt
unless_set e false = exits e

-- The managers of clients `C`, of databases `M`, of caches `K` and of pulsars `P`, and a generator `G`.
pub record Deps (Database Cache Pulsar C M K P G : Type 0) : Type 0 where
  pub runs_command : Bool
  pub init_config : Bool
  pub app_config : Option (AppConfig Database Cache Pulsar)
  pub job : Str
  pub new_client_manager : MiddlewareManager → ClientsConfig → NewManager C
  pub new_databases : List Database → Option M
  pub new_caches : List Cache → Option K
  pub new_pulsars : List Pulsar → Option P
  pub decode_string : Str → Option Str
  pub new_generator_from_host_name : Str → ℤ → Option G
  pub files : Files

-- What Init makes of the configuration.
pub record Parts (Database Cache Pulsar C M K P G : Type 0) : Type 0 where
  pub config : AppConfig Database Cache Pulsar
  pub clients : List (Str × List C)
  pub databases : M
  pub caches : K
  pub pulsars : P
  pub id_generator : Option G
  pub services : List (Str × ServiceImpl)

-- An application: what is registered before Init, and what Init makes.
pub record App (Job Database Cache Pulsar C M K P G : Type 0) : Type 0 where
  pub middlewares : MiddlewareManager
  pub jobs : List (Str × Job)
  pub parts : Option (Parts Database Cache Pulsar C M K P G)

module _ {Database Cache Pulsar : Type 0} where
  -- A job of the command line is the only one that runs, and no service does.
  unfoldable pub select_job :
      Str → AppConfig Database Cache Pulsar → AppConfig Database Cache Pulsar
  select_job [] config = config
  select_job (c ∷ job) config = record config { jobs = (c ∷ job) ∷ []; services = [] }

abbrev pub next_service :
    Str
    → NewService
    → List (Str × ServiceImpl)
    → (List (Str × ServiceImpl) → Init (List (Str × ServiceImpl)))
    → Init (List (Str × ServiceImpl))
next_service name ends m rest = exits fatal
next_service name (failed e) m rest = exits (init_service_error name e)
next_service name (serves s) m rest = rest (put name s m)

unfoldable pub init_services :
    Env
    → Files
    → MiddlewareManager
    → List ServiceConfig
    → List (Str × ServiceImpl)
    → Init (List (Str × ServiceImpl))
unfolding new_service
init_services env files mm [] m = inits m
init_services env files mm (config ∷ configs) m =
    next_service config.name (new_service env files mm config) m
      (init_services env files mm configs)

abbrev pub clients_of : {C : Type 0} → NewManager C → Init (List (Str × List C))
clients_of panics = exits nil_service_panic
clients_of (managed none) = exits init_clients_error
clients_of (managed (some clients)) = inits clients

module _ {Database Cache Pulsar C M K P G : Type 0} (env : Env)
    (deps : Deps Database Cache Pulsar C M K P G) where
  abbrev pub generated : Option G → Init (Option G)
  generated none = exits init_id_generator_error
  generated (some g) = inits (some g)

  unfoldable pub init_generator : IdGeneratorConfig → Str → Init (Option G)
  init_generator c [] = inits none
  init_generator c (k ∷ key) =
      and_then (or_exit parse_id_encrypt_key_error (deps.decode_string (k ∷ key)))
        (λ id_generator_key.
          generated (deps.new_generator_from_host_name id_generator_key c.service_id))

  unfoldable pub init_parts :
      MiddlewareManager
      → AppConfig Database Cache Pulsar
      → Init (Parts Database Cache Pulsar C M K P G)
  unfolding init_generator init_services
  init_parts mm config =
      and_then (clients_of (deps.new_client_manager mm config.clients)) (λ clients.
        and_then (or_exit init_databases_error (deps.new_databases config.databases)) (λ databases.
          and_then (or_exit init_caches_error (deps.new_caches config.caches)) (λ caches.
            and_then (or_exit init_pulsars_error (deps.new_pulsars config.pulsars)) (λ pulsars.
              and_then (init_generator config.id_generator config.id_generator.key) (λ generator.
                and_then (init_services env deps.files mm config.services []) (λ services.
                  inits (record {
                    config = config;
                    clients = clients;
                    databases = databases;
                    caches = caches;
                    pulsars = pulsars;
                    id_generator = generator;
                    services = services;
                  })))))))

  unfoldable pub init_with : MiddlewareManager → Init (Parts Database Cache Pulsar C M K P G)
  unfolding select_job init_parts
  init_with mm = and_then (unless_set no_run deps.runs_command) (λ u.
      and_then (unless_set init_config_error deps.init_config) (λ v.
        and_then (or_exit parse_app_config_error deps.app_config)
          (λ config. init_parts mm (select_job deps.job config))))

module _ {Job Database Cache Pulsar C M K P G : Type 0} where
  -- NewApp, with the default middlewares.
  unfoldable pub new_app : Env → App Job Database Cache Pulsar C M K P G
  unfolding new_default_middleware_manager
  new_app env = record { middlewares = new_default_middleware_manager env; jobs = []; parts = none }

  unfoldable pub register :
      Str
      → Option Middleware
      → App Job Database Cache Pulsar C M K P G
      → App Job Database Cache Pulsar C M K P G
  unfolding register_middleware
  register name middleware a = record a {
    middlewares = register_middleware a.middlewares name middleware;
  }

  -- A job of the same name is replaced, with a warning.
  unfoldable pub add_job :
      Str → Job → App Job Database Cache Pulsar C M K P G → App Job Database Cache Pulsar C M K P G
  add_job name job a = record a { jobs = put name job a.jobs }

  abbrev pub with_parts :
      App Job Database Cache Pulsar C M K P G
      → Init (Parts Database Cache Pulsar C M K P G)
      → Init (App Job Database Cache Pulsar C M K P G)
  with_parts a (exits e) = exits e
  with_parts a (inits parts) = inits (record a { parts = some parts })

  unfoldable pub init :
      Env
      → Deps Database Cache Pulsar C M K P G
      → App Job Database Cache Pulsar C M K P G
      → Init (App Job Database Cache Pulsar C M K P G)
  unfolding init_with
  init env deps a = with_parts a (init_with env deps a.middlewares)

abbrev pub services_in :
    {Database Cache Pulsar C M K P G : Type 0}
    → Option (Parts Database Cache Pulsar C M K P G)
    → List (Str × ServiceImpl)
services_in none = []
services_in (some parts) = parts.services

-- `none` is a nil service.
unfoldable pub get_service :
    {Job Database Cache Pulsar C M K P G : Type 0}
    → App Job Database Cache Pulsar C M K P G
    → Str
    → Option ServiceImpl
get_service a name = find name (services_in a.parts)
