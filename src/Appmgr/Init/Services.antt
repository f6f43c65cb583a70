-- ===== src/Appmgr/Init/Services.antt =====
-- The services of an application after Init.
use mathlib.Core.List.{Memᴰ}
use framego.Prelude.{
  ℕ, ◌≡◌, ◌≢◌, ◌⊎◌, refl, sym, ap, ◌∙◌, subst, Bool, List, [], ◌∷◌, Option, none, some,
  if◌then◌else◌, arith, Bool-cases, inl, inr,
}
use framego.Prelude.Text.{Str, find, put, find-put, is_same, is_same_iff}
use framego.Appmgr.Middleware.{MiddlewareManager}
use framego.Appmgr.Middleware.Builtin.{Env}
use framego.Appmgr.Tls.{Files}
use framego.Appmgr.Services.{
  ServiceConfig, ServiceImpl, NewService, ends, failed, serves, new_service,
}
use framego.Appmgr.Init.{
  AppConfig, Init, exits, inits, Deps, Parts, App, select_job, next_service, init_services,
  init_with, with_parts, init, services_in, get_service,
}
use framego.Appmgr.Init.Inited.{init_with_iff}

abbrev pub AllOther : Str → List ServiceConfig → Type 0
AllOther name [] = Unit {0}
AllOther name (config ∷ configs) = (config.name ≢ name) × AllOther name configs

some-inj : {A : Type 0} {x y : A} → some x ≡ some y → x ≡ y
some-inj h = cc

module _ (env : Env) (files : Files) (mm : MiddlewareManager) (name : Str) where
  -- A service of this name is made of a configuration of this name; there is none if there is no such
  -- configuration.
  abbrev pub IsFound : List ServiceConfig → Option ServiceImpl → Type 0
  IsFound configs none = AllOther name configs
  IsFound configs (some s) =
      (config : ServiceConfig) × (Memᴰ config configs
        × ((config.name ≡ name) × (new_service env files mm config ≡ serves s)))

  abbrev IsTraced : List ServiceConfig → Option ServiceImpl → Option ServiceImpl → Type 0
  IsTraced configs before none = (before ≡ none) × AllOther name configs
  IsTraced configs before (some s) = (before ≡ some s) ⊎ IsFound configs (some s)

  IsTraced-tail :
      (config : ServiceConfig) (configs : List ServiceConfig) (made : ServiceImpl)
      (m : List (Str × ServiceImpl)) (o : Option ServiceImpl)
      → new_service env files mm config ≡ serves made
      → IsTraced configs (find name (put config.name made m)) o
      → IsTraced (config ∷ configs) (find name m) o
  IsTraced-tail config configs made m o is_made traced =
      elim (Bool-cases (is_same config.name name)) [
        | inl e ↦ same ((is_same_iff config.name name).0 e) o (
            subst (λ (x : Option ServiceImpl). IsTraced configs x o)
              (find-put name config.name made m
                ∙ ap (λ (b : Bool). if b then some made else find name m) e)
              traced)
        | inr e ↦
            other (λ x. ground (e, (is_same_iff config.name name).1 x, arith)) o
              (subst (λ (x : Option ServiceImpl). IsTraced configs x o)
                (find-put name config.name made m
                  ∙ ap (λ (b : Bool). if b then some made else find name m) e)
                traced)
      ]
    where
      wider : (s : ServiceImpl) → IsFound configs (some s) → IsFound (config ∷ configs) (some s)
      wider s (c, (i, rest)) = (c, (Memᴰ.tail i, rest))

      same :
          config.name ≡ name
          → (o : Option ServiceImpl) → IsTraced configs (some made) o
          → IsTraced (config ∷ configs) (find name m) o
      same e none t = absurd (ground (t.0, arith))
      same e (some s) (inl t) = inr (config, (Memᴰ.head refl, (e, is_made ∙ cc)))
      same e (some s) (inr t) = inr (wider s t)

      other :
          config.name ≢ name
          → (o : Option ServiceImpl) → IsTraced configs (find name m) o
          → IsTraced (config ∷ configs) (find name m) o
      other d none t = (t.0, (d, t.1))
      other d (some s) (inl t) = inl t
      other d (some s) (inr t) = inr (wider s t)

  init_services-IsTraced :
      (configs : List ServiceConfig) (m m' : List (Str × ServiceImpl))
      → init_services env files mm configs m ≡ inits m'
      → IsTraced configs (find name m) (find name m')
  unfolding init_services
  init_services-IsTraced [] m m' h = nothing (find name m) (find name m') (ap (find_in) h)
    where
      find_in : Init (List (Str × ServiceImpl)) → Option ServiceImpl
      find_in (exits e) = none
      find_in (inits x) = find name x

      nothing : (o p : Option ServiceImpl) → o ≡ p → IsTraced [] o p
      nothing o none e = (e, tt)
      nothing o (some s) e = inl e
  init_services-IsTraced (config ∷ configs) m m' h =
      by (λ m. init_services-IsTraced configs m m') (new_service env files mm config) refl h
    where
      by :
          ((m : List (Str × ServiceImpl))
            → init_services env files mm configs m ≡ inits m'
            → IsTraced configs (find name m) (find name m'))
          → (x : NewService) → new_service env files mm config ≡ x
          → next_service config.name x m (init_services env files mm configs) ≡ inits m'
          → IsTraced (config ∷ configs) (find name m) (find name m')
      by rest ends e h = absurd (ground (h, arith))
      by rest (failed f) e h = absurd (ground (h, arith))
      by rest (serves s) e h =
          IsTraced-tail config configs s m (find name m') e (rest (put config.name s m) h)

  IsFound-of :
      (configs : List ServiceConfig) (o : Option ServiceImpl)
      → IsTraced configs none o
      → IsFound configs o
  IsFound-of configs none t = t.1
  IsFound-of configs (some s) (inl e) = absurd (ground (e, arith))
  IsFound-of configs (some s) (inr t) = t

parts-IsFound :
    {Job Database Cache Pulsar C M K P G : Type 0}
    → (env : Env) (deps : Deps Database Cache Pulsar C M K P G)
      (a a' : App Job Database Cache Pulsar C M K P G) (name : Str)
      (config : AppConfig Database Cache Pulsar) (x : Init (Parts Database Cache Pulsar C M K P G))
    → init_with env deps a.middlewares ≡ x
    → with_parts a x ≡ inits a'
    → deps.app_config ≡ some config
    → IsFound env deps.files a.middlewares name
        (select_job deps.job config).services
        (find name (services_in a'.parts))
parts-IsFound {Job} {Database} {Cache} {Pulsar} {C} {M} {K} {P} {G} env deps a a' name config
      (exits e) made h found =
    absurd (ground (h, arith))
parts-IsFound {Job} {Database} {Cache} {Pulsar} {C} {M} {K} {P} {G} env deps a a' name config
      (inits parts) made h found =
    let (r, i, (config', (same, parts_made))) =
      (init_with_iff env deps a.middlewares parts).0 made in
    let same_config : config' ≡ config = some-inj (sym same ∙ found) in
    let traced =
      init_services-IsTraced env deps.files a.middlewares name
        (select_job deps.job config').services [] parts.services parts_made.6 in
    subst
      (λ (c : AppConfig Database Cache Pulsar).
        IsFound env deps.files a.middlewares name (select_job deps.job c).services
          (find name (services_in a'.parts)))
      same_config
      (subst
        (λ (o : Init (App Job Database Cache Pulsar C M K P G)).
          IsFound env deps.files a.middlewares name (select_job deps.job config').services
            (found_in o))
        h
        (IsFound-of env deps.files a.middlewares name (select_job deps.job config').services
          (find name parts.services) traced))
  where
    found_in : Init (App Job Database Cache Pulsar C M K P G) → Option ServiceImpl
    found_in (exits e) = none
    found_in (inits b) = find name (services_in b.parts)

-- After Init, an application has for each name a service that is made of one of the configurations of this name that are left when a job of the command line is put in the place of its services, and none if there is no such configuration.
pub get_service-init :
    {Job Database Cache Pulsar C M K P G : Type 0}
    → (env : Env) (deps : Deps Database Cache Pulsar C M K P G)
      (a a' : App Job Database Cache Pulsar C M K P G) (name : Str)
      (config : AppConfig Database Cache Pulsar)
    → init env deps a ≡ inits a'
    → deps.app_config ≡ some config
    → IsFound env deps.files a.middlewares name
        (select_job deps.job config).services
        (get_service a' name)
unfolding init get_service
get_service-init env deps a a' name config h found =
    parts-IsFound env deps a a' name config (init_with env deps a.middlewares) refl h found

abbrev pub jobs_in :
    {Database Cache Pulsar C M K P G : Type 0}
    → Option (Parts Database Cache Pulsar C M K P G)
    → List Str
jobs_in none = []
jobs_in (some parts) = parts.config.jobs

jobs_found :
    {Job Database Cache Pulsar C M K P G : Type 0}
    → (env : Env) (deps : Deps Database Cache Pulsar C M K P G)
      (a a' : App Job Database Cache Pulsar C M K P G)
      (x : Init (Parts Database Cache Pulsar C M K P G)) (c : ℕ) (job : Str)
    → deps.job ≡ c ∷ job
    → init_with env deps a.middlewares ≡ x
    → with_parts a x ≡ inits a'
    → (config : AppConfig Database Cache Pulsar) × ((deps.app_config ≡ some config)
        × (jobs_in a'.parts ≡ (c ∷ job) ∷ []))
unfolding select_job
jobs_found env deps a a' (exits e) c job named made h = absurd (ground (h, arith))
jobs_found {Job} {Database} {Cache} {Pulsar} {C} {M} {K} {P} {G} env deps a a' (inits parts) c job
      named made h =
    let (r, i, (config, (same, parts_made))) =
      (init_with_iff env deps a.middlewares parts).0 made in
    (
      config,
      (
        same,
        sym (ap found_in h)
            ∙ (ap (λ (x : AppConfig Database Cache Pulsar). x.jobs) parts_made.0
                ∙ ap (λ (j : Str). (select_job j config).jobs) named),
      ),
    )
  where
    found_in : Init (App Job Database Cache Pulsar C M K P G) → List Str
    found_in (exits e) = []
    found_in (inits b) = jobs_in b.parts

none_of_none :
    (env : Env) (files : Files) (mm : MiddlewareManager) (name : Str) (o : Option ServiceImpl)
    → IsFound env files mm name [] o
    → o ≡ none
none_of_none env files mm name none h = refl
none_of_none env files mm name (some s) (config, (i, rest)) = elim i [ ]

-- After Init with a job on the command line, this job is the only one that is to run, and the application has no service, whatever the configuration names.
pub init_job :
    {Job Database Cache Pulsar C M K P G : Type 0}
    → (env : Env) (deps : Deps Database Cache Pulsar C M K P G)
      (a a' : App Job Database Cache Pulsar C M K P G) (name : Str)
    → deps.job ≢ []
    → init env deps a ≡ inits a'
    → (jobs_in a'.parts ≡ deps.job ∷ []) × (get_service a' name ≡ none)
unfolding init
init_job env deps a a' name named h = by deps.job refl
  where
    by :
        (job : Str)
        → deps.job ≡ job
        → (jobs_in a'.parts ≡ deps.job ∷ []) × (get_service a' name ≡ none)
    by [] e = absurd (named e)
    by (c ∷ job) e =
        let (config, (same, jobs)) =
          jobs_found env deps a a' (init_with env deps a.middlewares) c job e refl h in
        (
          jobs ∙ ap (λ (j : Str). j ∷ []) (sym e),
          none_of_none env deps.files a.middlewares name (get_service a' name) (
              subst
                (λ (j : Str).
                  IsFound env deps.files a.middlewares name (select_job j config).services
                    (get_service a' name))
                e (get_service-init env deps a a' name config h same)),
        )
