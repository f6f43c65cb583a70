-- ===== src/Appmgr/Init/Inited.antt =====
-- When Init comes to its end, and what the application then has.
use framego.Prelude.{
  ◌≡◌, ◌↔◌, refl, subst, Bool, true, false, List, [], ◌∷◌, Option, none, some, arith,
}
use framego.Prelude.Text.{Str}
use framego.Appmgr.Middleware.{MiddlewareManager}
use framego.Appmgr.Middleware.Builtin.{Env}
use framego.Appmgr.Clients.{NewManager, managed, panics}
use framego.Appmgr.Init.{
  IdGeneratorConfig, AppConfig, Exit, no_run, init_config_error, Init, exits, inits, and_then,
  or_exit, parse_id_encrypt_key_error, unless_set, Deps, Parts, select_job, init_services,
  clients_of, generated, init_generator, init_parts, init_with,
}

and_then-inits :
    {A B : Type 0}
    → (x : Init A) (k : A → Init B) (b : B) → and_then x k ≡ inits b
    → (a : A) × (x ≡ inits a) × (k a ≡ inits b)
and_then-inits (exits e) k b h = absurd (ground (h, arith))
and_then-inits (inits a) k b h = (a, refl, h)

or_exit-inits :
    {A : Type 0} → (e : Exit) (o : Option A) (a : A) → or_exit e o ≡ inits a → o ≡ some a
or_exit-inits e none a h = absurd (ground (h, arith))
or_exit-inits e (some x) a h = cc

unless_set-inits : (e : Exit) (b : Bool) (u : Unit {0}) → unless_set e b ≡ inits u → b ≡ true
unless_set-inits e true u h = refl
unless_set-inits e false u h = absurd (ground (h, arith))

clients_of-inits :
    {C : Type 0}
    → (x : NewManager C) (clients : List (Str × List C)) → clients_of x ≡ inits clients
    → x ≡ managed (some clients)
clients_of-inits panics clients h = absurd (ground (h, arith))
clients_of-inits (managed none) clients h = absurd (ground (h, arith))
clients_of-inits (managed (some m)) clients h = cc

module _ {Database Cache Pulsar C M K P G : Type 0} (env : Env)
    (deps : Deps Database Cache Pulsar C M K P G) (mm : MiddlewareManager) where
  -- No generator without a key; otherwise the one of the key that is decoded.
  abbrev pub IsGenerator : IdGeneratorConfig → Str → Option G → Type 0
  IsGenerator c [] o = o ≡ none
  IsGenerator c (k ∷ key) o =
      (decoded : Str) × ((deps.decode_string (k ∷ key) ≡ some decoded)
        × ((g : G) × ((deps.new_generator_from_host_name decoded c.service_id ≡ some g)
              × (o ≡ some g))))

  -- Each part is what its constructor makes of the configuration.
  abbrev pub AreMade :
      AppConfig Database Cache Pulsar → Parts Database Cache Pulsar C M K P G → Type 0
  AreMade config parts =
      (parts.config ≡ config)
      × (deps.new_client_manager mm config.clients ≡ managed (some parts.clients))
      × (deps.new_databases config.databases ≡ some parts.databases)
      × (deps.new_caches config.caches ≡ some parts.caches)
      × (deps.new_pulsars config.pulsars ≡ some parts.pulsars)
      × IsGenerator config.id_generator config.id_generator.key parts.id_generator
      × (init_services env deps.files mm config.services [] ≡ inits parts.services)

  init_generator_iff :
      (c : IdGeneratorConfig) (key : Str) (o : Option G)
      → (init_generator env deps c key ≡ inits o) ↔ IsGenerator c key o
  unfolding init_generator
  init_generator_iff c [] o = (λ h. cc, λ h. cc)
  init_generator_iff c (k ∷ key) o = by (deps.decode_string (k ∷ key)) refl
    where
      made_of :
          (decoded : Str) (g : Option G)
          → deps.decode_string (k ∷ key) ≡ some decoded
          → deps.new_generator_from_host_name decoded c.service_id ≡ g
          → (generated env deps g ≡ inits o) ↔ IsGenerator c (k ∷ key) o
      made_of decoded none d e = (
        λ h. absurd (ground (h, arith)),
        λ (d', (e', (g, (f, s)))). absurd (ground (d, e', e, f, arith)),
      )
      made_of decoded (some g) d e =
          (λ h. (decoded, (d, (g, (e, cc)))), λ (d', (e', (g', (f, s)))). cc)

      by :
          (x : Option Str)
          → deps.decode_string (k ∷ key) ≡ x
          → (and_then (or_exit parse_id_encrypt_key_error x) (λ id_generator_key.
                generated env deps
                  (deps.new_generator_from_host_name id_generator_key c.service_id))
              ≡ inits o)
            ↔ IsGenerator c (k ∷ key) o
      by none e = (λ h. absurd (ground (h, arith)), λ (d', (e', r)). absurd (ground (e, e', arith)))
      by (some decoded) e =
          made_of decoded (deps.new_generator_from_host_name decoded c.service_id) e refl

  init_parts_made :
      (config : AppConfig Database Cache Pulsar) (parts : Parts Database Cache Pulsar C M K P G)
      → init_parts env deps mm config ≡ inits parts
      → AreMade config parts
  unfolding init_parts
  init_parts_made config parts h =
      let (clients, e1, h) =
        and_then-inits (clients_of (deps.new_client_manager mm config.clients)) _ parts h in
      let (databases, e2, h) =
        and_then-inits (or_exit _ (deps.new_databases config.databases)) _ parts h in
      let (caches, e3, h) = and_then-inits (or_exit _ (deps.new_caches config.caches)) _ parts h in
      let (pulsars, e4, h) =
        and_then-inits (or_exit _ (deps.new_pulsars config.pulsars)) _ parts h in
      let (generator, e5, h) =
        and_then-inits (init_generator env deps config.id_generator config.id_generator.key) _ parts
          h in
      let (services, e6, h) =
        and_then-inits (init_services env deps.files mm config.services []) _ parts h in
      subst (λ (x : Init (Parts Database Cache Pulsar C M K P G)). IsMadeOf config x) h
        (
          refl,
          clients_of-inits (deps.new_client_manager mm config.clients) clients e1,
          or_exit-inits _ (deps.new_databases config.databases) databases e2,
          or_exit-inits _ (deps.new_caches config.caches) caches e3,
          or_exit-inits _ (deps.new_pulsars config.pulsars) pulsars e4,
          (init_generator_iff config.id_generator config.id_generator.key generator).0 e5,
          e6,
        )
    where
      IsMadeOf :
          AppConfig Database Cache Pulsar → Init (Parts Database Cache Pulsar C M K P G) → Type 0
      IsMadeOf config (exits e) = Unit {0}
      IsMadeOf config (inits parts) = AreMade config parts

  init_parts_inits :
      (config : AppConfig Database Cache Pulsar) (parts : Parts Database Cache Pulsar C M K P G)
      → AreMade config parts
      → init_parts env deps mm config ≡ inits parts
  unfolding init_parts
  init_parts_inits config parts (e0, e1, e2, e3, e4, e5, e6) =
      rw
        (
          e1,
          e2,
          e3,
          e4,
          (init_generator_iff config.id_generator config.id_generator.key parts.id_generator).1 e5,
          e6,
          ← e0,
        )
        refl

  -- Init comes to its end exactly if the command runs, the configuration is there, and each part that it asks for, once a job of the command line is put in the place of its jobs and services, can be made; the application then has these parts.
  pub init_with_iff :
      (parts : Parts Database Cache Pulsar C M K P G)
      → (init_with env deps mm ≡ inits parts) ↔ (
          (deps.runs_command ≡ true)
          × (deps.init_config ≡ true)
          × ((config : AppConfig Database Cache Pulsar) × ((deps.app_config ≡ some config)
                × AreMade (select_job deps.job config) parts)))
  unfolding init_with
  init_with_iff parts = (
    λ h.
        let (u, a, h) = and_then-inits (unless_set no_run deps.runs_command) _ parts h in
        let (v, b, h) = and_then-inits (unless_set init_config_error deps.init_config) _ parts h in
        let (config, c, h) = and_then-inits (or_exit _ deps.app_config) _ parts h in
        (
          unless_set-inits no_run deps.runs_command u a,
          unless_set-inits init_config_error deps.init_config v b,
          (
            config,
            (
              or_exit-inits _ deps.app_config config c,
              init_parts_made (select_job deps.job config) parts h,
            ),
          ),
        ),
    λ (a, b, (config, (c, made))).
        rw (a, b, c) (init_parts_inits (select_job deps.job config) parts made),
  )
