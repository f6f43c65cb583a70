-- ===== src/Client/Databases.antt =====
-- client/database/manager.go, client/pulsar/manager.go and client/cache/manager.go. What opens a
-- client is a parameter, `none` for an error.
pub mod Opened
pub mod Sqlx
use framego.Prelude.{ℕ, Bool, true, false, List, [], ◌∷◌, Option, none, some, if◌then◌else◌}
use framego.Prelude.Text.{Str, bytes, is_same, to_lower, find, put}

pub record Config : Type 0 where
  pub name : Str
  pub type : Str
  pub masters : List Str
  pub slaves : List Str

-- A map of clients by name.
abbrev pub Clients : Type 0 → Type 0
Clients C = List (Str × C)

abbrev pub opened_next : {C : Type 0} → Clients C → Str → Option C → Clients C
opened_next m name none = m
opened_next m name (some client) = put name client m

abbrev pub unless_failed : {C : Type 0} → Clients C → Option C → Clients C × Bool → Clients C × Bool
unless_failed m none rest = (m, false)
unless_failed m (some client) rest = rest

-- The loop over the configurations, and whether it came to its end.
unfoldable pub init_clients :
    {C : Type 0} → (Config → Option C) → Clients C → List Config → Clients C × Bool
init_clients new_client m [] = (m, true)
init_clients new_client m (config ∷ configs) =
    let client = new_client config in
    let rest = init_clients new_client (opened_next m config.name client) configs in
    unless_failed m client rest

abbrev pub if_opened : {C : Type 0} → Clients C × Bool → Option (Clients C)
if_opened (m, true) = some m
if_opened (m, false) = none

-- NewClientManager of the package pulsar.
unfoldable pub new_pulsar_manager :
    {C : Type 0} → (Config → Option C) → List Config → Option (Clients C)
unfolding init_clients
new_pulsar_manager new_client configs = if_opened (init_clients new_client [] configs)

-- A client of the package cache, whose type is to be Redis.
abbrev pub new_cache_client : {C : Type 0} → (Config → Option C) → Config → Option C
new_cache_client new_redis_client config =
    let cache_type = to_lower config.type in
    if is_same cache_type []
    then new_redis_client config
    else if is_same cache_type (bytes "redis")
    then new_redis_client config
    else none

-- NewClientManager of the package cache.
unfoldable pub new_cache_manager :
    {C : Type 0} → (Config → Option C) → List Config → Option (Clients C)
unfolding init_clients
new_cache_manager new_redis_client configs =
    if_opened (init_clients (new_cache_client new_redis_client) [] configs)

abbrev pub get_client : {C : Type 0} → Clients C → Str → Option C
get_client m name = find name m

-- The manager of the package database; a map is `none` until it is made.
pub record ClientManager (G S : Type 0) : Type 0 where
  pub configs : List Config
  pub gorm_clients : Option (Clients G)
  pub sqlx_clients : Option (Clients S)

-- A lookup in a nil map finds nothing.
abbrev pub client_in : {C : Type 0} → Option (Clients C) → Str → Option C
client_in none name = none
client_in (some m) name = find name m

abbrev pub is_nil : {C : Type 0} → Option (Clients C) → Bool
is_nil none = true
is_nil (some m) = false

abbrev pub gorm_after :
    {G S : Type 0} → Str → ClientManager G S × Bool → ClientManager G S × Option G
gorm_after name (c, false) = (c, none)
gorm_after name (c, true) = (c, client_in c.gorm_clients name)

abbrev pub sqlx_after :
    {G S : Type 0} → Str → ClientManager G S × Bool → ClientManager G S × Option S
sqlx_after name (c, false) = (c, none)
sqlx_after name (c, true) = (c, client_in c.sqlx_clients name)

abbrev pub manager_if : {G S : Type 0} → ClientManager G S × Bool → Option (ClientManager G S)
manager_if (c, true) = some c
manager_if (c, false) = none

module _ {G S : Type 0} (new_gorm_client : Config → Option G)
    (new_sqlx_client : Config → Option S) where
  unfoldable pub init_gorm_clients : ClientManager G S → ClientManager G S × Bool
  unfolding init_clients
  init_gorm_clients c =
      let result = init_clients new_gorm_client [] c.configs in
      (record c { gorm_clients = some result.0 }, result.1)

  unfoldable pub init_sqlx_clients : ClientManager G S → ClientManager G S × Bool
  unfolding init_clients
  init_sqlx_clients c =
      let result = init_clients new_sqlx_client [] c.configs in
      (record c { sqlx_clients = some result.0 }, result.1)

  unfoldable pub get_gorm_client : ClientManager G S → Str → ClientManager G S × Option G
  unfolding init_gorm_clients
  get_gorm_client c name =
      gorm_after name (if is_nil c.gorm_clients then init_gorm_clients c else (c, true))

  -- The test is of `gormClients`, as in the source.
  unfoldable pub get_sqlx_client : ClientManager G S → Str → ClientManager G S × Option S
  unfolding init_sqlx_clients
  get_sqlx_client c name =
      sqlx_after name (if is_nil c.gorm_clients then init_sqlx_clients c else (c, true))

  unfoldable pub new_client_manager : List Config → Option (ClientManager G S)
  unfolding init_gorm_clients
  new_client_manager configs =
      manager_if
        (init_gorm_clients (record { configs = configs; gorm_clients = none; sqlx_clients = none }))
