-- ===== src/Client/Databases/Sqlx.antt =====
-- The sqlx clients of the package database.
use framego.Prelude.{
  ◌≡◌, sym, some-eq, refl, Bool, true, false, List, [], ◌∷◌, Option, none, some, arith,
}
use framego.Prelude.Text.{Str}
use framego.Client.Databases.{
  Config, Clients, ClientManager, init_clients, init_gorm_clients, get_gorm_client, get_sqlx_client,
  new_client_manager, manager_if,
}

-- A call of `GetGormClient` or of `GetSqlxClient`.
pub data Call : Type 0 where
  gorm : Str → Call
  sqlx : Str → Call

module _ {G S : Type 0} (new_gorm_client : Config → Option G)
    (new_sqlx_client : Config → Option S) where
  abbrev pub call : ClientManager G S → Call → ClientManager G S
  call c (gorm name) = (get_gorm_client new_gorm_client new_sqlx_client c name).0
  call c (sqlx name) = (get_sqlx_client new_gorm_client new_sqlx_client c name).0

  abbrev pub call_all : ClientManager G S → List Call → ClientManager G S
  call_all c [] = c
  call_all c (x ∷ xs) = call_all (call c x) xs

  new_IsReady :
      (configs : List Config) (r : Clients G × Bool) (c : ClientManager G S)
      → manager_if (record { configs = configs; gorm_clients = some r.0; sqlx_clients = none }, r.1)
        ≡ some c
      → (m : Clients G) × (c
          ≡ record { configs = configs; gorm_clients = some m; sqlx_clients = none })
  new_IsReady configs (m, true) c e = (m, sym (some-eq e))
  new_IsReady configs (m, false) c e = absurd (ground (e, arith))

  call_same :
      (configs : List Config) (m : Clients G) (x : Call)
      → call (record { configs = configs; gorm_clients = some m; sqlx_clients = none }) x
        ≡ record { configs = configs; gorm_clients = some m; sqlx_clients = none }
  unfolding get_gorm_client get_sqlx_client
  call_same configs m (gorm name) = refl
  call_same configs m (sqlx name) = refl

  call_all_same :
      (configs : List Config) (m : Clients G) (xs : List Call)
      → call_all (record { configs = configs; gorm_clients = some m; sqlx_clients = none }) xs
        ≡ record { configs = configs; gorm_clients = some m; sqlx_clients = none }
  call_all_same configs m [] = refl
  call_all_same configs m (x ∷ xs) = rw (call_same configs m x) (call_all_same configs m xs)

  sqlx_nothing :
      (configs : List Config) (m : Clients G) (name : Str)
      → (get_sqlx_client new_gorm_client new_sqlx_client
          (record { configs = configs; gorm_clients = some m; sqlx_clients = none })
          name).1
        ≡ none
  unfolding get_sqlx_client
  sqlx_nothing configs m name = refl

  -- A manager that NewClientManager has made never gives a sqlx client, whatever was asked before and whatever would open.
  pub get_sqlx_client-none :
      (configs : List Config) (c : ClientManager G S) (xs : List Call) (name : Str)
      → new_client_manager new_gorm_client new_sqlx_client configs ≡ some c
      → (get_sqlx_client new_gorm_client new_sqlx_client (call_all c xs) name).1 ≡ none
  unfolding new_client_manager init_gorm_clients
  get_sqlx_client-none configs c xs name e =
      let (m, same) = new_IsReady configs (init_clients new_gorm_client [] configs) c e in
      rw (same, call_all_same configs m xs) (sqlx_nothing configs m name)
