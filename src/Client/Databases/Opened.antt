-- ===== src/Client/Databases/Opened.antt =====
-- Which clients a manager has.
use framego.Prelude.{
  ◌≡◌, refl, ap, ◌∙◌, Bool, true, false, List, [], ◌∷◌, Option, none, some, if◌then◌else◌, arith,
  Bool-cases, Option-cases, inl, inr,
}
use framego.Prelude.Text.{Str, is_same, find, put, find-put}
use framego.Client.Databases.{
  Config, Clients, init_clients, if_opened, new_pulsar_manager, new_cache_manager, new_cache_client,
  get_client, init_gorm_clients, get_gorm_client, new_client_manager, manager_if,
}

abbrev pub or_else : {C : Type 0} → Option C → Option C → Option C
or_else none o = o
or_else (some c) o = some c

abbrev pub is_some_and : {C : Type 0} → Option C → Bool → Bool
is_some_and none b = false
is_some_and (some c) b = b

module _ {C : Type 0} (new_client : Config → Option C) where
  -- Every configuration's client opens.
  abbrev pub all_opened : List Config → Bool
  all_opened [] = true
  all_opened (config ∷ configs) =
      let rest = all_opened configs in is_some_and (new_client config) rest

  -- The client of the last configuration that has the name.
  abbrev pub opened_last : List Config → Str → Option C
  opened_last [] name = none
  opened_last (config ∷ configs) name =
      or_else (opened_last configs name)
        (if is_same config.name name then new_client config else none)

or_else-put :
    {C : Type 0}
    → (o : Option C) (c : C) (j name : Str) (m : Clients C)
    → or_else o (find name (put j c m))
      ≡ or_else (or_else o (if is_same j name then some c else none)) (find name m)
or_else-put (some x) c j name m = refl
or_else-put none c j name m = elim (Bool-cases (is_same j name)) [
  | inl e ↦ rw (find-put name j c m, e) refl
  | inr e ↦ rw (find-put name j c m, e) refl
]

init_clients_ends :
    {C : Type 0}
    → (new_client : Config → Option C) (m : Clients C) (configs : List Config)
    → (init_clients new_client m configs).1 ≡ all_opened new_client configs
unfolding init_clients
init_clients_ends new_client m [] = refl
init_clients_ends new_client m (config ∷ configs) = elim (Option-cases (new_client config)) [
  | inl e ↦ rw e refl
  | inr (c, e) ↦ rw e (init_clients_ends new_client (put config.name c m) configs)
]

find-init_clients :
    {C : Type 0}
    → (new_client : Config → Option C) (m : Clients C) (configs : List Config) (name : Str)
    → all_opened new_client configs ≡ true
    → find name (init_clients new_client m configs).0
      ≡ or_else (opened_last new_client configs name) (find name m)
unfolding init_clients
find-init_clients new_client m [] name h = refl
find-init_clients new_client m (config ∷ configs) name h = elim (Option-cases (new_client config)) [
  | inl e ↦ absurd (ground (rw e at h, arith))
  | inr (c, e) ↦
      rw (e, find-init_clients new_client (put config.name c m) configs name (rw e at h))
        (or_else-put (opened_last new_client configs name) c config.name name m)
]

or_else-none : {C : Type 0} → (o : Option C) → or_else o none ≡ o
or_else-none none = refl
or_else-none (some c) = refl

-- What a new manager answers, if there is one.
abbrev pub answers : {M C : Type 0} → (M → C) → Option M → Option C
answers get none = none
answers get (some m) = some (get m)

abbrev pub if_all : {C : Type 0} → Bool → Option C → Option (Option C)
if_all true o = some o
if_all false o = none

if_opened_lem :
    {C : Type 0}
    → (r : Clients C × Bool) (b : Bool) (o : Option C) (name : Str) → r.1 ≡ b
    → (b ≡ true → find name r.0 ≡ o)
    → answers (λ m. get_client m name) (if_opened r) ≡ if_all b o
if_opened_lem (m, true) true o name e found = ap some (found refl)
if_opened_lem (m, true) false o name e found = absurd (ground (e, arith))
if_opened_lem (m, false) true o name e found = absurd (ground (e, arith))
if_opened_lem (m, false) false o name e found = refl

answers-if_opened :
    {C : Type 0}
    → (new_client : Config → Option C) (configs : List Config) (name : Str)
    → answers (λ m. get_client m name) (if_opened (init_clients new_client [] configs))
      ≡ if_all (all_opened new_client configs) (opened_last new_client configs name)
answers-if_opened new_client configs name =
    if_opened_lem (init_clients new_client [] configs) (all_opened new_client configs)
      (opened_last new_client configs name) name (init_clients_ends new_client [] configs)
      (λ h.
        find-init_clients new_client [] configs name h
        ∙ or_else-none (opened_last new_client configs name))

manager_if_lem :
    {G S : Type 0}
    → (new_gorm : Config → Option G) (new_sqlx : Config → Option S) (configs : List Config)
      (r : Clients G × Bool) (b : Bool) (o : Option G) (name : Str)
    → r.1 ≡ b
    → (b ≡ true → find name r.0 ≡ o)
    → answers
        (λ m. (get_gorm_client new_gorm new_sqlx m name).1)
        (manager_if
          (record { configs = configs; gorm_clients = some r.0; sqlx_clients = none }, r.1))
      ≡ if_all b o
unfolding get_gorm_client
manager_if_lem new_gorm new_sqlx configs (m, true) true o name e found = ap some (found refl)
manager_if_lem new_gorm new_sqlx configs (m, true) false o name e found = absurd (ground (e, arith))
manager_if_lem new_gorm new_sqlx configs (m, false) true o name e found = absurd (ground (e, arith))
manager_if_lem new_gorm new_sqlx configs (m, false) false o name e found = refl

-- Each of the three managers is made exactly if every client opens, and then answers a name with the client of the last configuration of that name; a client of the package cache whose type is neither empty nor Redis does not open.
pub get_client-new_client_manager :
    {G S : Type 0}
    → (new_gorm : Config → Option G) (new_sqlx : Config → Option S) (configs : List Config)
      (name : Str)
    → (answers
          (λ m. (get_gorm_client new_gorm new_sqlx m name).1)
          (new_client_manager new_gorm new_sqlx configs)
        ≡ if_all (all_opened new_gorm configs) (opened_last new_gorm configs name))
      × (answers (λ m. get_client m name) (new_pulsar_manager new_gorm configs)
          ≡ if_all (all_opened new_gorm configs) (opened_last new_gorm configs name))
      × (answers (λ m. get_client m name) (new_cache_manager new_gorm configs)
          ≡ if_all
              (all_opened (new_cache_client new_gorm) configs)
              (opened_last (new_cache_client new_gorm) configs name))
unfolding new_client_manager init_gorm_clients new_pulsar_manager new_cache_manager
get_client-new_client_manager new_gorm new_sqlx configs name = (
  manager_if_lem new_gorm new_sqlx configs (init_clients new_gorm [] configs)
      (all_opened new_gorm configs) (opened_last new_gorm configs name) name
      (init_clients_ends new_gorm [] configs)
      (λ h.
        find-init_clients new_gorm [] configs name h
        ∙ or_else-none (opened_last new_gorm configs name)),
  answers-if_opened new_gorm configs name,
  answers-if_opened (new_cache_client new_gorm) configs name,
)
