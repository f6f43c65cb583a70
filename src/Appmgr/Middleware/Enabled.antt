-- ===== src/Appmgr/Middleware/Enabled.antt =====
-- Which middlewares are enabled.
use mathlib.Core.List.{Memᴰ}
use framego.Prelude.{
  ℕ, ◌≡◌, ◌≢◌, ◌↔◌, ◌⊎◌, refl, subst, true, List, [], ◌∷◌, ◌++◌, Option, none, some, arith,
  Bool-cases, inl, inr,
}
use framego.Prelude.Text.{Str, is_same, is_same_iff, to_lower}
use framego.Config.StringMap.{Raw, Reader, StringMap}
use framego.Appmgr.Middleware.{
  Service, Middleware, MiddlewareManager, Applier, Parsed, parsed, failed, get_middleware,
  parse_middleware_config, is_enabled, is_middleware_enabled, add_middleware,
}
use framego.Appmgr.Middleware.Builtin.{apply, service_applier}
use framego.Appmgr.Middleware.Collected.{
  Resolved, bad, good, cons_good, resolve, resolve_parsed, resolve_found, all_good, apply-eq,
  applier_of,
}

-- A configuration that names this middleware, in whatever case, and a middleware that is there.
abbrev pub Names : Reader → MiddlewareManager → Str → Raw → Type 0
Names read mm name config =
    (written : Str) × (options : StringMap) × (middleware : Middleware) × (parse_middleware_config
        read config
      ≡ parsed written options)
    × (get_middleware mm written ≡ some middleware)
    × (to_lower written ≡ to_lower name)

abbrev pub IsNamed : Str → Resolved → Type 0
IsNamed name (bad e) = ⊥
IsNamed name (good mc) = mc.name ≡ name

registered_of :
    (written : Str) (options : StringMap) (o : Option Middleware) (name : Str)
    → IsNamed name (resolve_found written options o)
    → (middleware : Middleware) × ((o ≡ some middleware) × (to_lower written ≡ name))
registered_of written options none name h = absurd h
registered_of written options (some m) name h = (m, (refl, h))

names_of :
    (mm : MiddlewareManager) (p : Parsed) (name : Str)
    → IsNamed name (resolve_parsed mm p)
    → (written : Str) × (options : StringMap) × (middleware : Middleware) × (p
        ≡ parsed written options)
      × (get_middleware mm written ≡ some middleware)
      × (to_lower written ≡ name)
names_of mm (failed e) name h = absurd h
names_of mm (parsed written options) name h =
    let (m, (e, same)) = registered_of written options (get_middleware mm written) name h in
    (written, options, m, refl, e, same)

is_enabled-cons_good :
    (name : Str) (r : Resolved) (a : Applier)
    → (is_enabled (cons_good r a) name ≡ true) ↔ (IsNamed name r ⊎ (is_enabled a name ≡ true))
is_enabled-cons_good name (bad e) a = ground arith
is_enabled-cons_good name (good mc) a = elim (Bool-cases (is_same mc.name name)) [
  | inl e ↦ rw e (λ h. inl ((is_same_iff mc.name name).0 e), λ h. refl)
  | inr e ↦ rw e (
    λ h. inr h,
    λ h. elim h [
      | inl same ↦ absurd (ground (e, (is_same_iff mc.name name).1 same, arith))
      | inr t ↦ t
    ],
  )
]

module _ (read : Reader) (mm : MiddlewareManager) (name : Str) where
  IsNamed-parsed :
      (config : Raw) → Names read mm name config → IsNamed (to_lower name) (resolve read mm config)
  IsNamed-parsed config (written, options, middleware, p, e, same) = rw (p, e) same

  all_good_sound :
      (configs : List Raw)
      → is_enabled (all_good read mm configs) (to_lower name) ≡ true
      → (config : Raw) × (Memᴰ config configs × Names read mm name config)
  all_good_sound [] h = absurd (ground (h, arith))
  all_good_sound (config ∷ configs) h =
      let rest = all_good_sound configs in
      elim ((is_enabled-cons_good (to_lower name) (resolve read mm config)
          (all_good read mm configs)).0
        h) [
          | inl named ↦ (
            config,
            (
              Memᴰ.head refl,
              names_of mm (parse_middleware_config read config) (to_lower name) named,
            ),
          )
          | inr t ↦ let (c, (m, names)) = rest t in (c, (Memᴰ.tail m, names))
        ]

  all_good_complete :
      (configs : List Raw) (config : Raw)
      → Memᴰ config configs
      → Names read mm name config
      → is_enabled (all_good read mm configs) (to_lower name) ≡ true
  all_good_complete [] config m names = elim m [ ]
  all_good_complete (c ∷ configs) config (Memᴰ.head same) names =
      (is_enabled-cons_good (to_lower name) (resolve read mm c) (all_good read mm configs)).1 (
        inl (
          subst (λ (x : Raw). IsNamed (to_lower name) (resolve read mm x)) same
            (IsNamed-parsed config names)))
  all_good_complete (c ∷ configs) config (Memᴰ.tail m) names =
      (is_enabled-cons_good (to_lower name) (resolve read mm c) (all_good read mm configs)).1
        (inr (all_good_complete configs config m names))

cons_not_nil : {c : ℕ} {n : Str} → (c ∷ n ≡ []) → ⊥
cons_not_nil e = ground (e, arith)

empty_disabled : {P : Type 0} → (a : Applier) → is_middleware_enabled a [] ≡ true → P
unfolding is_middleware_enabled
empty_disabled a h = absurd (ground (h, arith))

service_applier-enabled :
    (s : Service) (a : Applier) (c : ℕ) (n : Str)
    → is_middleware_enabled (service_applier (some s) ++ a) (c ∷ n)
      ≡ is_enabled a (to_lower (c ∷ n))
unfolding is_middleware_enabled service_applier add_middleware
service_applier-enabled s a c n = refl

-- A middleware is enabled for a service exactly if its name is not empty and some configuration names it, in whatever case, and a middleware is registered there.
pub is_middleware_enabled-apply :
    (read : Reader) (mm : MiddlewareManager) (s : Service) (configs : List Raw) (name : Str)
    → (is_middleware_enabled (applier_of (apply read mm (some s) configs)) name ≡ true)
      ↔ ((name ≢ []) × ((config : Raw) × (Memᴰ config configs × Names read mm name config)))
is_middleware_enabled-apply read mm s configs [] =
    (empty_disabled (applier_of (apply read mm (some s) configs)), λ h. absurd (h.0 refl))
is_middleware_enabled-apply read mm s configs (c ∷ n) =
    rw (apply-eq read mm s configs, service_applier-enabled s (all_good read mm configs) c n)
      (
        λ h. (λ e. cons_not_nil e, all_good_sound read mm (c ∷ n) configs h),
        λ (d, (config, (m, names))). all_good_complete read mm (c ∷ n) configs config m names,
      )
