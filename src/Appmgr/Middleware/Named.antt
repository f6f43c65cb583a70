-- ===== src/Appmgr/Middleware/Named.antt =====
-- Middlewares by name.
use framego.Prelude.{◌≡◌, refl, Option, if◌then◌else◌, Bool-cases, inl, inr}
use framego.Prelude.Text.{Str, is_same, to_lower, find-put, is_same_iff}
use framego.Appmgr.Middleware.{Middleware, MiddlewareManager, register_middleware, get_middleware}

-- After a middleware is registered, a name leads to it if the two names are the same in lower case, and to what it led to before otherwise.
pub get_middleware-register_middleware :
    (m : MiddlewareManager) (name asked : Str) (middleware : Option Middleware)
    → get_middleware (register_middleware m name middleware) asked
      ≡ (if is_same (to_lower name) (to_lower asked) then middleware else get_middleware m asked)
unfolding get_middleware register_middleware
get_middleware-register_middleware m name asked middleware =
    elim (Bool-cases (is_same (to_lower name) (to_lower asked))) [
      | inl e ↦ rw (find-put (to_lower asked) (to_lower name) middleware m, e) refl
      | inr e ↦ rw (find-put (to_lower asked) (to_lower name) middleware m, e) refl
    ]

pub get_middleware_registered :
    (m : MiddlewareManager) (middleware : Option Middleware) (name asked : Str)
    → to_lower name ≡ to_lower asked
    → get_middleware (register_middleware m name middleware) asked ≡ middleware
get_middleware_registered m middleware name asked same =
    rw
      (
        get_middleware-register_middleware m name asked middleware,
        (is_same_iff (to_lower name) (to_lower asked)).1 same,
      )
      refl
