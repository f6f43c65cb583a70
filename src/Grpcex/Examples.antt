-- ===== src/Grpcex/Examples.antt =====
-- Instances for access control.
use framego.Prelude.{
  ◌≡◌, ◌↔◌, ◌⊎◌, refl, Bool, true, false, ◌&&◌, [], ◌∷◌, Option, none, some, ◌==◌,
}
use framego.Grpcex.Access.{
  Str, Enforcer, AuthInfo, tls, granted, panics, is_open, base_name, check_access,
}
use framego.Grpcex.Access.Granted.{IsAllowed, check_access_iff}

abbrev is_same : Str → Str → Bool
is_same [] [] = true
is_same (a ∷ x) (b ∷ y) = let rest = is_same x y in a == b && rest
is_same _ _ = false

abbrev shop : Str
shop = b's' ∷ b'h' ∷ b'o' ∷ b'p' ∷ []

abbrev get : Str
get = b'G' ∷ b'e' ∷ b't' ∷ []

abbrev full_method : Str
full_method = b'/' ∷ b'a' ∷ b'.' ∷ b'B' ∷ b'/' ∷ b'G' ∷ b'e' ∷ b't' ∷ []

-- The policy lets the service shop call the method Get.
abbrev policy : Enforcer
policy service method = some (is_same service shop && is_same method get)

abbrev client : Option (Option AuthInfo)
client = some (some (tls (record { common_name = []; dns_names = get ∷ shop ∷ [] } ∷ [])))

let_in : check_access policy client full_method ≡ granted
unfolding check_access
let_in = refl

plain_text : check_access policy (some none) full_method ≡ panics
unfolding check_access
plain_text = refl

check_access_iff_example :
    (check_access policy client full_method ≡ granted)
    ↔ ((is_open full_method ≡ true) ⊎ IsAllowed policy client (base_name full_method))
check_access_iff_example = check_access_iff policy client full_method
