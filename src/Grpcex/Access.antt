-- ===== src/Grpcex/Access.antt =====
-- grpcex/access_controller.go. Strings are lists of bytes. The casbin enforcer is a parameter: what
-- `Enforce` answers for a service and a method, `none` for an error.
pub mod Controller
pub mod Granted
pub mod Intercepts
pub mod NoPeer
use framego.Prelude.{
  ℕ, Bool, true, false, not, ◌||◌, List, [], ◌∷◌, Option, none, some, ◌==◌, if◌then◌else◌,
}

abbrev pub Str : Type 0
Str = List ℕ

abbrev pub Enforcer : Type 0
Enforcer = Str → Str → Option Bool

pub record Certificate : Type 0 where
  pub common_name : Str
  pub dns_names : List Str

-- `AuthType()` and what the assertion of `credentials.TLSInfo` gives.
pub data AuthInfo : Type 0 where
  inproc tls_not_found : AuthInfo
  tls : List Certificate → AuthInfo
  other : Str → AuthInfo

-- `panics` is the call of `AuthType` on a nil interface. Each denial is `Unauthenticated`.
pub data Verdict : Type 0 where
  granted panics peer_not_found_in_context access_denied auth_tls_info_not_found peer_cert_not_found
        auth_type_not_supported :
      Verdict

abbrev pub reflection_service_name : Str
reflection_service_name =
    b'/' ∷ b'g' ∷ b'r' ∷ b'p' ∷ b'c' ∷ b'.' ∷ b'r' ∷ b'e' ∷ b'f' ∷ b'l' ∷ b'e' ∷ b'c' ∷ b't' ∷ b'i'
    ∷ b'o' ∷ b'n' ∷ b'.' ∷ b'v' ∷ b'1' ∷ b'a' ∷ b'l' ∷ b'p' ∷ b'h' ∷ b'a' ∷ b'.' ∷ b'S' ∷ b'e'
    ∷ b'r' ∷ b'v' ∷ b'e' ∷ b'r' ∷ b'R' ∷ b'e' ∷ b'f' ∷ b'l' ∷ b'e' ∷ b'c' ∷ b't' ∷ b'i' ∷ b'o'
    ∷ b'n' ∷ b'/' ∷ []

abbrev pub channelz_service_name : Str
channelz_service_name =
    b'/' ∷ b'g' ∷ b'r' ∷ b'p' ∷ b'c' ∷ b'.' ∷ b'c' ∷ b'h' ∷ b'a' ∷ b'n' ∷ b'n' ∷ b'e' ∷ b'l' ∷ b'z'
    ∷ b'.' ∷ b'v' ∷ b'1' ∷ b'.' ∷ b'C' ∷ b'h' ∷ b'a' ∷ b'n' ∷ b'n' ∷ b'e' ∷ b'l' ∷ b'z' ∷ b'/' ∷ []

abbrev pub health_service_name : Str
health_service_name =
    b'/' ∷ b'g' ∷ b'r' ∷ b'p' ∷ b'c' ∷ b'.' ∷ b'h' ∷ b'e' ∷ b'a' ∷ b'l' ∷ b't' ∷ b'h' ∷ b'.' ∷ b'v'
    ∷ b'1' ∷ b'.' ∷ b'H' ∷ b'e' ∷ b'a' ∷ b'l' ∷ b't' ∷ b'h' ∷ b'/' ∷ []

abbrev pub anonymous_service_name : Str
anonymous_service_name =
    b'<' ∷ b'a' ∷ b'n' ∷ b'o' ∷ b'n' ∷ b'y' ∷ b'm' ∷ b'o' ∷ b'u' ∷ b's' ∷ b'>' ∷ []

abbrev pub has_prefix : Str → Str → Bool
has_prefix s [] = true
has_prefix [] (p ∷ ps) = false
has_prefix (c ∷ s) (p ∷ ps) = let rest = has_prefix s ps in if c == p then rest else false

abbrev pub is_open : Str → Bool
is_open method =
    has_prefix method reflection_service_name
    || (has_prefix method channelz_service_name || has_prefix method health_service_name)

-- What follows the last `/`, or else the whole: `whole` if there is none.
abbrev pub after_slash : Str → Str → Str
after_slash whole [] = whole
after_slash whole (c ∷ cs) =
    let here = after_slash cs cs in
    let later = after_slash whole cs in if c == b'/' then here else later

abbrev pub base_name : Str → Str
base_name method = after_slash method method

abbrev pub check_service_access : Enforcer → Str → Str → Bool
check_service_access enforce service method = elim (enforce service method) [
  | none ↦ false
  | some ok ↦ ok
]

check_names : Enforcer → List Str → Str → Verdict
check_names enforce [] method = access_denied
check_names enforce (name ∷ names) method =
    let rest = check_names enforce names method in
    if check_service_access enforce name method then granted else rest

check_common_name : Enforcer → Str → List Str → Str → Verdict
unfolding check_names
check_common_name enforce [] names method = check_names enforce names method
check_common_name enforce (c ∷ cs) names method =
    if check_service_access enforce (c ∷ cs) method
    then granted
    else check_names enforce names method

check_client : Enforcer → Option AuthInfo → Str → Verdict
unfolding check_common_name
check_client enforce none method = panics
check_client enforce (some inproc) method =
    if check_service_access enforce anonymous_service_name method then granted else access_denied
check_client enforce (some tls_not_found) method = auth_tls_info_not_found
check_client enforce (some (tls [])) method = peer_cert_not_found
check_client enforce (some (tls (cert ∷ certs))) method =
    check_common_name enforce cert.common_name cert.dns_names method
check_client enforce (some (other name)) method = auth_type_not_supported

-- The peer in the context, if there is one, with its `AuthInfo`, if it has one.
check_peer : Enforcer → Option (Option AuthInfo) → Str → Verdict
unfolding check_client
check_peer enforce none method = peer_not_found_in_context
check_peer enforce (some info) method = check_client enforce info method

unfoldable pub check_access : Enforcer → Option (Option AuthInfo) → Str → Verdict
unfolding check_peer
check_access enforce peer method =
    if is_open method then granted else check_peer enforce peer (base_name method)

-- The unary interceptor: the handler's answer, if the access was granted.
pub unary_server_interceptor :
    {A : Type 0} → Enforcer → Option (Option AuthInfo) → Str → A → Option A
unfolding check_access
unary_server_interceptor enforce peer method answer = elim (check_access enforce peer method) [
  | granted ↦ some answer
  | _ ↦ none
]
