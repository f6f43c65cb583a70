-- ===== src/Grpcex/Metadata.antt =====
-- grpcex/header.go and grpcex/auth.go: what a handler reads from the metadata of a call. The prefix and the
-- header matcher of grpc-gateway are parameters; the keys of incoming metadata are in lower case.
pub mod Reads
use framego.Prelude.{
  ℕ, Bool, true, false, List, [], ◌∷◌, ◌++◌, Option, none, some, ◌==◌, if◌then◌else◌,
}
use framego.Prelude.Text.{Str, bytes, has_prefix, to_lower, find}

abbrev pub Metadata : Type 0
Metadata = List (Str × List Str)

-- The metadata of a context; a context without any reads as a nil map.
abbrev pub meta_of : Option Metadata → Metadata
meta_of none = []
meta_of (some md) = md

abbrev pub first_or_empty : List Str → Str
first_or_empty [] = []
first_or_empty (value ∷ values) = value

abbrev pub or_under : Option (List Str) → Str → Str
or_under none other_value = other_value
or_under (some values) other_value = first_or_empty values

unfoldable pub get_header : Str → Option Metadata → Str → Str
get_header metadata_prefix ctx key =
    let lower_key = to_lower key in
    let prefixed = or_under (find (metadata_prefix ++ lower_key) (meta_of ctx)) [] in
    or_under (find lower_key (meta_of ctx)) prefixed

abbrev pub matched : Option Str → Option Str → Option Str
matched none key = key
matched (some new_key) key = some new_key

-- `none` is a header that is not let through.
unfoldable pub default_header_matcher : Str → (Str → Option Str) → Str → Option Str
default_header_matcher metadata_prefix matcher key = matched (matcher key) (
    let lower_key = to_lower key in
    if has_prefix lower_key (bytes "x-") then some (metadata_prefix ++ lower_key) else none)

-- `ip[:comma]` at the first comma, unless there is none.
abbrev pub before_comma : Str → Str
before_comma [] = []
before_comma (c ∷ s) = let rest = before_comma s in if c == b',' then [] else c ∷ rest

-- A comma at the start is left.
abbrev pub first_ip : Str → Str
first_ip [] = []
first_ip (c ∷ s) = let rest = before_comma s in if c == b',' then c ∷ s else c ∷ rest

abbrev pub forwarded : Option Metadata → Str
forwarded none = []
forwarded (some md) = first_ip (or_under (find (bytes "x-forwarded-for") md) [])

abbrev pub or_peer : Str → Option Str → Str
or_peer [] none = []
or_peer [] (some addr) = addr
or_peer (c ∷ ip) peer = c ∷ ip

-- With the address of the peer in the context, if there is one.
unfoldable pub get_client_ip : Option Metadata → Option Str → Str
get_client_ip ctx peer = or_peer (forwarded ctx) peer

abbrev pub token_auth_header : Str
token_auth_header = bytes "authorization"

abbrev pub token_auth_prefix : Str
token_auth_prefix = bytes "Bearer "

-- GetRequestMetadata of a TokenAuth.
unfoldable pub get_request_metadata : Str → List (Str × Str)
get_request_metadata token = (token_auth_header, token_auth_prefix ++ token) ∷ []

abbrev pub drop : {A : Type 0} → List A → List A → List A
drop [] s = s
drop (p ∷ ps) [] = []
drop (p ∷ ps) (c ∷ s) = drop ps s

abbrev pub after_prefix : Str → Str
after_prefix auth = if has_prefix auth token_auth_prefix then drop token_auth_prefix auth else []

unfoldable pub get_auth_token : Option Metadata → Str
get_auth_token none = []
get_auth_token (some md) = after_prefix (or_under (find token_auth_header md) [])
