-- ===== src/Grpcex/Metadata/Reads.antt =====
-- What a handler finds of a token and of a client's address.
use framego.Prelude.{ℕ, ◌≡◌, ◌≢◌, refl, false, List, [], ◌∷◌, ◌++◌, Option, some, ◌==◌, arith}
use framego.Prelude.Text.{Str, bytes, find}
use framego.Grpcex.Metadata.{
  Metadata, get_auth_token, get_request_metadata, get_client_ip, before_comma,
}

-- The metadata of a client's credentials as the server sees them, before the rest.
abbrev pub sent_with : List (Str × Str) → Metadata → Metadata
sent_with [] md = md
sent_with ((k, v) ∷ kv) md = (k, v ∷ []) ∷ sent_with kv md

-- The token of a client's credentials is the token that the handler reads.
pub get_auth_token-get_request_metadata :
    (token : Str) (md : Metadata)
    → get_auth_token (some (sent_with (get_request_metadata token) md)) ≡ token
unfolding get_auth_token get_request_metadata
get_auth_token-get_request_metadata token md = refl

abbrev pub HasNoComma : Str → Type 0
HasNoComma [] = Unit {0}
HasNoComma (c ∷ s) = (c ≢ b',') × HasNoComma s

before_comma-append : (ip rest : Str) → HasNoComma ip → before_comma (ip ++ b',' ∷ rest) ≡ ip
before_comma-append [] rest h = ground arith
before_comma-append (c ∷ ip) rest h =
    let ih = before_comma-append ip rest h.1 in
    let no : (c == b',') ≡ false = ground (h.0, arith) in rw (no, ih) refl

-- Of the addresses that a proxy hands on, the client's is the first, whatever the peer; condition: the first is not empty and has no comma.
pub get_client_ip_first :
    (c : ℕ) (ip rest : Str) (md : Metadata) (peer : Option Str)
    → HasNoComma (c ∷ ip)
    → find (bytes "x-forwarded-for") md ≡ some ((c ∷ ip ++ b',' ∷ rest) ∷ [])
    → get_client_ip (some md) peer ≡ c ∷ ip
unfolding get_client_ip
get_client_ip_first c ip rest md peer h e =
    let no : (c == b',') ≡ false = ground (h.0, arith) in
    rw (e, no, before_comma-append ip rest h.1) refl
