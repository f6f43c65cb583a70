-- ===== src/Appmgr/Clients/Conns.antt =====
-- The endpoints of a server.
use framego.Prelude.{◌≡◌, ◌≢◌, refl, false, List, [], ◌∷◌, ◌++◌, Option, none, some, ◌==◌, arith}
use framego.Prelude.Text.{Str, find}
use framego.Appmgr.Clients.{
  split, first_conn, get_grpc_client_conn, get_grpc_client_conns, conns_or_nil,
}

-- The parts with a comma between each two.
abbrev pub join : List Str → Str
join [] = []
join (s ∷ []) = s
join (s ∷ t ∷ ss) = s ++ b',' ∷ join (t ∷ ss)

abbrev pub HasNoComma : Str → Type 0
HasNoComma [] = Unit {0}
HasNoComma (c ∷ s) = (c ≢ b',') × HasNoComma s

abbrev pub AllHaveNoComma : List Str → Type 0
AllHaveNoComma [] = Unit {0}
AllHaveNoComma (s ∷ ss) = HasNoComma s × AllHaveNoComma ss

split_one : (s : Str) → HasNoComma s → split s ≡ s ∷ []
unfolding split
split_one [] h = refl
split_one (c ∷ s) h =
    let no : (c == b',') ≡ false = ground (h.0, arith) in rw (no, split_one s h.1) refl

split-append : (s rest : Str) → HasNoComma s → split (s ++ b',' ∷ rest) ≡ s ∷ split rest
unfolding split
split-append [] rest h = ground arith
split-append (c ∷ s) rest h =
    let no : (c == b',') ≡ false = ground (h.0, arith) in rw (no, split-append s rest h.1) refl

-- Endpoints that are written with commas between them are the endpoints that clients are made for; conditions: there is one, and none has a comma.
pub split-join :
    (s : Str) (ss : List Str) → AllHaveNoComma (s ∷ ss) → split (join (s ∷ ss)) ≡ s ∷ ss
split-join s [] h = split_one s h.0
split-join s (t ∷ ss) h = rw (split-append s (join (t ∷ ss)) h.0, split-join t ss h.1) refl

-- `GetGrpcClientConn` gives the first of the clients that `GetGrpcClientConns` gives.
pub get_grpc_client_conn-eq :
    {C : Type 0}
    → (clients : List (Str × List C)) (name : Str)
    → get_grpc_client_conn clients name ≡ first_conn (some (get_grpc_client_conns clients name))
unfolding get_grpc_client_conn get_grpc_client_conns
get_grpc_client_conn-eq clients name = first_of (find name clients)
  where
    first_of :
        {C : Type 0} (o : Option (List C)) → first_conn o ≡ first_conn (some (conns_or_nil o))
    first_of none = refl
    first_of (some []) = refl
    first_of (some (c ∷ cs)) = refl
