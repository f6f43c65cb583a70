-- ===== src/Http/Client.antt =====
-- client/http/client.go: the options of a client (`GetClient`).
pub mod Made
use framego.Prelude.{
  Bool, true, false, ◌||◌, ◌&&◌, List, [], ◌∷◌, Option, none, some, if◌then◌else◌,
}
use framego.Prelude.Int.{ℤ, pos, ltb_ℤ, leb_ℤ}

abbrev pub client_net_http : ℤ
client_net_http = pos 1

abbrev pub client_fast_http : ℤ
client_fast_http = pos 2

-- The timeout in nanoseconds.
pub record Options : Type 0 where
  pub timeout : ℤ
  pub client_type : ℤ

pub data ClientOption : Type 0 where
  timeout raw_client_type : ℤ → ClientOption

unfoldable pub apply_option : Options → ClientOption → Options
apply_option o (timeout t) = record o { timeout = t }
apply_option o (raw_client_type n) =
    if ltb_ℤ n client_net_http || ltb_ℤ client_fast_http n then o else record o { client_type = n }

unfoldable pub apply_all : Options → List ClientOption → Options
unfolding apply_option
apply_all o [] = o
apply_all o (f ∷ fs) = apply_all (apply_option o f) fs

-- A client with the timeout of its calls.
pub data Client : Type 0 where
  default_client fast_http_client : ℤ → Client

abbrev pub default_options : Options
default_options = record { timeout = pos 10000000000; client_type = client_net_http }

abbrev pub is_type : ℤ → ℤ → Bool
is_type a b = leb_ℤ a b && leb_ℤ b a

-- `none` is the nil client at the end of the function.
unfoldable pub client_of : Options → Option Client
client_of o =
    if is_type o.client_type client_net_http
    then some (default_client o.timeout)
    else if is_type o.client_type client_fast_http
    then some (fast_http_client o.timeout)
    else none

unfoldable pub get_client : List ClientOption → Option Client
unfolding apply_all client_of
get_client opts = client_of (apply_all default_options opts)
