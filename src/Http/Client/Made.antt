-- ===== src/Http/Client/Made.antt =====
-- What a client is made with.
use framego.Prelude.{
  ◌≡◌, refl, Bool, true, false, List, [], ◌∷◌, Option, none, some, if◌then◌else◌, arith,
}
use framego.Prelude.Int.{ℤ, pos, negsuc}
use framego.Http.Client.{
  Options, ClientOption, timeout, raw_client_type, Client, default_client, fast_http_client,
  apply_option, apply_all, client_of, get_client, client_net_http, is_type, client_fast_http,
}

-- The timeout that is set last, and whether the type that is set last, of those in range, is the fast one.
abbrev pub last_timeout : ℤ → List ClientOption → ℤ
last_timeout t [] = t
last_timeout t (timeout t' ∷ later) = last_timeout t' later
last_timeout t (raw_client_type n ∷ later) = last_timeout t later

-- Whether a type in range is the fast one.
abbrev pub fast_type : ℤ → Option Bool
fast_type n =
    if is_type n client_net_http
    then some false
    else if is_type n client_fast_http
    then some true
    else none

abbrev pub last_is_fast : Bool → List ClientOption → Bool
last_is_fast b [] = b
last_is_fast b (timeout t ∷ later) = last_is_fast b later
last_is_fast b (raw_client_type n ∷ later) =
    last_is_fast (elim (fast_type n) [ none ↦ b | some c ↦ c ]) later

abbrev pub client_with : ℤ → Bool → Client
client_with t b = if b then fast_http_client t else default_client t

abbrev options_with : ℤ → Bool → Options
options_with t b = record { timeout = t; client_type = if b then pos 2 else pos 1 }

apply_type :
    (n t : ℤ) (b : Bool)
    → apply_option (options_with t b) (raw_client_type n)
      ≡ options_with t (elim (fast_type n) [ none ↦ b | some c ↦ c ])
unfolding apply_option
apply_type (pos n) t true = grind arith
apply_type (pos n) t false = grind arith
apply_type (negsuc n) t true = ground arith
apply_type (negsuc n) t false = ground arith

apply_all_last :
    (fs : List ClientOption) (t : ℤ) (b : Bool)
    → apply_all (options_with t b) fs ≡ options_with (last_timeout t fs) (last_is_fast b fs)
unfolding apply_all
apply_all_last [] t b = refl
apply_all_last (timeout t' ∷ fs) t b = apply_all_last fs t' b
apply_all_last (raw_client_type n ∷ fs) t b =
    rw (apply_type n t b) (apply_all_last fs t (elim (fast_type n) [ none ↦ b | some c ↦ c ]))

client_of-options_with : (t : ℤ) (b : Bool) → client_of (options_with t b) ≡ some (client_with t b)
unfolding client_of
client_of-options_with t true = refl
client_of-options_with t false = refl

-- `GetClient` gives a client for any options: the fast one if the last type in range that is set is
-- the fast one, or else the default one, with the timeout that is set last, ten seconds if none is.
pub get_client_last :
    (fs : List ClientOption)
    → get_client fs ≡ some (client_with (last_timeout (pos 10000000000) fs) (last_is_fast false fs))
unfolding get_client
get_client_last fs =
    rw (apply_all_last fs (pos 10000000000) false)
      (client_of-options_with (last_timeout (pos 10000000000) fs) (last_is_fast false fs))
