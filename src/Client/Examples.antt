-- ===== src/Client/Examples.antt =====
-- Instances for the clients: managers of two configurations, and a server that keeps a map.
use framego.Prelude.{
  subst, ℕ, ◌==◌, ◌≡◌, sym, refl, ap, Bool, true, false, not, ◌&&◌, List, [], ◌∷◌, Option, none,
  some, if◌then◌else◌, arith,
}
use framego.Prelude.Int.{ℤ, pos, negsuc}
use framego.Prelude.Text.{Str, bytes, is_same, find, put, find-put}
use framego.Client.Databases.{
  Config, ClientManager, new_client_manager, init_clients, init_gorm_clients,
}
use framego.Client.Codec.{w8, Codec, int, serialize}
use framego.Client.Codec.RoundTrip.{IsFaithful, pointer_to}
use framego.Client.Redis.{Server, Response, result, error, nil, ok, add, update, set, get}
use framego.Client.Redis.Stored.{IsStore, IsFetched, is_present, get-set}

abbrev main : Config
main = record { name = bytes "main"; type = bytes "Redis"; masters = bytes "a" ∷ []; slaves = [] }

abbrev main_again : Config
main_again = record {
  name = bytes "main";
  type = bytes "sql";
  masters = bytes "b" ∷ [];
  slaves = [];
}

-- Every client opens, as the number of its addresses.
abbrev opens : Config → Option (List Str)
opens config = some config.masters

abbrev made : ClientManager (List Str) (List Str)
made = record {
  configs = main ∷ [];
  gorm_clients = some ((bytes "main", bytes "a" ∷ []) ∷ []);
  sqlx_clients = none;
}

is_made : new_client_manager opens opens (main ∷ []) ≡ some made
unfolding new_client_manager init_gorm_clients init_clients
is_made = refl

-- Numbers as a sign and unary digits.
abbrev format : ℤ → Str
format (pos n) = 43 ∷ n ∷ []
format (negsuc n) = 45 ∷ n ∷ []

abbrev parsed : Str → Option ℤ
parsed (c ∷ n ∷ []) = if c == 43 then some (pos n) else some (negsuc n)
parsed _ = none

abbrev first : Str → Option ℕ
first [] = none
first (n ∷ s) = some n

abbrev codec : Codec
codec = record {
  format_int = format;
  parse_int = parsed;
  format_uint = λ u. u ∷ [];
  parse_uint = first;
  format_float = λ f. f ∷ [];
  parse_float = first;
  set_float = λ w f. f;
  gob_encode = λ t n. none;
  gob_decode = λ b p. none;
}

reads_ints : (i : ℤ) → parsed (format i) ≡ some i
reads_ints (pos n) = refl
reads_ints (negsuc n) = refl

codec-IsFaithful : IsFaithful codec
codec-IsFaithful = record {
  parse_int-format = λ i h. reads_ints i;
  parse_uint-format = λ u h. refl;
  parse_float-format = λ f. refl;
}

minus_five : serialize codec (int w8 (negsuc 4)) ≡ some (format (negsuc 4))
unfolding serialize
minus_five = refl

-- A server whose state is what is under each key.
abbrev Store : Type 0
Store = List (Str × Str)

abbrev put_if : Bool → Store → Str → Str → Store × Response Bool
put_if true s k b = (put k b s, result true)
put_if false s k b = (s, result false)

abbrev response : Option Str → Response Str
response none = error nil
response (some b) = result b

abbrev memory : Server Store
memory = record {
  set_nx = λ s k b x. put_if (not (is_present (find k s))) s k b;
  set_xx = λ s k b x. put_if (is_present (find k s)) s k b;
  set = λ s k b x. (put k b s, result 0);
  del = λ s ks. (s, error nil);
  count = λ s ks. (s, error nil);
  expire = λ s k x. (s, error nil);
  get = λ s k. (s, response (find k s));
  incr_by = λ s k n. (s, error nil);
  mget = λ s ks. (s, error nil);
  mset = λ s kv. (s, error nil);
}

abbrev view : Store → Str → Option Str
view s k = find k s

result-inj : {A : Type 0} {x y : A} → Response.result x ≡ result y → x ≡ y
result-inj h = cc

put_if_lem :
    (c : Bool) (s s' : Store) (k b : Str) (is_set : Bool) (j : Str)
    → put_if c s k b ≡ (s', result is_set)
    → (is_set ≡ c) × (find j s' ≡ (if is_set && is_same k j then some b else find j s))
put_if_lem true s s' k b is_set j h =
    let e = result-inj (ap (λ (x : Store × Response Bool). x.1) h) in
    let e' = ap (λ (x : Store × Response Bool). x.0) h in (sym e, rw (← e, ← e') (find-put j k b s))
put_if_lem false s s' k b is_set j h =
    let e = result-inj (ap (λ (x : Store × Response Bool). x.1) h) in
    let e' = ap (λ (x : Store × Response Bool). x.0) h in (sym e, rw (← e, ← e') refl)

response_found : (o : Option Str) (b : Str) → response o ≡ result b → o ≡ some b
response_found none b h = absurd (ground (h, arith))
response_found (some x) b h = ap some (result-inj h)

response_missing : (o : Option Str) → response o ≡ error nil → o ≡ none
response_missing none h = refl
response_missing (some x) h = absurd (ground (h, arith))

memory-IsStore : IsStore memory view
memory-IsStore = record {
  set_nx-added =
      λ s s' k b x is_set h. (put_if_lem (not (is_present (find k s))) s s' k b is_set k h).0;
  set_nx-view =
      λ s s' k b x is_set j h. (put_if_lem (not (is_present (find k s))) s s' k b is_set j h).1;
  set_xx-updated =
      λ s s' k b x is_set h. (put_if_lem (is_present (find k s)) s s' k b is_set k h).0;
  set_xx-view = λ s s' k b x is_set j h. (put_if_lem (is_present (find k s)) s s' k b is_set j h).1;
  set-view = λ s s' k b n j h.
      subst (λ (t : Store). find j t ≡ (if is_same k j then some b else find j s))
        (ap (λ (y : Store × Response ℕ). y.0) h) (find-put j k b s);
  get-found = λ s s' k b h. response_found (find k s) b (ap (λ (y : Store × Response Str). y.1) h);
  get-missing = λ s s' k h. response_missing (find k s) (ap (λ (y : Store × Response Str). y.1) h);
}

abbrev stored : Store
stored = (bytes "k", format (negsuc 4)) ∷ []

added_five : add memory codec [] (bytes "k") (int w8 (negsuc 4)) (pos 0) ≡ (stored, ok true)
unfolding add serialize
added_five = refl

not_updated : update memory codec [] (bytes "k") (int w8 (negsuc 4)) (pos 0) ≡ ([], ok false)
unfolding update serialize
not_updated = refl

set_five : set memory codec [] (bytes "k") (int w8 (negsuc 4)) (pos 0) ≡ (stored, ok 0)
unfolding set serialize
set_five = refl

get-set_example :
    IsFetched
      (get memory codec stored (bytes "k") (pointer_to (int w8 (negsuc 4)))).1
      (int w8 (negsuc 4))
get-set_example =
    get-set memory codec view [] stored (bytes "k") (int w8 (negsuc 4)) 0 memory-IsStore
      codec-IsFaithful (ground arith) set_five
