-- ===== src/Client/Redis/Stored.antt =====
-- What is stored under a key, and by which operations.
use framego.Prelude.{
  ◌≡◌, refl, ap, sym, ◌∙◌, Bool, true, false, not, ◌&&◌, Option, none, some, if◌then◌else◌, arith,
  some-eq, ℕ,
}
use framego.Prelude.Int.{ℤ, pos}
use framego.Prelude.Text.{Str, is_same, is_same_refl}
use framego.Client.Codec.{Codec, Value, serialize}
use framego.Client.Codec.RoundTrip.{IsFaithful, IsValue, pointer_to, deserialize-serialize}
use framego.Client.Redis.{
  RedisError, nil, failure, Response, error, result, Server, CacheError, redis_get_request_error,
  redis_add_request_error, redis_update_request_error, redis_set_request_error,
  redis_add_serialize_value_error, redis_update_serialize_value_error,
  redis_set_serialize_value_error, Answer, err, ok, answered, with_serialized, and_deserialize, add,
  update, set, get,
}

abbrev pub is_present : Option Str → Bool
is_present none = false
is_present (some b) = true

-- What Redis documents of SET, SET NX, SET XX and GET, for a view of its state as what is under each key.
-- What is set without an expiration stays.
pub record IsStore {S : Type 0} (server : Server S) (view : S → Str → Option Str) : Type 0 where
  pub set_nx-added :
      (s s' : S) (k b : Str) (x : ℤ) (is_set : Bool)
      → server.set_nx s k b x ≡ (s', result is_set)
      → is_set ≡ not (is_present (view s k))
  pub set_nx-view :
      (s s' : S) (k b : Str) (x : ℤ) (is_set : Bool) (j : Str)
      → server.set_nx s k b x ≡ (s', result is_set)
      → view s' j ≡ (if is_set && is_same k j then some b else view s j)
  pub set_xx-updated :
      (s s' : S) (k b : Str) (x : ℤ) (is_set : Bool)
      → server.set_xx s k b x ≡ (s', result is_set)
      → is_set ≡ is_present (view s k)
  pub set_xx-view :
      (s s' : S) (k b : Str) (x : ℤ) (is_set : Bool) (j : Str)
      → server.set_xx s k b x ≡ (s', result is_set)
      → view s' j ≡ (if is_set && is_same k j then some b else view s j)
  pub set-view :
      (s s' : S) (k b : Str) (n : ℕ) (j : Str)
      → server.set s k b (pos 0) ≡ (s', result n)
      → view s' j ≡ (if is_same k j then some b else view s j)
  pub get-found : (s s' : S) (k b : Str) → server.get s k ≡ (s', result b) → view s k ≡ some b
  pub get-missing : (s s' : S) (k : Str) → server.get s k ≡ (s', error nil) → view s k ≡ none

ok-inj : {A : Type 0} {x y : A} → ok x ≡ ok y → x ≡ y
ok-inj h = cc

answered_ok :
    {S A : Type 0}
    → (s' : S) (wrap : RedisError → CacheError) (r : S × Response A) (a : A)
    → answered wrap r ≡ (s', ok a)
    → r ≡ (s', result a)
answered_ok s' wrap (s, error e) a h = absurd (ground (ap (λ (x : _ × Answer _). x.1) h, arith))
answered_ok s' wrap (s, result x) a h =
    let same_state = ap (λ (y : _ × Answer _). y.0) h in
    let same = ok-inj (ap (λ (y : _ × Answer _). y.1) h) in cc

-- An answer that is ok is the answer of a request with the value serialized.
sent :
    {S A : Type 0}
    → (s s' : S) (e : CacheError) (wrap : RedisError → CacheError) (request : Str → S × Response A)
      (o : Option Str) (a : A)
    → with_serialized s e (λ b. answered wrap (request b)) o ≡ (s', ok a)
    → (b : Str) × ((o ≡ some b) × (request b ≡ (s', result a)))
sent s s' e wrap request none a h = absurd (ground (ap (λ (x : _ × Answer _). x.1) h, arith))
sent s s' e wrap request (some b) a h = (b, (refl, answered_ok s' wrap (request b) a h))

-- The value itself, or an error of the request that is not `redis.Nil`.
abbrev pub IsFetched : Answer Value → Value → Type 0
IsFetched (ok w) v = w ≡ v
IsFetched (err (redis_get_request_error (failure n))) v = Unit {0}
IsFetched (err _) v = ⊥

module _ {S : Type 0} (server : Server S) (c : Codec) (view : S → Str → Option Str) where
  -- Add stores its value exactly if nothing is under the key and Update exactly if something is, and they say so; what they do not store leaves every key as it was; condition: the server does what Redis documents of SET NX and SET XX.
  pub add_update_lem :
      (s s1 s2 : S) (key j : Str) (v : Value) (x : ℤ) (added updated : Bool)
      → IsStore server view
      → add server c s key v x ≡ (s1, ok added)
      → update server c s key v x ≡ (s2, ok updated)
      → (added ≡ not (is_present (view s key)))
        × (updated ≡ is_present (view s key))
        × (view s1 j ≡ (if added && is_same key j then serialize c v else view s j))
        × (view s2 j ≡ (if updated && is_same key j then serialize c v else view s j))
  unfolding add update
  add_update_lem s s1 s2 key j v x added updated store h h' =
      let (b, (e, put)) =
        sent s s1 redis_add_serialize_value_error redis_add_request_error
          (λ t. server.set_nx s key t x) (serialize c v) added h in
      let (b', (e', put')) =
        sent s s2 redis_update_serialize_value_error redis_update_request_error
          (λ t. server.set_xx s key t x) (serialize c v) updated h' in
      (
        store.set_nx-added s s1 key b x added put,
        store.set_xx-updated s s2 key b' x updated put',
        rw e (store.set_nx-view s s1 key b x added j put),
        rw e' (store.set_xx-view s s2 key b' x updated j put'),
      )

  fetched :
      (v : Value) (b : Str) (s s' : S) (key : Str) (r : Response Str)
      → IsStore server view
      → IsFaithful c
      → IsValue c v
      → serialize c v ≡ some b
      → view s key ≡ some b
      → server.get s key ≡ (s', r)
      → IsFetched (and_deserialize c (pointer_to v) (answered redis_get_request_error (s', r))).1 v
  fetched v b s s' key (result t) store faithful value e stored got =
      let same = some-eq (sym (store.get-found s s' key t got) ∙ stored) in
      rw (same, deserialize-serialize c v b faithful value e) refl
  fetched v b s s' key (error (failure n)) store faithful value e stored got = tt
  fetched v b s s' key (error nil) store faithful value e stored got =
      absurd (ground (stored, store.get-missing s s' key got, arith))

  -- After Set without an expiration, Get with a pointer to the value's type gives the value, unless its request fails with an error other than `redis.Nil`; conditions: the server does what Redis documents of SET and GET, strconv reads back what it writes, the value's number is one of its width, and the value is not one that gob encodes.
  pub get-set :
      (s s' : S) (key : Str) (v : Value) (n : ℕ)
      → IsStore server view
      → IsFaithful c
      → IsValue c v
      → set server c s key v (pos 0) ≡ (s', ok n)
      → IsFetched (get server c s' key (pointer_to v)).1 v
  unfolding set get
  get-set s s' key v n store faithful value h =
      let (b, (e, put)) =
        sent s s' redis_set_serialize_value_error redis_set_request_error
          (λ t. server.set s key t (pos 0)) (serialize c v) n h in
      let stored = store.set-view s s' key b n key put in
      let r = server.get s' key in
      fetched v b s' r.0 key r.1 store faithful value e (rw (is_same_refl key) at stored) refl
