-- ===== src/Client/Redis.antt =====
-- client/cache/redis.go. The server behind go-redis is a parameter: what it answers, and the state that
-- it goes to.
pub mod Stored
use framego.Prelude.{ℕ, Bool, true, false, List, [], ◌∷◌, Option, none, some}
use framego.Prelude.Int.{ℤ}
use framego.Prelude.Text.{Str}
use framego.Client.Codec.{Codec, Value, Pointer, serialize, deserialize}

-- An error of go-redis: `redis.Nil`, or another.
pub data RedisError : Type 0 where
  nil : RedisError
  failure : ℕ → RedisError

pub data Response {ℓ} (A : Type ℓ) : Type ℓ where
  error : RedisError → Response A
  result : A → Response A

-- One of the values of an MGET, which is a string if it is anything.
pub data MgetItem : Type 0 where
  no_item : MgetItem
  string_item : Str → MgetItem
  other_item : ℕ → MgetItem

pub record Server (S : Type 0) : Type 0 where
  pub set_nx : S → Str → Str → ℤ → S × Response Bool
  pub set_xx : S → Str → Str → ℤ → S × Response Bool
  pub set : S → Str → Str → ℤ → S × Response ℕ
  pub del : S → List Str → S × Response ℤ
  pub count : S → List Str → S × Response ℤ
  pub expire : S → Str → ℤ → S × Response Bool
  pub get : S → Str → S × Response Str
  pub incr_by : S → Str → ℤ → S × Response ℤ
  pub mget : S → List Str → S × Response (List MgetItem)
  pub mset : S → List (Str × Str) → S × Response ℕ

-- The errors of the client by their messages, with the error of go-redis that they wrap.
pub data CacheError : Type 0 where
  redis_add_serialize_value_error : CacheError
  redis_add_request_error : RedisError → CacheError
  redis_delete_request_error : RedisError → CacheError
  redis_exists_request_error : RedisError → CacheError
  redis_expire_request_error : RedisError → CacheError
  redis_get_request_error : RedisError → CacheError
  redis_get_deserialize_value_error : CacheError
  redis_incrby_request_error : RedisError → CacheError
  redis_mget_request_error : RedisError → CacheError
  redis_mget_convert_value_error : CacheError
  redis_mget_deserialize_value_error : CacheError
  redis_mset_serialize_value_error : CacheError
  redis_mset_request_error : RedisError → CacheError
  redis_set_serialize_value_error : CacheError
  redis_set_request_error : RedisError → CacheError
  redis_update_serialize_value_error : CacheError
  redis_update_request_error : RedisError → CacheError

pub data Answer {ℓ} (A : Type ℓ) : Type ℓ where
  err : CacheError → Answer A
  ok : A → Answer A

abbrev pub wrapped {ℓ} : {A : Type ℓ} → (RedisError → CacheError) → Response A → Answer A
wrapped wrap (error e) = err (wrap e)
wrapped wrap (result a) = ok a

abbrev pub answered {ℓ} :
    {S : Type 0} {A : Type ℓ} → (RedisError → CacheError) → S × Response A → S × Answer A
answered wrap (s, r) = (s, wrapped wrap r)

-- The request with the serialized value, or the error.
abbrev pub with_serialized {ℓ} :
    {S : Type 0} {A : Type ℓ} → S → CacheError → (Str → S × Answer A) → Option Str → S × Answer A
with_serialized s e request none = (s, err e)
with_serialized s e request (some b) = request b

abbrev pub deserialized : Option Value → Answer Value
deserialized none = err redis_get_deserialize_value_error
deserialized (some v) = ok v

abbrev pub and_deserialize : {S : Type 0} → Codec → Pointer → S × Answer Str → S × Answer Value
and_deserialize c ptr (s, err e) = (s, err e)
and_deserialize c ptr (s, ok b) = (s, deserialized (deserialize c b ptr))

-- A slot of the map of MGet: nil, a pointer, or a pointer with the value that was read.
pub data Slot : Type 0 where
  nil_slot : Slot
  empty : Pointer → Slot
  filled : Pointer → Value → Slot

abbrev pub pointer_in : Slot → Pointer
pointer_in nil_slot = Pointer.no_pointer
pointer_in (empty ptr) = ptr
pointer_in (filled ptr v) = ptr

-- Nothing is kept where there is no pointer.
abbrev pub read_into : Slot → Value → Slot
read_into nil_slot v = nil_slot
read_into (empty ptr) v = filled ptr v
read_into (filled ptr old) v = filled ptr v

-- What is left to do after one key: an error stops the loop, with the map as it is then.
pub data Filled : Type 0 where
  panicked : Filled
  stopped : List (Str × Slot) → CacheError → Filled
  done : List (Str × Slot) → Filled

abbrev pub cons_slot : Str → Slot → Filled → Filled
cons_slot k slot panicked = panicked
cons_slot k slot (stopped kv e) = stopped ((k, slot) ∷ kv) e
cons_slot k slot (done kv) = done ((k, slot) ∷ kv)

abbrev pub fill_slot : Str → Slot → List (Str × Slot) → Option Value → Filled → Filled
fill_slot k slot kv none rest = stopped ((k, slot) ∷ kv) redis_mget_deserialize_value_error
fill_slot k slot kv (some v) rest = cons_slot k (read_into slot v) rest

-- The loop of MGet over the keys, in the order of the request; `result[i]` past the end panics.
unfoldable pub fill : Codec → List (Str × Slot) → List MgetItem → Filled
fill c [] items = done []
fill c ((k, slot) ∷ kv) [] = panicked
fill c ((k, slot) ∷ kv) (no_item ∷ items) = cons_slot k nil_slot (fill c kv items)
fill c ((k, slot) ∷ kv) (string_item sv ∷ items) =
    fill_slot k slot kv (deserialize c sv (pointer_in slot)) (fill c kv items)
fill c ((k, slot) ∷ kv) (other_item n ∷ items) =
    stopped ((k, slot) ∷ kv) redis_mget_convert_value_error

abbrev pub keys_of : {A : Type 0} → List (Str × A) → List Str
keys_of [] = []
keys_of ((k, a) ∷ kv) = k ∷ keys_of kv

abbrev pub fill_answered :
    {S : Type 0} → Codec → List (Str × Slot) → S × Response (List MgetItem) → S × Filled
fill_answered c kv (s, error e) = (s, stopped kv (redis_mget_request_error e))
fill_answered c kv (s, result items) = (s, fill c kv items)

abbrev pub cons_serialized :
    Str → Option Str → Option (List (Str × Str)) → Option (List (Str × Str))
cons_serialized k none rest = none
cons_serialized k (some b) none = none
cons_serialized k (some b) (some skv) = some ((k, b) ∷ skv)

abbrev pub serialize_all : Codec → List (Str × Value) → Option (List (Str × Str))
serialize_all c [] = some []
serialize_all c ((k, v) ∷ kv) = cons_serialized k (serialize c v) (serialize_all c kv)

abbrev pub mset_answered : {S : Type 0} → Server S → S → Option (List (Str × Str)) → S × Answer ℕ
mset_answered server s none = (s, err redis_mset_serialize_value_error)
mset_answered server s (some skv) = answered redis_mset_request_error (server.mset s skv)

module _ {S : Type 0} (server : Server S) (c : Codec) where
  unfoldable pub add : S → Str → Value → ℤ → S × Answer Bool
  add s key value expiration =
      with_serialized s redis_add_serialize_value_error
        (λ b. answered redis_add_request_error (server.set_nx s key b expiration))
        (serialize c value)

  unfoldable pub update : S → Str → Value → ℤ → S × Answer Bool
  update s key value expiration =
      with_serialized s redis_update_serialize_value_error
        (λ b. answered redis_update_request_error (server.set_xx s key b expiration))
        (serialize c value)

  unfoldable pub set : S → Str → Value → ℤ → S × Answer ℕ
  set s key value expiration =
      with_serialized s redis_set_serialize_value_error
        (λ b. answered redis_set_request_error (server.set s key b expiration)) (serialize c value)

  unfoldable pub get : S → Str → Pointer → S × Answer Value
  get s key ptr = and_deserialize c ptr (answered redis_get_request_error (server.get s key))

  unfoldable pub delete : S → List Str → S × Answer ℤ
  delete s keys = answered redis_delete_request_error (server.del s keys)

  unfoldable pub exists : S → List Str → S × Answer ℤ
  exists s keys = answered redis_exists_request_error (server.count s keys)

  unfoldable pub expire : S → Str → ℤ → S × Answer Bool
  expire s key expiration = answered redis_expire_request_error (server.expire s key expiration)

  unfoldable pub incr_by : S → Str → ℤ → S × Answer ℤ
  incr_by s key value = answered redis_incrby_request_error (server.incr_by s key value)

  unfoldable pub mget : S → List (Str × Slot) → S × Filled
  unfolding fill
  mget s kv = fill_answered c kv (server.mget s (keys_of kv))

  unfoldable pub mset : S → List (Str × Value) → S × Answer ℕ
  mset s kv = mset_answered server s (serialize_all c kv)
