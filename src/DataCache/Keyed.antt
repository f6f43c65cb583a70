-- ===== src/DataCache/Keyed.antt =====
-- datacache/datacachemap.go. Items are addresses on a heap, since goroutines hold on to an item that
-- the map may have lost. Keys are numbers. Each definition is a stretch that runs under one lock, or
-- the stretches that follow each other in one call with nothing in between.
pub mod Evict
pub mod GetMany
pub mod Answers
pub mod Claimed
pub mod Scanned
pub mod Batch
pub mod Held
pub mod Once
pub mod Steps
mod Examples
use framego.Prelude.{
  ℕ, suc, Bool, true, false, List, [], ◌∷◌, ◌++◌, ◌+◌, Option, none, some, ◌==◌, if◌then◌else◌,
}
use framego.Prelude.Int.{ℤ, pos, ltb_ℤ, leb_ℤ, add_i64, mul_i64}
use framego.Prelude.Assoc.{lookup, insert, delete_all}
use framego.DataCache.Single.{milli_to_nano_second, default_retry_interval, positive_or}

pub record CacheItem (V : Type 0) : Type 0 where
  pub data_ : Option V
  pub next_update_time : ℤ
  pub init_cut_off_time : ℤ
  pub evict_time : ℤ

-- Durations in milliseconds.
pub record CacheMapOption : Type 0 where
  pub expiration : ℤ
  pub expiration_on_err : ℤ
  pub evict_timeout : ℤ
  pub retry_interval : ℤ
  pub wait_timeout : ℤ

-- Durations in nanoseconds. `next` is the address of the item that is made next.
pub record CacheMap (V : Type 0) : Type 0 where
  pub data_map : List (ℕ × ℕ)
  pub items : ℕ → CacheItem V
  pub next : ℕ
  pub expiration : ℤ
  pub expiration_on_err : ℤ
  pub retry_interval : ℤ
  pub wait_timeout : ℤ
  pub evict_timeout : ℤ

abbrev pub evict_timeout_of : ℤ → ℤ → ℤ
evict_timeout_of timeout expiration =
    if leb_ℤ timeout expiration then mul_i64 expiration (pos 2) else timeout

abbrev pub count : Bool → ℕ
count b = if b then 1 else 0

module _ {V : Type 0} where
  abbrev pub new_item : CacheMap V → ℤ → CacheItem V
  new_item c now = record {
    data_ = none;
    next_update_time = add_i64 now c.retry_interval;
    init_cut_off_time = add_i64 now c.wait_timeout;
    evict_time = add_i64 now c.evict_timeout;
  }

  unfoldable pub new_cache_map : CacheMapOption → CacheMap V
  new_cache_map opt = record {
    data_map = [];
    items = λ a. record {
      data_ = none;
      next_update_time = pos 0;
      init_cut_off_time = pos 0;
      evict_time = pos 0;
    };
    next = 0;
    expiration = mul_i64 opt.expiration milli_to_nano_second;
    expiration_on_err = mul_i64 opt.expiration_on_err milli_to_nano_second;
    retry_interval =
        positive_or default_retry_interval (mul_i64 opt.retry_interval milli_to_nano_second);
    wait_timeout = positive_or (pos 0) (mul_i64 opt.wait_timeout milli_to_nano_second);
    evict_timeout =
        evict_timeout_of (mul_i64 opt.evict_timeout milli_to_nano_second)
          (mul_i64 opt.expiration milli_to_nano_second);
  }

  abbrev pub set_item : CacheMap V → ℕ → CacheItem V → CacheMap V
  set_item c a item = record c { items = λ b. if a == b then item else c.items b }

  -- The item for a key that had none.
  abbrev pub create : CacheMap V → ℕ → ℤ → CacheMap V
  create c key now =
      let c' = set_item c c.next (new_item c now) in
      record c' { data_map = insert key c.next c.data_map; next = suc c.next }

  -- `Get`, up to the item: what the read lock showed, then the look under the write lock. The
  -- result is the item's address and whether a goroutine is to load it.
  abbrev pub find_locked : Option ℕ → ℕ → ℤ → CacheMap V → CacheMap V × ℕ × Bool
  find_locked (some a) key now c = (c, a, false)
  find_locked none key now c = (create c key now, c.next, true)

  unfoldable pub find : Option ℕ → ℕ → ℤ → CacheMap V → CacheMap V × ℕ × Bool
  find (some a) key now c = (c, a, false)
  find none key now c = find_locked (lookup key c.data_map) key now c

  -- The update of an item that is expired, where `seen` is the time read before.
  abbrev pub put_off : CacheMap V → ℕ → ℤ → CacheMap V
  put_off c a now =
      set_item c a (record (c.items a) { next_update_time = add_i64 now c.retry_interval })

  unfoldable pub claim : ℤ → ℕ → ℤ → CacheMap V → CacheMap V × Bool
  claim seen a now c =
      if ltb_ℤ seen now
      then if ltb_ℤ (c.items a).next_update_time now then (put_off c a now, true) else (c, false)
      else (c, false)

  -- The end of `updateData` and of one round of `updateBatch`.
  abbrev pub store : CacheMap V → ℕ → V → ℤ → ℤ → CacheMap V
  store c a value expire now =
      let item = c.items a in
      set_item c a (record item {
        data_ = some value;
        next_update_time = add_i64 now expire;
        init_cut_off_time =
            if ltb_ℤ now item.init_cut_off_time then now else item.init_cut_off_time;
      })

  unfoldable pub update_data : CacheMap V → ℕ → V × Bool → ℤ → CacheMap V
  update_data c a (value, false) now = store c a value c.expiration now
  update_data c a (value, true) now =
      if leb_ℤ c.expiration_on_err (pos 0) then c else store c a value c.expiration_on_err now

  unfoldable pub update_evict_time : CacheMap V → ℕ → ℤ → CacheMap V
  update_evict_time c a now =
      let t = add_i64 now c.evict_timeout in
      if ltb_ℤ (c.items a).evict_time t
      then set_item c a (record (c.items a) { evict_time = t })
      else c

  -- `evictKeys`: the keys to evict, found under the read lock, and their removal.
  abbrev pub is_evictable : CacheMap V → ℤ → ℕ → Bool
  is_evictable c now a = ltb_ℤ (c.items a).evict_time now

  unfoldable pub keys_to_evict : CacheMap V → ℤ → List (ℕ × ℕ) → List ℕ
  keys_to_evict c now [] = []
  keys_to_evict c now ((k, a) ∷ m) =
      let rest = keys_to_evict c now m in if is_evictable c now a then k ∷ rest else rest

  unfoldable pub delete_keys : CacheMap V → List ℕ → CacheMap V
  delete_keys c keys = record c { data_map = delete_all keys c.data_map }

  unfoldable pub evict_keys : CacheMap V → ℤ → CacheMap V
  unfolding keys_to_evict delete_keys
  evict_keys c now = delete_keys c (keys_to_evict c now c.data_map)

  -- What `Get` returns; `zero_value` is `var zeroValue V`.
  abbrev pub value_of : V → Option V → V
  value_of zero_value none = zero_value
  value_of zero_value (some v) = v

  -- `GetMany`. Under the read lock: the values at hand, and the keys that are missing or expired.
  unfoldable pub scan_key :
      V → ℤ → ℕ → Option ℕ → CacheMap V × List (ℕ × V) × List ℕ → CacheMap V × List (ℕ × V) × List ℕ
  unfolding update_evict_time
  scan_key zero_value now key none (c, data_, uncached) = (c, data_, uncached ++ key ∷ [])
  scan_key zero_value now key (some a) (c, data_, uncached) = (
    update_evict_time c a now,
    insert key (value_of zero_value (c.items a).data_) data_,
    if ltb_ℤ (c.items a).next_update_time now then uncached ++ key ∷ [] else uncached,
  )

  unfoldable pub scan :
      V → ℤ → List ℕ → CacheMap V × List (ℕ × V) × List ℕ → CacheMap V × List (ℕ × V) × List ℕ
  unfolding scan_key
  scan zero_value now [] s = s
  scan zero_value now (key ∷ keys) s =
      scan zero_value now keys (scan_key zero_value now key (lookup key s.0.data_map) s)

  -- Under the write lock: the items to load, and whether one is new.
  unfoldable pub claim_key :
      ℤ → ℕ → Option ℕ → CacheMap V × List (ℕ × ℕ) × Bool → CacheMap V × List (ℕ × ℕ) × Bool
  claim_key now key none (c, uncached_map, has_non_exist_key) =
      (create c key now, insert key c.next uncached_map, true)
  claim_key now key (some a) (c, uncached_map, has_non_exist_key) =
      if ltb_ℤ (c.items a).next_update_time now
      then (put_off c a now, insert key a uncached_map, has_non_exist_key)
      else (c, uncached_map, has_non_exist_key)

  unfoldable pub claim_many :
      ℤ → List ℕ → CacheMap V × List (ℕ × ℕ) × Bool → CacheMap V × List (ℕ × ℕ) × Bool
  unfolding claim_key
  claim_many now [] s = s
  claim_many now (key ∷ keys) s =
      claim_many now keys (claim_key now key (lookup key s.0.data_map) s)

  -- `updateBatch`, from what `loadDataBatch` gave: its data and whether there was an error. The
  -- second result is the cut-off that the caller waits for, which was `cut`.
  abbrev pub store_batch : V → List (ℕ × ℕ) → List (ℕ × V) → ℤ → ℤ → CacheMap V → CacheMap V
  store_batch zero_value [] loaded expire now c = c
  store_batch zero_value ((key, a) ∷ uncached_map) loaded expire now c =
      store_batch zero_value uncached_map loaded expire now
        (store c a (value_of zero_value (lookup key loaded)) expire now)

  unfoldable pub update_batch :
      V → List (ℕ × ℕ) → List (ℕ × V) → Bool → ℤ → ℤ → CacheMap V → CacheMap V × ℤ
  update_batch zero_value uncached_map loaded false cut now c =
      (store_batch zero_value uncached_map loaded c.expiration now c, now)
  update_batch zero_value uncached_map loaded true cut now c =
      if leb_ℤ c.expiration_on_err (pos 0)
      then (c, cut)
      else (store_batch zero_value uncached_map loaded c.expiration_on_err now c, now)

  -- The values that were loaded, or that were not in time.
  unfoldable pub collect : V → CacheMap V → List (ℕ × ℕ) → List (ℕ × V) → List (ℕ × V)
  collect zero_value c [] data_ = data_
  collect zero_value c ((key, a) ∷ uncached_map) data_ =
      collect zero_value c uncached_map (insert key (value_of zero_value (c.items a).data_) data_)

  -- What `GetMany` returns, where `between` is what happens to the cache after the read lock, and
  -- `after` what happens to it before the values are collected.
  unfoldable pub get_many :
      V
      → (CacheMap V → CacheMap V)
      → (CacheMap V → CacheMap V)
      → List ℕ
      → ℤ
      → CacheMap V
      → List (ℕ × V)
  unfolding scan claim_many collect
  get_many zero_value between after keys now c =
      let scanned = scan zero_value now keys (c, [], []) in
      let claimed = claim_many now scanned.2 (between scanned.0, [], false) in
      collect zero_value (after claimed.0) claimed.1 scanned.1
