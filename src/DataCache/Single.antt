-- ===== src/DataCache/Single.antt =====
-- datacache/datacache.go. Times are in nanoseconds and of type `int64`. `Get` is cut where it gives
-- up the lock: the claim of an update, the end of a load in its own goroutine, and the wait.
pub mod Claims
pub mod Waiting
pub mod Data
mod Examples
use framego.Prelude.{
  ℕ, zero, suc, Bool, true, false, not, ◌||◌, Option, none, some, if◌then◌else◌, List, [], ◌∷◌,
}
use framego.Prelude.Int.{ℤ, pos, negsuc, ltb_ℤ, leb_ℤ, add_i64, mul_i64}

abbrev pub milli_to_nano_second : ℤ
milli_to_nano_second = pos 1000000

abbrev pub default_retry_interval : ℤ
default_retry_interval = pos 1000000000

-- Durations in milliseconds.
pub record CacheInitOption (T : Type 0) : Type 0 where
  pub with_init_data : Bool
  pub init_data : T
  pub expiration : ℤ
  pub expiration_on_err : ℤ
  pub retry_interval : ℤ
  pub wait_timeout : ℤ

pub record DataCache (T : Type 0) : Type 0 where
  pub data_ : T
  pub expiration : ℤ
  pub expiration_on_err : ℤ
  pub retry_interval : ℤ
  pub wait_timeout : ℤ
  pub init_cut_off_time : ℤ
  pub next_update_time : ℤ

abbrev pub positive_or : ℤ → ℤ → ℤ
positive_or d x = if leb_ℤ x (pos 0) then d else x

abbrev pub is_unset : ℤ → Bool
is_unset (pos zero) = true
is_unset _ = false

module _ {T : Type 0} where
  -- `is_zero` is `reflect.ValueOf(opt.InitData).IsZero()`.
  unfoldable pub new_data_cache : (T → Bool) → CacheInitOption T → ℤ → DataCache T
  new_data_cache is_zero opt now = record {
    data_ = opt.init_data;
    expiration = mul_i64 opt.expiration milli_to_nano_second;
    expiration_on_err = mul_i64 opt.expiration_on_err milli_to_nano_second;
    retry_interval =
        positive_or default_retry_interval (mul_i64 opt.retry_interval milli_to_nano_second);
    wait_timeout = positive_or (pos 0) (mul_i64 opt.wait_timeout milli_to_nano_second);
    init_cut_off_time = if opt.with_init_data || not (is_zero opt.init_data) then now else pos 0;
    next_update_time = pos 0;
  }

  -- Under the lock: whether this goroutine is to update, and the cut-off of the first wait.
  unfoldable pub claim_locked : DataCache T → ℤ → DataCache T × Bool
  claim_locked c now =
      let cut =
        if is_unset c.init_cut_off_time then add_i64 now c.wait_timeout else c.init_cut_off_time in
      if leb_ℤ c.next_update_time now
      then (
        record c { next_update_time = add_i64 now c.retry_interval; init_cut_off_time = cut },
        true,
      )
      else (record c { init_cut_off_time = cut }, false)

  -- `seen` is the update time that was read before, under the read lock.
  unfoldable pub claim : ℤ → ℤ → DataCache T → DataCache T × Bool
  unfolding claim_locked
  claim seen now c = if leb_ℤ seen now then claim_locked c now else (c, false)

  -- The end of a load, at `now`: the data that it gave, and whether it gave an error.
  abbrev pub store : DataCache T → T → ℤ → ℤ → DataCache T
  store c value expire now = record c {
    data_ = value;
    next_update_time = add_i64 now expire;
    init_cut_off_time = if ltb_ℤ now c.init_cut_off_time then now else c.init_cut_off_time;
  }

  unfoldable pub finish_load : DataCache T → T × Bool → ℤ → DataCache T
  finish_load c (value, false) now = store c value c.expiration now
  finish_load c (value, true) now =
      if leb_ℤ c.expiration_on_err (pos 0) then c else store c value c.expiration_on_err now

-- The wait: the cut-off is read anew in each round, `cut i` in the `i`-th. The result is the time
-- as the loop counts it and the rounds made; `none` means that the fuel ran out.
unfoldable pub wait : ℕ → ℕ → (ℕ → ℤ) → ℤ → Option (ℤ × ℕ)
wait zero i cut now = none
wait (suc fuel) i cut now =
    let rest = wait fuel (suc i) cut (add_i64 now milli_to_nano_second) in
    if ltb_ℤ (cut i) now then some (now, i) else rest

-- What may happen to the cache between the rounds of one wait, each with the time that it reads.
pub data Event (T : Type 0) : Type 0 where
  called : ℤ → ℤ → Event T
  loaded : T × Bool → ℤ → Event T

module _ {T : Type 0} where
  unfoldable pub act : Event T → DataCache T → DataCache T
  unfolding claim finish_load
  act (called seen now) c = (claim seen now c).0
  act (loaded result now) c = finish_load c result now

  unfoldable pub run_events : List (Event T) → DataCache T → DataCache T
  run_events [] c = c
  run_events (e ∷ later) c = run_events later (act e c)
