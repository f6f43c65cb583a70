-- ===== src/DataCache/Single/Data.antt =====
-- Which data the cache holds.
use framego.Prelude.{◌≡◌, refl, sym, Bool, true, false, List, [], ◌∷◌, if◌then◌else◌, arith, not}
use framego.Prelude.Int.{pos, leb_ℤ}
use framego.DataCache.Single.{
  DataCache, claim, claim_locked, finish_load, act, run_events, Event, called, loaded,
}

module _ {T : Type 0} where
  -- The last value that is to be kept, or else the first one: what a load gives with an error is kept if errors expire.
  abbrev pub last_kept : Bool → T → List (Event T) → T
  last_kept keep_errors first [] = first
  last_kept keep_errors first (called seen now ∷ later) = last_kept keep_errors first later
  last_kept keep_errors first (loaded (value, err) now ∷ later) =
      last_kept keep_errors (if err then if keep_errors then value else first else value) later

  act_options : (e : Event T) (c : DataCache T) → (act e c).expiration_on_err ≡ c.expiration_on_err
  unfolding act claim claim_locked finish_load
  act_options (called seen now) c = ground arith
  act_options (loaded (value, true) now) c = ground arith
  act_options (loaded (value, false) now) c = refl

  act_data :
      (e : Event T) (c : DataCache T)
      → (act e c).data_ ≡ last_kept (not (leb_ℤ c.expiration_on_err (pos 0))) c.data_ (e ∷ [])
  unfolding act claim claim_locked finish_load
  act_data (called seen now) c = ground arith
  act_data (loaded (value, true) now) c = ground arith
  act_data (loaded (value, false) now) c = refl

  last_kept_∷ :
      (keep : Bool) (first : T) (e : Event T) (later : List (Event T))
      → last_kept keep first (e ∷ later) ≡ last_kept keep (last_kept keep first (e ∷ [])) later
  last_kept_∷ keep first (called seen now) later = refl
  last_kept_∷ keep first (loaded (value, err) now) later = refl

  -- Whatever calls of `Get` and ends of loads happen, in any order, the cache holds what the last load gave that had no error, or any error if errors have an expiration, and what it held before if there is none.
  pub run_events_data :
      (events : List (Event T)) (c : DataCache T)
      → (run_events events c).data_
        ≡ last_kept (not (leb_ℤ c.expiration_on_err (pos 0))) c.data_ events
  unfolding run_events
  run_events_data [] c = refl
  run_events_data (e ∷ later) c =
      rw (run_events_data later (act e c), act_data e c, act_options e c)
        (sym (last_kept_∷ (not (leb_ℤ c.expiration_on_err (pos 0))) c.data_ e later))
