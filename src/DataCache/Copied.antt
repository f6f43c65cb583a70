-- ===== src/DataCache/Copied.antt =====
-- datacache/datacache.go and datacache/datacachemap.go: GetCopy. The cache is the one that Get leaves.
use framego.Prelude.{ℕ, Option, some}
use framego.Copy.Gob.{Gob, Copier, Answer, deep_copy}
use framego.DataCache.Single.{DataCache}
use framego.DataCache.Keyed.{CacheItem, value_of}

module _ {C V D : Type 0} (gob : Gob C V D) where
  unfoldable pub get_copy : Option D → ℕ → DataCache V → Copier C V → Copier C V × Answer D
  unfolding deep_copy
  get_copy v now c st = deep_copy gob v (some c.data_) now st

  -- Of the value for a key: `zero_value` while none is loaded.
  unfoldable pub get_copy_by_key :
      V → Option D → ℕ → CacheItem V → Copier C V → Copier C V × Answer D
  unfolding deep_copy
  get_copy_by_key zero_value v now item st =
      deep_copy gob v (some (value_of zero_value item.data_)) now st
