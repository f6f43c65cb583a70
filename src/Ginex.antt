-- ===== src/Ginex.antt =====
-- ginex/cors.go and ginex/compress.go. `ToStruct` of the options is that of Config/StringMap.antt, and
-- `regexp.Compile` is a parameter.
pub mod Zerolog
use framego.Prelude.{ℕ, Bool, List, [], ◌∷◌, ◌++◌, if◌then◌else◌}
use framego.Prelude.Int.{ℤ, pos, negsuc}
use framego.Prelude.Text.{Str}
use framego.Config.StringMap.{StringMap, Structs, Result, ok, err, to_struct}

-- What a constructor makes, unless it logs a fatal event, which ends the process.
pub data Made {ℓ} (A : Type ℓ) : Type ℓ where
  exits : Made A
  made : A → Made A

pub record CorsConfig : Type 0 where
  pub allow_all_origins : Bool
  pub allow_origins : List Str
  pub allow_methods : List Str
  pub allow_headers : List Str
  pub allow_credentials : Bool
  pub expose_headers : List Str
  pub max_age : ℕ
  pub allow_wildcard : Bool
  pub allow_browser_extensions : Bool
  pub allow_web_sockets : Bool

pub record CompressConfig : Type 0 where
  pub min_length : ℤ
  pub excluded_path_regex : Str

pub data CompressOption : Type 0 where
  with_min_compress_bytes : ℤ → CompressOption
  with_exclude_func : Str → CompressOption

abbrev pub made_or_exits {ℓ κ} : {A : Type ℓ} {B : Type κ} → (A → Made B) → Result A → Made B
made_or_exits k (ok a) = k a
made_or_exits k (err e) = exits

-- The configuration with which `cors.New` is called; its `MaxAge` is in seconds.
unfoldable pub cors_middleware : Structs CorsConfig → StringMap → Made CorsConfig
unfolding to_struct
cors_middleware e options = made_or_exits made (to_struct e options)

abbrev pub min_bytes : ℤ → List CompressOption
min_bytes (pos n) = with_min_compress_bytes (pos n) ∷ []
min_bytes (negsuc n) = []

abbrev pub excluded : (Str → Bool) → List CompressOption → Str → Made (List CompressOption)
excluded compiles opts [] = made opts
excluded compiles opts (c ∷ regex) =
    if compiles (c ∷ regex) then made (opts ++ with_exclude_func (c ∷ regex) ∷ []) else exits

-- The options with which `compress.Compress` is called.
unfoldable pub compress_middleware :
    Structs CompressConfig → (Str → Bool) → StringMap → Made (List CompressOption)
unfolding to_struct
compress_middleware e compiles options =
    made_or_exits (λ c. excluded compiles (min_bytes c.min_length) c.excluded_path_regex)
      (to_struct e options)
