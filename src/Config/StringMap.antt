-- ===== src/Config/StringMap.antt =====
-- config/stringmap.go. What `jsonpath` finds at a path, what `copy.JsonDeepCopy` makes of a map, what
-- viper unmarshals and what the validator accepts are parameters.
pub mod Getters
pub mod Lists
use framego.Prelude.{ℕ, Bool, true, false, List, [], ◌∷◌, ◌++◌, Option, none, some, if◌then◌else◌}
use framego.Prelude.Int.{ℤ}
use framego.Prelude.Text.{Str, bytes, has_prefix, put}

-- A value of a configuration, by its Go type; `other` is one of any other type.
mutual
  pub data Raw : Type 0 where
    string : Str → Raw
    int int64 : ℤ → Raw
    bool : Bool → Raw
    map : Items → Raw
    list : Elems → Raw
    other : ℕ → Raw

  pub data Elems : Type 0 where
    no_elems : Elems
    elem : Raw → Elems → Elems

  pub data Items : Type 0 where
    no_items : Items
    item : Str → Raw → Items → Items

abbrev pub StringMap : Type 0
StringMap = List (Str × Raw)

abbrev pub to_string_map : Items → StringMap
to_string_map no_items = []
to_string_map (item k v rest) = (k, v) ∷ to_string_map rest

-- The target types that an error names.
pub data Target : Type 0 where
  to_string to_int to_int64 to_bool to_map to_map_list : Target

pub data Error : Type 0 where
  path_error unmarshal_error copy_error deep_copy_config_error config_object_validation_error :
      Error
  type_assertion_error : Raw → Target → Error

pub data Result {ℓ} (A : Type ℓ) : Type ℓ where
  ok : A → Result A
  err : Error → Result A

infixl 5 ◌>>=◌
abbrev pub ◌>>=◌ {ℓ κ} : {A : Type ℓ} {B : Type κ} → Result A → (A → Result B) → Result B
ok a >>= k = k a
err e >>= k = err e

unfoldable pub regularize_path : Str → Str
regularize_path path = if has_prefix path (bytes "$") then path else bytes "$." ++ path

-- What `jsonpath.Read` finds, `none` for an error.
abbrev pub Reader : Type 0
Reader = StringMap → Str → Option Raw

abbrev pub found : Option Raw → Result Raw
found none = err path_error
found (some v) = ok v

unfoldable pub read_at : Reader → StringMap → Str → Result Raw
unfolding regularize_path
read_at read m path = found (read m (regularize_path path))

-- The type assertions.
abbrev pub as_string : Raw → Result Str
as_string (string s) = ok s
as_string v = err (type_assertion_error v to_string)

abbrev pub as_int : Raw → Result ℤ
as_int (int n) = ok n
as_int v = err (type_assertion_error v to_int)

abbrev pub as_int64 : Raw → Result ℤ
as_int64 (int64 n) = ok n
as_int64 v = err (type_assertion_error v to_int64)

abbrev pub as_bool : Raw → Result Bool
as_bool (bool b) = ok b
as_bool v = err (type_assertion_error v to_bool)

abbrev pub as_map : Raw → Result StringMap
as_map (map items) = ok (to_string_map items)
as_map v = err (type_assertion_error v to_map)

abbrev pub as_maps : Elems → Result (List StringMap)
as_maps no_elems = ok []
as_maps (elem v rest) = as_map v >>= λ m. as_maps rest >>= λ ms. ok (m ∷ ms)

abbrev pub as_map_list : Raw → Result (List StringMap)
as_map_list (list elems) = as_maps elems
as_map_list v = err (type_assertion_error v to_map_list)

module _ (read : Reader) where
  unfoldable pub get_string : StringMap → Str → Result Str
  unfolding read_at
  get_string m path = read_at read m path >>= as_string

  unfoldable pub get_int : StringMap → Str → Result ℤ
  unfolding read_at
  get_int m path = read_at read m path >>= as_int

  unfoldable pub get_int64 : StringMap → Str → Result ℤ
  unfolding read_at
  get_int64 m path = read_at read m path >>= as_int64

  unfoldable pub get_bool : StringMap → Str → Result Bool
  unfolding read_at
  get_bool m path = read_at read m path >>= as_bool

  unfoldable pub get_string_map : StringMap → Str → Result StringMap
  unfolding read_at
  get_string_map m path = read_at read m path >>= as_map

  unfoldable pub get_string_map_list : StringMap → Str → Result (List StringMap)
  unfolding read_at
  get_string_map_list m path = read_at read m path >>= as_map_list

-- `copy.JsonDeepCopy` into a target, `validate.Struct`, and `viper.UnmarshalKey`, each `none` or
-- false for an error.
pub record Structs (S : Type 0) : Type 0 where
  pub json_deep_copy : StringMap → Option S
  pub validate : S → Bool
  pub unmarshal_key : Str → Option S

module _ {S : Type 0} (e : Structs S) where
  abbrev pub copied : Error → Option S → Result S
  copied x none = err x
  copied x (some s) = ok s

  abbrev pub validated : S → Result S
  validated s = if e.validate s then ok s else err config_object_validation_error

  unfoldable pub to_struct : StringMap → Result S
  to_struct m = copied copy_error (e.json_deep_copy m)

  unfoldable pub to_struct_with_validation : StringMap → Result S
  to_struct_with_validation m = copied deep_copy_config_error (e.json_deep_copy m) >>= validated

  unfoldable pub get_struct : Reader → StringMap → Str → Result S
  unfolding read_at to_struct
  get_struct read m path = read_at read m path >>= λ v. as_map v >>= to_struct

  -- The method calls the package's function of the same name, and so reads viper.
  unfoldable pub get_struct_with_validation : StringMap → Str → Result S
  get_struct_with_validation m path = copied unmarshal_error (e.unmarshal_key path) >>= validated

unfoldable pub mix : StringMap → StringMap → StringMap
mix m [] = m
mix m ((k, v) ∷ src) = mix (put k v m) src
