-- ===== src/Config/StringMap/Getters.antt =====
-- What the getters depend on.
use framego.Prelude.{
  ◌↔◌, Option-cases, ◌≡◌, refl, ap, true, [], ◌∷◌, Option, none, some, arith, Bool-cases, inl, inr,
}
use framego.Prelude.Text.{Str, bytes, has_prefix, put, find, find-put, is_same, is_same_iff}
use framego.Config.StringMap.{
  Raw, StringMap, Result, Reader, Structs, ok, regularize_path, read_at, get_string, get_int,
  get_int64, get_bool, get_string_map, get_string_map_list, get_struct, get_struct_with_validation,
  mix, as_string, as_int, as_int64, as_bool, as_map, as_map_list, to_struct, validated, ◌>>=◌,
}

regularize_path_idem : (path : Str) → regularize_path (regularize_path path) ≡ regularize_path path
unfolding regularize_path
regularize_path_idem path = elim (Bool-cases (has_prefix path (bytes "$"))) [
  | inl e ↦ rw (e, e) refl
  | inr e ↦ rw e refl
]

read_at_regularized :
    (read : Reader) (m : StringMap) (path : Str)
    → read_at read m (regularize_path path) ≡ read_at read m path
unfolding read_at
read_at_regularized read m path = rw (regularize_path_idem path) refl

-- Each getter reads the same at a path and at the path with the root that it puts before it.
pub get_regularized :
    {S : Type 0}
    → (e : Structs S) (read : Reader) (m : StringMap) (path : Str)
    → (get_string read m (regularize_path path) ≡ get_string read m path)
      × (get_int read m (regularize_path path) ≡ get_int read m path)
      × (get_int64 read m (regularize_path path) ≡ get_int64 read m path)
      × (get_bool read m (regularize_path path) ≡ get_bool read m path)
      × (get_string_map read m (regularize_path path) ≡ get_string_map read m path)
      × (get_string_map_list read m (regularize_path path) ≡ get_string_map_list read m path)
      × (get_struct e read m (regularize_path path) ≡ get_struct e read m path)
unfolding get_string get_int get_int64 get_bool get_string_map get_string_map_list get_struct
get_regularized e read m path =
    let same = read_at_regularized read m path in
    (
      ap (λ (r : Result Raw). r >>= as_string) same,
      ap (λ (r : Result Raw). r >>= as_int) same,
      ap (λ (r : Result Raw). r >>= as_int64) same,
      ap (λ (r : Result Raw). r >>= as_bool) same,
      ap (λ (r : Result Raw). r >>= as_map) same,
      ap (λ (r : Result Raw). r >>= as_map_list) same,
      ap (λ (r : Result Raw). r >>= λ v. as_map v >>= to_struct e) same,
    )

ok_some : {S : Type 0} → (a : S) (s : S) → (Result.ok a ≡ ok s) ↔ (some a ≡ some s)
ok_some a s = ground arith

validated_iff :
    {S : Type 0}
    → (e : Structs S) (a s : S)
    → (validated e a ≡ ok s) ↔ ((some a ≡ some s) × (e.validate s ≡ true))
validated_iff e a s = elim (Bool-cases (e.validate a)) [
  | inl v ↦ ground (v, arith)
  | inr v ↦ ground (v, arith)
]

-- `GetStructWithValidation` gives the same for any two maps, and the value that it gives is what viper has at the path, and valid.
pub get_struct_with_validation_viper :
    {S : Type 0}
    → (e : Structs S) (m m' : StringMap) (path : Str) (s : S)
    → (get_struct_with_validation e m path ≡ get_struct_with_validation e m' path)
      × ((get_struct_with_validation e m path ≡ ok s)
          ↔ ((e.unmarshal_key path ≡ some s) × (e.validate s ≡ true)))
unfolding get_struct_with_validation
get_struct_with_validation_viper e m m' path s = elim (Option-cases (e.unmarshal_key path)) [
  | inl u ↦ rw u (refl, ground arith)
  | inr (a, u) ↦ rw u (refl, validated_iff e a s)
]

abbrev pub or_else {ℓ} : {A : Type ℓ} → Option A → Option A → Option A
or_else none o = o
or_else (some a) o = some a

abbrev pub IsUnique : StringMap → Type 0
IsUnique [] = Unit {0}
IsUnique ((k, v) ∷ m) = (find k m ≡ none) × IsUnique m

-- After `Mix`, each key has the value of the source if the source has it, or else its own; condition: each key of the source has one entry.
pub find-mix :
    (m src : StringMap) (k : Str)
    → IsUnique src
    → find k (mix m src) ≡ or_else (find k src) (find k m)
unfolding mix
find-mix m [] k unique = refl
find-mix m ((j, v) ∷ src) k unique =
    let rest = find-mix (put j v m) src k unique.1 in
    let first = find-put k j v m in
    elim (Bool-cases (is_same j k)) [
      | inl e ↦
          let absent = rw ((is_same_iff j k).0 e) at unique.0 in rw (rest, absent, first, e) refl
      | inr e ↦ rw (rest, first, e) refl
    ]
