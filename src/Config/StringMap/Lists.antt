-- ===== src/Config/StringMap/Lists.antt =====
-- Lists of maps.
use framego.Prelude.{◌≡◌, refl, List, [], ◌∷◌, Option, none, some}
use framego.Prelude.Text.{Str}
use framego.Config.StringMap.{
  Raw, Elems, StringMap, Result, Reader, ok, err, no_elems, elem, list, map, string, int, int64,
  bool, other, to_string_map, type_assertion_error, to_map, as_maps, regularize_path, read_at,
  get_string_map_list, ◌>>=◌,
}

-- The first element that is no map, and the maps before it.
abbrev pub first_other : Elems → Option Raw
first_other no_elems = none
first_other (elem (map items) rest) = first_other rest
first_other (elem v rest) = some v

abbrev pub maps_of : Elems → List StringMap
maps_of no_elems = []
maps_of (elem (map items) rest) = to_string_map items ∷ maps_of rest
maps_of (elem v rest) = []

abbrev pub checked : List StringMap → Option Raw → Result (List StringMap)
checked ms none = ok ms
checked ms (some v) = err (type_assertion_error v to_map)

checked-cons :
    (m : StringMap) (ms : List StringMap) (o : Option Raw)
    → (checked ms o >>= λ ms'. ok (m ∷ ms')) ≡ checked (m ∷ ms) o
checked-cons m ms none = refl
checked-cons m ms (some v) = refl

as_maps-eq : (es : Elems) → as_maps es ≡ checked (maps_of es) (first_other es)
as_maps-eq no_elems = refl
as_maps-eq (elem (map items) rest) =
    rw (as_maps-eq rest) (checked-cons (to_string_map items) (maps_of rest) (first_other rest))
as_maps-eq (elem (string s) rest) = refl
as_maps-eq (elem (int n) rest) = refl
as_maps-eq (elem (int64 n) rest) = refl
as_maps-eq (elem (bool b) rest) = refl
as_maps-eq (elem (list es) rest) = refl
as_maps-eq (elem (other n) rest) = refl

-- Where the path leads to a list, `GetStringMapList` gives all its maps in order, or the error of the first element that is no map.
pub get_string_map_list_lem :
    (read : Reader) (m : StringMap) (path : Str) (es : Elems)
    → read m (regularize_path path) ≡ some (list es)
    → get_string_map_list read m path ≡ checked (maps_of es) (first_other es)
unfolding get_string_map_list read_at
get_string_map_list_lem read m path es e = rw e (as_maps-eq es)
