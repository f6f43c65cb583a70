-- ===== src/Config/Examples.antt =====
-- Instances for the configuration maps.
use framego.Prelude.{true, [], ◌∷◌, some}
use framego.Prelude.Text.{Str, bytes}
use framego.Prelude.Int.{pos}
use framego.Config.StringMap.{
  Elems, StringMap, Reader, Structs, string, int, map, list, no_elems, elem, no_items, item,
}

abbrev elems : Elems
elems =
    elem (map (item (bytes "k") (int (pos 1)) no_items))
      (elem (string (bytes "s")) (elem (map no_items) no_elems))

abbrev config : StringMap
config = (bytes "a", string (bytes "x")) ∷ (bytes "b", int (pos 2)) ∷ []

-- Finds the list everywhere.
abbrev reader : Reader
reader m path = some (list elems)

abbrev structs : Structs Str
structs = record {
  json_deep_copy = λ m. some [];
  validate = λ s. true;
  unmarshal_key = λ path. some (bytes "viper");
}
