-- ===== src/Http/Value.antt =====
-- The Go values that client/http looks at through `reflect` and type switches. What `fmt` prints and
-- what `json` writes are parameters.
use framego.Prelude.{ℕ, Bool, true, false, List, Option, none, some}
use framego.Prelude.Text.{Str}

-- What a nil pointer points to.
pub data Pointee : Type 0 where
  to_url_values to_data_map to_string to_bytes to_struct to_other : Pointee

-- `scalar` is a number, a Boolean or the like, with the text that it prints as; `iface` an element
-- or a field of an interface type, with what it holds; `reflected` a `reflect.Value` as a value.
mutual
  pub data Value : Type 0 where
    nil : Value
    scalar : Str → Value
    text : Str → Value
    raw_bytes : Str → Value
    nil_ptr : Pointee → Value
    ptr iface reflected : Value → Value
    list : Values → Value
    url_values : List (Str × List Str) → Value
    data_map : Entries → Value
    other_map : Entries → Value
    struct : Fields → Value

  pub data Values : Type 0 where
    no_values : Values
    value : Value → Values → Values

  pub data Entries : Type 0 where
    no_entries : Entries
    entry : Str → Value → Entries → Entries

  -- A field's name, its `form` tag and its value.
  pub data Fields : Type 0 where
    no_fields : Fields
    field : Str → Option Str → Value → Fields → Fields

-- `Interface()` of an element or a field.
abbrev pub interface_of : Value → Value
interface_of (iface v) = v
interface_of v = v

-- `Elem()` of a pointer, `none` of a nil one, and the test `Kind() == reflect.Struct`.
abbrev pub elem_of : Value → Option Value
elem_of (ptr v) = some v
elem_of _ = none

abbrev pub is_struct : Value → Bool
is_struct (struct fs) = true
is_struct (reflected v) = true
is_struct _ = false

-- `fmt.Sprintf("%v", v)`, also where `v` is a `reflect.Value`, and `json.MarshalToString`, `none` for
-- an error. A `reflect.Value` of nothing is what `Elem` gives of a nil pointer.
pub record Printer : Type 0 where
  pub sprint : Value → Str
  pub sprint_byte : ℕ → Str
  pub invalid : Str
  pub marshal_to_string : Value → Option Str
  pub marshal_invalid : Option Str

abbrev pub sprint_elem : Printer → Option Value → Str
sprint_elem p none = p.invalid
sprint_elem p (some v) = p.sprint v

pub data Error : Type 0 where
  marshal_error unsupport_data_type unsupported_data_type_for_raw : Error

-- `panics` is the panic of following a nil pointer.
pub data Outcome (A : Type 0) : Type 0 where
  ok : A → Outcome A
  failed : Error → Outcome A
  panics : Outcome A
