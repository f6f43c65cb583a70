-- ===== src/Http/Form.antt =====
-- client/http/client.go: the body and the form of a request (`getBodyReaderAndForm`, `setFormValue`).
-- A map is taken in the order of its entries; Go's order is not fixed. `url.Values.Encode` is a
-- parameter.
pub mod Agree
pub mod Add
use framego.Prelude.{
  ℕ, Bool, true, false, ◌&&◌, ◌||◌, not, List, [], ◌∷◌, ◌++◌, Option, none, some, leb, ◌==◌,
  if◌then◌else◌,
}
use framego.Prelude.Text.{Str, find, put}
use framego.Http.Value.{
  Value, Values, Entries, Fields, Pointee, Printer, Error, Outcome, nil, scalar, text, raw_bytes,
  nil_ptr, ptr, iface, reflected, list, url_values, data_map, other_map, struct, no_values, value,
  no_entries, entry, no_fields, field, interface_of, elem_of, is_struct, sprint_elem, marshal_error,
  unsupport_data_type, unsupported_data_type_for_raw, ok, failed, panics, to_url_values,
  to_data_map, to_string, to_bytes, to_struct, to_other,
}

-- `url.Values`.
abbrev pub UrlValues : Type 0
UrlValues = List (Str × List Str)

abbrev pub values_at : Str → UrlValues → List Str
values_at key f = elim (find key f) [ none ↦ [] | some xs ↦ xs ]

-- `Set` and `Add` of `url.Values`.
abbrev pub form_set : UrlValues → Str → Str → UrlValues
form_set f key x = put key (x ∷ []) f

abbrev pub form_add : UrlValues → Str → Str → UrlValues
form_add f key x = put key (values_at key f ++ x ∷ []) f

-- `no_data` stands for any other number as well.
pub data RequestDataFormat : Type 0 where
  no_data query_string form json raw : RequestDataFormat

-- `unicode.IsUpper` of the first byte of a name, as a rune.
abbrev pub is_public_field : Str → Bool
is_public_field [] = false
is_public_field (c ∷ cs) = leb b'A' c && leb c b'Z' || (leb 192 c && leb c 222 && not (c == 215))

abbrev pub field_name : Str → Option Str → Str
field_name name none = name
field_name name (some tag) = tag

module _ (p : Printer) where
  abbrev pub item_text : Value → Str
  item_text (ptr v) = sprint_elem p (some v)
  item_text (nil_ptr to) = sprint_elem p none
  item_text v = p.sprint v

  abbrev pub add_items : UrlValues → Str → Values → UrlValues
  add_items f key no_values = f
  add_items f key (value v rest) = add_items (form_add f key (item_text v)) key rest

  abbrev add_bytes : UrlValues → Str → Str → UrlValues
  add_bytes f key [] = f
  add_bytes f key (b ∷ bs) = add_bytes (form_add f key (p.sprint_byte b)) key bs

  unfoldable pub set_form_value : UrlValues → Str → Value → UrlValues
  set_form_value f key (ptr v) = form_set f key (sprint_elem p (some v))
  set_form_value f key (nil_ptr to) = form_set f key (sprint_elem p none)
  set_form_value f key (list items) = add_items f key items
  set_form_value f key (raw_bytes bs) = add_bytes f key bs
  set_form_value f key v = form_set f key (p.sprint v)

  -- The loop over a `DataMap`, and the loop over the fields of a struct.
  unfoldable pub form_of_entries : UrlValues → Entries → UrlValues
  unfolding set_form_value
  form_of_entries f no_entries = f
  form_of_entries f (entry key v rest) = form_of_entries (set_form_value f key v) rest

  unfoldable pub form_of_fields : UrlValues → Fields → UrlValues
  unfolding set_form_value
  form_of_fields f no_fields = f
  form_of_fields f (field name tag v rest) =
      form_of_fields
        (if is_public_field name
          then set_form_value f (field_name name tag) (interface_of v)
          else f)
        rest

  -- The data that is neither `url.Values` nor a `DataMap`: a struct, or a pointer to one.
  unfoldable pub form_of_struct : Option Value → Outcome UrlValues
  unfolding form_of_fields
  form_of_struct (some (struct fs)) = ok (form_of_fields [] fs)
  form_of_struct (some (reflected v)) = ok []
  form_of_struct _ = failed unsupport_data_type

  abbrev some_form : Outcome UrlValues → Outcome (Option UrlValues)
  some_form (ok f) = ok (some f)
  some_form (failed e) = failed e
  some_form panics = panics

  unfoldable pub form_of : Value → Outcome (Option UrlValues)
  unfolding form_of_entries form_of_struct
  form_of (ptr (url_values f)) = ok (some f)
  form_of (nil_ptr to_url_values) = ok none
  form_of (url_values f) = ok (some f)
  form_of (ptr (data_map es)) = ok (some (form_of_entries [] es))
  form_of (nil_ptr to_data_map) = panics
  form_of (data_map es) = ok (some (form_of_entries [] es))
  form_of (ptr v) = some_form (form_of_struct (some v))
  form_of (nil_ptr to) = some_form (form_of_struct none)
  form_of v = some_form (form_of_struct (some v))

  unfoldable pub raw_body : Value → Outcome (Option Str)
  raw_body (text s) = ok (some s)
  raw_body (ptr (text s)) = ok (some s)
  raw_body (nil_ptr to_string) = ok none
  raw_body (raw_bytes b) = ok (some b)
  raw_body (ptr (raw_bytes b)) = ok (some b)
  raw_body (nil_ptr to_bytes) = ok none
  raw_body v = failed unsupported_data_type_for_raw

  -- The body and the form, each if there is one; `encode` is `Encode`.
  abbrev pub encoded :
      (UrlValues → Str)
      → Bool
      → Outcome (Option UrlValues)
      → Outcome (Option Str × Option UrlValues)
  encoded encode in_body (ok none) = ok (none, none)
  encoded encode in_body (ok (some f)) = ok (if in_body then some (encode f) else none, some f)
  encoded encode in_body (failed e) = failed e
  encoded encode in_body panics = panics

  abbrev body_only : Outcome (Option Str) → Outcome (Option Str × Option UrlValues)
  body_only (ok b) = ok (b, none)
  body_only (failed e) = failed e
  body_only panics = panics

  abbrev marshalled : Option Str → Outcome (Option Str)
  marshalled none = failed marshal_error
  marshalled (some s) = ok (some s)

  unfoldable pub get_body_reader_and_form :
      (UrlValues → Str) → RequestDataFormat → Value → Outcome (Option Str × Option UrlValues)
  unfolding form_of raw_body
  get_body_reader_and_form encode kind nil = ok (none, none)
  get_body_reader_and_form encode json v = body_only (marshalled (p.marshal_to_string v))
  get_body_reader_and_form encode query_string v = encoded encode false (form_of v)
  get_body_reader_and_form encode form v = encoded encode true (form_of v)
  get_body_reader_and_form encode raw v = body_only (raw_body v)
  get_body_reader_and_form encode no_data v = ok (none, none)
