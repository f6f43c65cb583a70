-- ===== src/Http/Form/Agree.antt =====
-- The same form from a map, from a pointer to it and from a struct.
use framego.Prelude.{◌≡◌, ◌⊎◌, inl, inr, refl, [], if◌then◌else◌, Bool-cases}
use framego.Prelude.Text.{Str}
use framego.Http.Value.{
  Entries, Fields, Printer, ptr, data_map, struct, no_entries, entry, no_fields, field,
  interface_of,
}
use framego.Http.Form.{
  UrlValues, RequestDataFormat, query_string, form, is_public_field, field_name, set_form_value,
  form_of_entries, form_of_fields, form_of_struct, form_of, get_body_reader_and_form,
}

-- The map with the public fields of a struct, under their tags or their names.
abbrev pub entries_of : Fields → Entries
entries_of no_fields = no_entries
entries_of (field name tag v rest) =
    let later = entries_of rest in
    if is_public_field name then entry (field_name name tag) (interface_of v) later else later

abbrev pub IsFormat : RequestDataFormat → Type 0
IsFormat kind = (kind ≡ query_string) ⊎ (kind ≡ form)

pub form_of_fields-eq :
    (p : Printer) (f : UrlValues) (fs : Fields)
    → form_of_fields p f fs ≡ form_of_entries p f (entries_of fs)
unfolding form_of_fields form_of_entries
form_of_fields-eq p f no_fields = refl
form_of_fields-eq p f (field name tag v rest) = elim (Bool-cases (is_public_field name)) [
  | inl e ↦
      rw e (form_of_fields-eq p (set_form_value p f (field_name name tag) (interface_of v)) rest)
  | inr e ↦ rw e (form_of_fields-eq p f rest)
]

-- As a query string or as a form, a struct, a pointer to it, the `DataMap` of its public fields under their tags or names, and a pointer to that make the same body and the same form.
pub get_body_struct_eq :
    (p : Printer) (encode : UrlValues → Str) (kind : RequestDataFormat) (fs : Fields)
    → IsFormat kind
    → (get_body_reader_and_form p encode kind (struct fs)
        ≡ get_body_reader_and_form p encode kind (data_map (entries_of fs)))
      × (get_body_reader_and_form p encode kind (ptr (struct fs))
          ≡ get_body_reader_and_form p encode kind (struct fs))
      × (get_body_reader_and_form p encode kind (ptr (data_map (entries_of fs)))
          ≡ get_body_reader_and_form p encode kind (data_map (entries_of fs)))
unfolding get_body_reader_and_form form_of form_of_struct
get_body_struct_eq p encode kind fs (inl e) = rw (e, form_of_fields-eq p [] fs) (refl, refl, refl)
get_body_struct_eq p encode kind fs (inr e) = rw (e, form_of_fields-eq p [] fs) (refl, refl, refl)
