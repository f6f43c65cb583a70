-- ===== src/Http/Header.antt =====
-- client/http/client.go: the headers of a request (`setHeader`). A header is the list of what was
-- added to it, as texts; how a client spells the keys is left to it.
pub mod Add
use framego.Prelude.{Bool, true, false, List, [], ◌∷◌, ◌++◌, Option, none, some, if◌then◌else◌}
use framego.Prelude.Text.{Str}
use framego.Http.Value.{
  Value, Values, Entries, Printer, Error, Outcome, nil, scalar, text, raw_bytes, nil_ptr, ptr,
  iface, reflected, list, url_values, data_map, other_map, struct, no_values, value, no_entries,
  entry, interface_of, is_struct, marshal_error, ok, failed, panics,
}

abbrev pub Headers : Type 0
Headers = List (Str × Str)

abbrev pub add_header : Headers → Str → Str → Headers
add_header h key x = h ++ (key, x) ∷ []

module _ (p : Printer) where
  abbrev pub add_marshalled : Headers → Str → Option Str → Outcome Headers
  add_marshalled h key none = failed marshal_error
  add_marshalled h key (some s) = ok (add_header h key s)

  abbrev add_bytes : Headers → Str → Str → Headers
  add_bytes h key [] = h
  add_bytes h key (b ∷ bs) = add_bytes (add_header h key (p.sprint_byte b)) key bs

  abbrev and_then : {A B : Type 0} → Outcome A → (A → Outcome B) → Outcome B
  and_then (ok a) k = k a
  and_then (failed e) k = failed e
  and_then panics k = panics

  -- A pointer to anything but a struct is handed on as a `reflect.Value`, which is a struct.
  unfoldable mutual
    pub set_header : Headers → Value → Str → Outcome Headers
    set_header h (ptr v) key =
        if is_struct v
        then add_marshalled h key (p.marshal_to_string (ptr v))
        else add_marshalled h key (p.marshal_to_string (reflected v))
    set_header h (nil_ptr to) key = add_marshalled h key p.marshal_invalid
    set_header h (list items) key = set_headers h items key
    set_header h (raw_bytes bs) key = ok (add_bytes h key bs)
    set_header h (struct fs) key = add_marshalled h key (p.marshal_to_string (struct fs))
    set_header h (reflected v) key = add_marshalled h key (p.marshal_to_string (reflected v))
    set_header h (url_values f) key = add_marshalled h key (p.marshal_to_string (url_values f))
    set_header h (data_map es) key = add_marshalled h key (p.marshal_to_string (data_map es))
    set_header h (other_map es) key = add_marshalled h key (p.marshal_to_string (other_map es))
    set_header h (iface v) key = set_header h v key
    set_header h v key = ok (add_header h key (p.sprint v))

    pub set_headers : Headers → Values → Str → Outcome Headers
    set_headers h no_values key = ok h
    set_headers h (value v rest) key = and_then (set_header h v key) (λ h'. set_headers h' rest key)

  -- The loops over the maps that a caller gives, `none` for a nil pointer.
  unfoldable pub set_entries : Headers → Entries → Outcome Headers
  unfolding set_header
  set_entries h no_entries = ok h
  set_entries h (entry key v rest) = and_then (set_header h v key) (λ h'. set_entries h' rest)

  unfoldable pub set_all : Headers → List (Option Entries) → Outcome Headers
  unfolding set_entries
  set_all h [] = ok h
  set_all h (none ∷ rest) = panics
  set_all h (some es ∷ rest) = and_then (set_entries h es) (λ h'. set_all h' rest)
