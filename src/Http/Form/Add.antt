-- ===== src/Http/Form/Add.antt =====
-- The values that a form has for each key.
use framego.Prelude.{
  ◌≡◌, refl, false, List, [], ◌∷◌, ◌++◌, Option, none, some, if◌then◌else◌, arith, Bool-cases, inl,
  inr,
}
use framego.Prelude.Text.{Str, put, find-put, find-without, is_same, is_same_iff}
use framego.Http.Value.{
  Value, Values, Entries, Printer, raw_bytes, nil_ptr, ptr, list, no_values, value, no_entries,
  entry, sprint_elem,
}
use framego.Http.Form.{
  UrlValues, values_at, form_add, item_text, add_items, add_bytes, set_form_value, form_of_entries,
}

module _ (p : Printer) where
  abbrev pub item_texts : Values → List Str
  item_texts no_values = []
  item_texts (value v rest) = item_text p v ∷ item_texts rest

  abbrev pub byte_texts : Str → List Str
  byte_texts [] = []
  byte_texts (b ∷ bs) = p.sprint_byte b ∷ byte_texts bs

  -- The texts that a value stands for: one for each item of a list, or else one.
  abbrev pub texts_of : Value → List Str
  texts_of (ptr v) = sprint_elem p (some v) ∷ []
  texts_of (nil_ptr to) = sprint_elem p none ∷ []
  texts_of (list items) = item_texts items
  texts_of (raw_bytes bs) = byte_texts bs
  texts_of v = p.sprint v ∷ []

values_at-put :
    (k j : Str) (xs : List Str) (f : UrlValues)
    → values_at k (put j xs f) ≡ (if is_same j k then xs else values_at k f)
values_at-put k j xs f = ground (arith, find-put k j xs f, find-without k j f)

append-assoc_one : (xs : List Str) (x : Str) (ys : List Str) → (xs ++ x ∷ []) ++ ys ≡ xs ++ x ∷ ys
append-assoc_one [] x ys = refl
append-assoc_one (z ∷ xs) x ys = cc (append-assoc_one xs x ys)

append_nil : (xs : List Str) → xs ++ [] ≡ xs
append_nil [] = refl
append_nil (x ∷ xs) = cc (append_nil xs)

abbrev add_texts : UrlValues → Str → List Str → UrlValues
add_texts f key [] = f
add_texts f key (x ∷ xs) = add_texts (form_add f key x) key xs

add_texts_at :
    (f : UrlValues) (key k : Str) (xs : List Str)
    → values_at k (add_texts f key xs)
      ≡ (if is_same key k then values_at k f ++ xs else values_at k f)
add_texts_at f key k [] = ground (arith, append_nil (values_at k f))
add_texts_at f key k (x ∷ xs) =
    let rest = add_texts_at (form_add f key x) key k xs in
    let first = values_at-put k key (values_at key f ++ x ∷ []) f in
    elim (Bool-cases (is_same key k)) [
      | inl e ↦ rw (rest, first, e, (is_same_iff key k).0 e) (append-assoc_one (values_at k f) x xs)
      | inr e ↦ rw (rest, first, e) refl
    ]

add_texts_new :
    (f : UrlValues) (key k : Str) (xs : List Str)
    → values_at key f ≡ []
    → values_at k (add_texts f key xs) ≡ (if is_same key k then xs else values_at k f)
add_texts_new f key k xs new = elim (Bool-cases (is_same key k)) [
  | inl e ↦
      let empty = rw ((is_same_iff key k).0 e) at new in rw (add_texts_at f key k xs, e, empty) refl
  | inr e ↦ rw (add_texts_at f key k xs, e) refl
]

module _ (p : Printer) where
  add_items-eq :
      (f : UrlValues) (key : Str) (items : Values)
      → add_items p f key items ≡ add_texts f key (item_texts p items)
  add_items-eq f key no_values = refl
  add_items-eq f key (value v rest) = add_items-eq (form_add f key (item_text p v)) key rest

  add_bytes-eq :
      (f : UrlValues) (key bs : Str) → add_bytes p f key bs ≡ add_texts f key (byte_texts p bs)
  add_bytes-eq f key [] = refl
  add_bytes-eq f key (b ∷ bs) = add_bytes-eq (form_add f key (p.sprint_byte b)) key bs

  -- Where the key has no values yet, it has those of the value; other keys keep theirs.
  set_form_value_at :
      (f : UrlValues) (key k : Str) (v : Value)
      → values_at key f ≡ []
      → values_at k (set_form_value p f key v)
        ≡ (if is_same key k then texts_of p v else values_at k f)
  unfolding set_form_value
  set_form_value_at f key k (list items) new =
      rw (add_items-eq f key items) (add_texts_new f key k (item_texts p items) new)
  set_form_value_at f key k (raw_bytes bs) new =
      rw (add_bytes-eq f key bs) (add_texts_new f key k (byte_texts p bs) new)
  set_form_value_at f key k (ptr v) new = values_at-put k key (texts_of p (ptr v)) f
  set_form_value_at f key k (nil_ptr to) new = values_at-put k key (texts_of p (nil_ptr to)) f
  set_form_value_at f key k v new = values_at-put k key (p.sprint v ∷ []) f

abbrev pub entry_at : Str → Entries → Option Value
entry_at k no_entries = none
entry_at k (entry key v rest) = if is_same key k then some v else entry_at k rest

-- Each key has one entry.
abbrev pub IsUnique : Entries → Type 0
IsUnique no_entries = Unit {0}
IsUnique (entry key v rest) = (entry_at key rest ≡ none) × IsUnique rest

abbrev IsNew : UrlValues → Entries → Type 0
IsNew f no_entries = Unit {0}
IsNew f (entry key v rest) = (values_at key f ≡ []) × IsNew f rest

abbrev pub or_texts : Printer → List Str → Option Value → List Str
or_texts p xs none = xs
or_texts p xs (some v) = texts_of p v

abbrev pub texts_at : Printer → Str → Entries → List Str
texts_at p k es = or_texts p [] (entry_at k es)

entry_others :
    (key k : Str) (w : Value) (rest : Entries)
    → entry_at key (entry k w rest) ≡ none
    → (is_same key k ≡ false) × (entry_at key rest ≡ none)
entry_others key k w rest absent = grind (arith, absent, is_same_iff key k, is_same_iff k key)

module _ (p : Printer) where
  IsNew-set_form_value :
      (f : UrlValues) (key : Str) (v : Value) (es : Entries)
      → values_at key f ≡ []
      → entry_at key es ≡ none
      → IsNew f es
      → IsNew (set_form_value p f key v) es
  IsNew-set_form_value f key v no_entries new absent h = tt
  IsNew-set_form_value f key v (entry k w rest) new absent h =
      let other = entry_others key k w rest absent in
      (
        rw (set_form_value_at p f key k v new, other.0) h.0,
        IsNew-set_form_value f key v rest new other.1 h.1,
      )

  form_of_entries_at :
      (f : UrlValues) (es : Entries) (k : Str)
      → IsUnique es
      → IsNew f es
      → values_at k (form_of_entries p f es) ≡ or_texts p (values_at k f) (entry_at k es)
  unfolding form_of_entries
  form_of_entries_at f no_entries k unique new = refl
  form_of_entries_at f (entry key v rest) k unique new =
      let one = set_form_value_at p f key k v new.0 in
      let rest_new = IsNew-set_form_value f key v rest new.0 unique.0 new.1 in
      let later = form_of_entries_at (set_form_value p f key v) rest k unique.1 rest_new in
      elim (Bool-cases (is_same key k)) [
        | inl e ↦
            let absent = rw ((is_same_iff key k).0 e) at unique.0 in rw (later, absent, one, e) refl
        | inr e ↦ rw (later, one, e) refl
      ]

IsNew-nil : (es : Entries) → IsNew [] es
IsNew-nil no_entries = tt
IsNew-nil (entry key v rest) = (refl, IsNew-nil rest)

-- In the form of a `DataMap`, each key of the map has the texts of its value, one for each item of a list, a pointer by what it points to, and no other key has any; condition: each key has one entry.
pub form_of_data_map :
    (p : Printer) (es : Entries) (k : Str)
    → IsUnique es
    → values_at k (form_of_entries p [] es) ≡ texts_at p k es
form_of_data_map p es k unique = form_of_entries_at p [] es k unique (IsNew-nil es)
