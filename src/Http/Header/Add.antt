-- ===== src/Http/Header/Add.antt =====
-- What a header's value becomes.
use framego.Prelude.{◌≡◌, refl, some}
use framego.Prelude.Text.{Str}
use framego.Http.Value.{Printer, text, ptr, reflected, ok}
use framego.Http.Form.{UrlValues, form_set, set_form_value}
use framego.Http.Header.{Headers, add_header, set_header}

-- Whatever text a pointer points to, a header gets of it what `json` writes of a `reflect.Value`, while the text itself gives a header, and a pointer to it gives a form, the text as it prints.
pub set_header_pointer :
    (p : Printer) (h : Headers) (f : UrlValues) (key t x : Str)
    → p.marshal_to_string (reflected (text t)) ≡ some x
    → (set_header p h (ptr (text t)) key ≡ ok (add_header h key x))
      × (set_header p h (text t) key ≡ ok (add_header h key (p.sprint (text t))))
      × (set_form_value p f key (ptr (text t)) ≡ form_set f key (p.sprint (text t)))
unfolding set_header set_form_value
set_header_pointer p h f key t x e = (rw e refl, refl, refl)
