-- ===== src/Appmgr/Tls/Configured.antt =====
-- When a configuration asks for TLS, and what it is made of.
use framego.Prelude.{
  ℕ, ◌≡◌, ◌≢◌, ◌↔◌, refl, List, [], ◌∷◌, Option, none, some, arith, inl, inr, Option-cases,
}
use framego.Prelude.Text.{Str}
use framego.Appmgr.Clients.{GrpcSecurityConfig}
use framego.Appmgr.Tls.{
  Files, NewTls, no_tls, configured, tls_of, new_tls_config, with_pair, with_ca, pair_loaded,
  ca_read, pool_made,
}

-- The certificates that are asked for can be loaded, and are these.
abbrev pub AreLoaded : Files → Str → Str → List ℕ → Type 0
AreLoaded files (c ∷ cert) (k ∷ key) certificates =
    (certificate : ℕ) × ((files.load_x509_key_pair (c ∷ cert) (k ∷ key) ≡ some certificate)
      × (certificates ≡ certificate ∷ []))
AreLoaded files cert key certificates = certificates ≡ []

-- The pool that is asked for can be read, and is this.
abbrev pub IsPool : Files → Str → Option ℕ → Type 0
IsPool files [] cas = cas ≡ none
IsPool files (c ∷ ca) cas =
    (text : Str) × ((files.read_file (c ∷ ca) ≡ some text)
      × ((pool : ℕ) × ((files.certs_from_pem text ≡ some pool) × (cas ≡ some pool))))

abbrev pub IsMade : NewTls → List ℕ → Option ℕ → Type 0
IsMade made certificates cas = made ≡ configured (tls_of certificates cas)

configured-tls :
    (x y : List ℕ) (p q : Option ℕ)
    → configured (tls_of x p) ≡ configured (tls_of y q)
    → (x ≡ y) × (p ≡ q)
configured-tls x y p q h = (cc, cc)

with_ca_iff :
    (files : Files) (loaded certificates : List ℕ) (ca : Str) (cas : Option ℕ)
    → IsMade (with_ca files loaded ca) certificates cas
      ↔ ((certificates ≡ loaded) × IsPool files ca cas)
unfolding with_ca
with_ca_iff files loaded certificates [] cas = (λ h. (cc, cc), λ (a, b). cc)
with_ca_iff files loaded certificates (c ∷ ca) cas = read (files.read_file (c ∷ ca)) refl
  where
    pooled :
        (text : Str) (o : Option ℕ)
        → files.read_file (c ∷ ca) ≡ some text
        → files.certs_from_pem text ≡ o
        → IsMade (pool_made loaded (c ∷ ca) o) certificates cas
          ↔ ((certificates ≡ loaded) × IsPool files (c ∷ ca) cas)
    pooled text none r e = (
      λ h. absurd (ground (h, arith)),
      λ (a, (t, (r', (p, (e', b))))). absurd (ground (r, r', e, e', arith)),
    )
    pooled text (some pool) r e =
        (λ h. (cc, (text, (r, (pool, (e, cc))))), λ (a, (t, (r', (p, (e', b))))). cc)

    read :
        (o : Option Str)
        → files.read_file (c ∷ ca) ≡ o
        → IsMade (ca_read files loaded (c ∷ ca) o) certificates cas
          ↔ ((certificates ≡ loaded) × IsPool files (c ∷ ca) cas)
    read none r =
        (λ h. absurd (ground (h, arith)), λ (a, (t, (r', x))). absurd (ground (r, r', arith)))
    read (some text) r = pooled text (files.certs_from_pem text) r refl

with_pair_iff :
    (files : Files) (cert key ca : Str) (certificates : List ℕ) (cas : Option ℕ)
    → IsMade (with_pair files cert key ca) certificates cas
      ↔ (AreLoaded files cert key certificates × IsPool files ca cas)
unfolding with_pair
with_pair_iff files [] key ca certificates cas = with_ca_iff files [] certificates ca cas
with_pair_iff files (c ∷ cert) [] ca certificates cas = with_ca_iff files [] certificates ca cas
with_pair_iff files (c ∷ cert) (k ∷ key) ca certificates cas =
    elim (Option-cases (files.load_x509_key_pair (c ∷ cert) (k ∷ key))) [
      | inl e ↦
          rw e (λ h. absurd (ground (h, arith)), λ ((x, (e', s)), p). absurd (ground (e', arith)))
      | inr (x, e) ↦ rw e (
        λ h.
            let (s, p) = (with_ca_iff files (x ∷ []) certificates ca cas).0 h in
            ((x, (refl, s)), p),
        λ ((y, (e', s)), p). (with_ca_iff files (x ∷ []) certificates ca cas).1 (cc, p),
      )
    ]

with_ca-tls : (files : Files) (loaded : List ℕ) (ca : Str) → with_ca files loaded ca ≢ no_tls
unfolding with_ca
with_ca-tls files loaded [] h = ground (h, arith)
with_ca-tls files loaded (c ∷ ca) h = read (files.read_file (c ∷ ca)) h
  where
    pooled : (o : Option ℕ) → pool_made loaded (c ∷ ca) o ≢ no_tls
    pooled none h = ground (h, arith)
    pooled (some pool) h = ground (h, arith)

    read : (o : Option Str) → ca_read files loaded (c ∷ ca) o ≢ no_tls
    read none h = ground (h, arith)
    read (some text) h = pooled (files.certs_from_pem text) h

with_pair-tls : (files : Files) (cert key ca : Str) → with_pair files cert key ca ≢ no_tls
unfolding with_pair
with_pair-tls files [] key ca h = with_ca-tls files [] ca h
with_pair-tls files (c ∷ cert) [] ca h = with_ca-tls files [] ca h
with_pair-tls files (c ∷ cert) (k ∷ key) ca h =
    loaded (files.load_x509_key_pair (c ∷ cert) (k ∷ key)) h
  where
    loaded : (o : Option ℕ) → pair_loaded files (c ∷ cert) (k ∷ key) ca o ≢ no_tls
    loaded none h = ground (h, arith)
    loaded (some x) h = with_ca-tls files (x ∷ []) ca h

abbrev pub IsAbsent : GrpcSecurityConfig → Type 0
IsAbsent c = (c.cert ≡ []) × (c.key ≡ []) × (c.ca ≡ [])

-- There is no TLS exactly if no file is named. A configuration is made exactly if one is named, the certificate loads where both it and its key are named, and the pool reads where it is named; it then has these, and no certificate where one of certificate and key is not named.
pub new_tls_config_iff :
    (files : Files) (c : GrpcSecurityConfig) (certificates : List ℕ) (cas : Option ℕ)
    → ((new_tls_config files c ≡ no_tls) ↔ IsAbsent c)
      × (IsMade (new_tls_config files c) certificates cas
          ↔ ((IsAbsent c → ⊥) × AreLoaded files c.cert c.key certificates × IsPool files c.ca cas))
unfolding new_tls_config
new_tls_config_iff files c certificates cas = by c.cert c.key c.ca
  where
    named :
        (cert key ca : Str)
        → (IsAbsent (record { cert = cert; key = key; ca = ca }) → ⊥)
        → ((with_pair files cert key ca ≡ no_tls)
            ↔ IsAbsent (record { cert = cert; key = key; ca = ca }))
          × (IsMade (with_pair files cert key ca) certificates cas ↔ (
              (IsAbsent (record { cert = cert; key = key; ca = ca }) → ⊥)
              × AreLoaded files cert key certificates
              × IsPool files ca cas))
    named cert key ca there = (
      (λ h. absurd (with_pair-tls files cert key ca h), λ a. absurd (there a)),
      (
        λ h. let (l, p) = (with_pair_iff files cert key ca certificates cas).0 h in (there, l, p),
        λ (a, l, p). (with_pair_iff files cert key ca certificates cas).1 (l, p),
      ),
    )

    by :
        (cert key ca : Str)
        → ((new_tls_config files (record { cert = cert; key = key; ca = ca }) ≡ no_tls)
            ↔ IsAbsent (record { cert = cert; key = key; ca = ca }))
          × (IsMade
                (new_tls_config files (record { cert = cert; key = key; ca = ca }))
                certificates
                cas
              ↔ ((IsAbsent (record { cert = cert; key = key; ca = ca }) → ⊥)
                  × AreLoaded files cert key certificates
                  × IsPool files ca cas))
    by [] [] [] = (
      (λ h. (refl, refl, refl), λ a. refl),
      (λ h. absurd (ground (h, arith)), λ (a, l, p). absurd (a (refl, refl, refl))),
    )
    by (x ∷ cert) key ca = named (x ∷ cert) key ca (λ a. ground (a.0, arith))
    by [] (x ∷ key) ca = named [] (x ∷ key) ca (λ a. ground (a.1, arith))
    by [] [] (x ∷ ca) = named [] [] (x ∷ ca) (λ a. ground (a.2, arith))
