-- ===== src/Grpcex/Access/Granted.antt =====
-- Who is granted access.
use mathlib.Core.List.{Memᴰ}
use framego.Prelude.{
  ◌≡◌, ◌≢◌, ◌⊎◌, ◌↔◌, inl, inr, refl, true, List, [], ◌∷◌, Option, none, some, arith, Bool-cases,
}
use framego.Grpcex.Access.{
  Str, Enforcer, AuthInfo, inproc, tls, tls_not_found, other, granted, is_open, base_name,
  anonymous_service_name, check_names, check_common_name, check_client, check_peer, check_access,
  check_service_access,
}

-- A name that a client is known by: the first certificate's common name, if it has one, or one of
-- its DNS names; in the same process, the anonymous one.
abbrev pub IsNameOf : AuthInfo → Str → Type 0
IsNameOf inproc name = name ≡ anonymous_service_name
IsNameOf tls_not_found name = ⊥
IsNameOf (tls []) name = ⊥
IsNameOf (tls (cert ∷ certs)) name =
    ((name ≡ cert.common_name) × (name ≢ [])) ⊎ Memᴰ name cert.dns_names
IsNameOf (other type) name = ⊥

-- The client has a name for which the policy allows the method.
abbrev pub IsAllowed : Enforcer → Option (Option AuthInfo) → Str → Type 0
IsAllowed enforce (some (some info)) method =
    (name : Str) × (IsNameOf info name × (enforce name method ≡ some true))
IsAllowed enforce (some none) method = ⊥
IsAllowed enforce none method = ⊥

service_iff :
    (enforce : Enforcer) (name method : Str)
    → (check_service_access enforce name method ≡ true) ↔ (enforce name method ≡ some true)
service_iff enforce name method = ground arith

names_sound :
    (enforce : Enforcer) (names : List Str) (method : Str)
    → check_names enforce names method ≡ granted
    → (name : Str) × (Memᴰ name names × (enforce name method ≡ some true))
unfolding check_names
names_sound enforce [] method h = absurd (ground (h, arith))
names_sound enforce (n ∷ names) method h =
    elim (Bool-cases (check_service_access enforce n method)) [
      | inl e ↦ (n, (Memᴰ.head refl, (service_iff enforce n method).0 e))
      | inr e ↦
          let (name, (m, ok)) = names_sound enforce names method (rw e at h) in
          (name, (Memᴰ.tail m, ok))
    ]

names_complete :
    (enforce : Enforcer) (names : List Str) (method name : Str)
    → Memᴰ name names
    → enforce name method ≡ some true
    → check_names enforce names method ≡ granted
unfolding check_names
names_complete enforce [] method name m ok = elim m [ ]
names_complete enforce (n ∷ names) method name (Memᴰ.head same) ok =
    rw (← same, (service_iff enforce name method).1 ok) refl
names_complete enforce (n ∷ names) method name (Memᴰ.tail m) ok =
    elim (Bool-cases (check_service_access enforce n method)) [
      | inl e ↦ rw e refl
      | inr e ↦ rw e (names_complete enforce names method name m ok)
    ]

common_name_iff :
    (enforce : Enforcer) (common : Str) (names : List Str) (method : Str)
    → (check_common_name enforce common names method ≡ granted) ↔ (
        (name : Str) × ((((name ≡ common) × (name ≢ [])) ⊎ Memᴰ name names)
          × (enforce name method ≡ some true)))
unfolding check_common_name
common_name_iff enforce [] names method = (
  λ h. let (name, (m, ok)) = names_sound enforce names method h in (name, (inr m, ok)),
  λ (name, (m, ok)). elim m [
    | inl (same, named) ↦ absurd (named same)
    | inr m' ↦ names_complete enforce names method name m' ok
  ],
)
common_name_iff enforce (c ∷ cs) names method =
    elim (Bool-cases (check_service_access enforce (c ∷ cs) method)) [
      | inl e ↦ rw e (
        λ h. (
          c ∷ cs,
          (inl (refl, λ eq. ground (eq, arith)), (service_iff enforce (c ∷ cs) method).0 e),
        ),
        λ k. refl,
      )
      | inr e ↦ rw e (
        λ h. let (name, (m, ok)) = names_sound enforce names method h in (name, (inr m, ok)),
        λ (name, (m, ok)). elim m [
          | inl (same, some_name) ↦ absurd (ground (same, e, ok, arith))
          | inr m' ↦ names_complete enforce names method name m' ok
        ],
      )
    ]

inproc_iff :
    (enforce : Enforcer) (method : Str)
    → (check_client enforce (some inproc) method ≡ granted)
      ↔ IsAllowed enforce (some (some inproc)) method
unfolding check_client
inproc_iff enforce method =
    elim (Bool-cases (check_service_access enforce anonymous_service_name method)) [
      | inl e ↦
          let ok = (service_iff enforce anonymous_service_name method).0 e in
          (λ h. (anonymous_service_name, (refl, ok)), λ k. rw e refl)
      | inr e ↦ (
        λ h. absurd (ground (h, e, arith)),
        λ (name, (same, ok)).
            let granted_too =
              (service_iff enforce anonymous_service_name method).1 (rw same at ok) in
            absurd (ground (granted_too, e, arith)),
      )
    ]

client_iff :
    (enforce : Enforcer) (info : AuthInfo) (method : Str)
    → (check_client enforce (some info) method ≡ granted)
      ↔ IsAllowed enforce (some (some info)) method
unfolding check_client
client_iff enforce inproc method = inproc_iff enforce method
client_iff enforce tls_not_found method = (λ h. absurd (ground (h, arith)), λ k. absurd k.1.0)
client_iff enforce (tls []) method = (λ h. absurd (ground (h, arith)), λ k. absurd k.1.0)
client_iff enforce (tls (cert ∷ certs)) method =
    common_name_iff enforce cert.common_name cert.dns_names method
client_iff enforce (other type) method = (λ h. absurd (ground (h, arith)), λ k. absurd k.1.0)

peer_iff :
    (enforce : Enforcer) (peer : Option (Option AuthInfo)) (method : Str)
    → (check_peer enforce peer method ≡ granted) ↔ IsAllowed enforce peer method
unfolding check_peer check_client
peer_iff enforce none method = (λ h. absurd (ground (h, arith)), λ k. absurd k)
peer_iff enforce (some none) method = (λ h. absurd (ground (h, arith)), λ k. absurd k)
peer_iff enforce (some (some info)) method = client_iff enforce info method

-- A call is granted exactly if its method belongs to the reflection, channelz or health service, or the policy allows the method, by its name after the last slash, for one of the names that the client is known by.
pub check_access_iff :
    (enforce : Enforcer) (peer : Option (Option AuthInfo)) (method : Str)
    → (check_access enforce peer method ≡ granted)
      ↔ ((is_open method ≡ true) ⊎ IsAllowed enforce peer (base_name method))
unfolding check_access
check_access_iff enforce peer method = elim (Bool-cases (is_open method)) [
  | inl e ↦ (λ h. inl e, λ k. rw e refl)
  | inr e ↦ (
    λ h. inr ((peer_iff enforce peer (base_name method)).0 (rw e at h)),
    λ k. rw e (elim k [
      | inl opened ↦ absurd (ground (opened, e, arith))
      | inr allowed ↦ (peer_iff enforce peer (base_name method)).1 allowed
    ]),
  )
]
