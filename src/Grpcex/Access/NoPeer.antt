-- ===== src/Grpcex/Access/NoPeer.antt =====
-- When the check of an access panics: `AuthType` is called on a nil interface.
use framego.Prelude.{◌≡◌, ◌≢◌, refl, List, [], ◌∷◌, Option, none, some, arith, Bool-cases, inl, inr}
use framego.Grpcex.Access.{
  Str, Enforcer, AuthInfo, inproc, tls, tls_not_found, other, panics, is_open, base_name,
  anonymous_service_name, check_names, check_common_name, check_client, check_peer, check_access,
  check_service_access,
}

names_calm :
    (enforce : Enforcer) (names : List Str) (method : Str)
    → check_names enforce names method ≢ panics
unfolding check_names
names_calm enforce [] method h = ground (h, arith)
names_calm enforce (n ∷ names) method h =
    let rest = names_calm enforce names method in
    elim (Bool-cases (check_service_access enforce n method)) [
      | inl e ↦ ground (rw e at h, arith)
      | inr e ↦ rest (rw e at h)
    ]

common_name_calm :
    (enforce : Enforcer) (common : Str) (names : List Str) (method : Str)
    → check_common_name enforce common names method ≢ panics
unfolding check_common_name
common_name_calm enforce [] names method h = names_calm enforce names method h
common_name_calm enforce (c ∷ cs) names method h =
    elim (Bool-cases (check_service_access enforce (c ∷ cs) method)) [
      | inl e ↦ ground (rw e at h, arith)
      | inr e ↦ names_calm enforce names method (rw e at h)
    ]

client_calm :
    (enforce : Enforcer) (info : AuthInfo) (method : Str)
    → check_client enforce (some info) method ≢ panics
unfolding check_client
client_calm enforce inproc method h =
    elim (Bool-cases (check_service_access enforce anonymous_service_name method)) [
      | inl e ↦ ground (rw e at h, arith)
      | inr e ↦ ground (rw e at h, arith)
    ]
client_calm enforce tls_not_found method h = ground (h, arith)
client_calm enforce (tls []) method h = ground (h, arith)
client_calm enforce (tls (cert ∷ certs)) method h =
    common_name_calm enforce cert.common_name cert.dns_names method h
client_calm enforce (other auth_type) method h = ground (h, arith)

panics_of :
    (enforce : Enforcer) (peer : Option (Option AuthInfo)) (method : Str)
    → check_peer enforce peer method ≡ panics
    → peer ≡ some none
unfolding check_peer
panics_of enforce none method h = absurd (ground (h, arith))
panics_of enforce (some none) method h = refl
panics_of enforce (some (some info)) method h = absurd (client_calm enforce info method h)

-- The check panics for a peer without an AuthInfo only.
pub check_access-panics :
    (enforce : Enforcer) (peer : Option (Option AuthInfo)) (method : Str)
    → check_access enforce peer method ≡ panics
    → peer ≡ some none
unfolding check_access check_peer
check_access-panics enforce peer method h = elim (Bool-cases (is_open method)) [
  | inl e ↦ absurd (ground (rw e at h, arith))
  | inr e ↦ panics_of enforce peer (base_name method) (rw e at h)
]
