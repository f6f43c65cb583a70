-- ===== src/Appmgr/Tls.antt =====
-- appmgr/grpc.go: TLS configurations, and the credentials of servers and clients. `tls.LoadX509KeyPair`,
-- `os.ReadFile` and `AppendCertsFromPEM` are parameters; certificates and pools are numbers.
pub mod Configured
use framego.Prelude.{ℕ, Bool, true, false, ◌&&◌, List, [], ◌∷◌, Option, none, some, if◌then◌else◌}
use framego.Prelude.Text.{Str}
use framego.Appmgr.Middleware.Builtin.{is_empty}
use framego.Appmgr.Clients.{GrpcSecurityConfig}

pub record Files : Type 0 where
  pub load_x509_key_pair : Str → Str → Option ℕ
  pub read_file : Str → Option Str
  pub certs_from_pem : Str → Option ℕ

-- `RootCAs` and `ClientCAs` are one pool.
pub record TlsConfig : Type 0 where
  pub certificates : List ℕ
  pub cas : Option ℕ
  pub requires_client_cert : Bool
  pub server_name : Str

pub data Failure : Type 0 where
  load_cert_key_pair_error : Str → Str → Failure
  read_ca_file_error : Str → Failure
  add_ca_cert_error : Str → Failure

-- `no_tls` is a nil configuration without an error.
pub data NewTls : Type 0 where
  failed : Failure → NewTls
  no_tls : NewTls
  configured : TlsConfig → NewTls

abbrev pub tls_of : List ℕ → Option ℕ → TlsConfig
tls_of certificates cas = record {
  certificates = certificates;
  cas = cas;
  requires_client_cert = false;
  server_name = [];
}

abbrev pub pool_made : List ℕ → Str → Option ℕ → NewTls
pool_made certificates ca_file none = failed (add_ca_cert_error ca_file)
pool_made certificates ca_file (some pool) = configured (tls_of certificates (some pool))

abbrev pub ca_read : Files → List ℕ → Str → Option Str → NewTls
ca_read files certificates ca_file none = failed (read_ca_file_error ca_file)
ca_read files certificates ca_file (some ca) =
    pool_made certificates ca_file (files.certs_from_pem ca)

unfoldable pub with_ca : Files → List ℕ → Str → NewTls
with_ca files certificates [] = configured (tls_of certificates none)
with_ca files certificates (c ∷ ca_file) =
    ca_read files certificates (c ∷ ca_file) (files.read_file (c ∷ ca_file))

abbrev pub pair_loaded : Files → Str → Str → Str → Option ℕ → NewTls
pair_loaded files cert_file key_file ca_file none =
    failed (load_cert_key_pair_error cert_file key_file)
pair_loaded files cert_file key_file ca_file (some certificate) =
    with_ca files (certificate ∷ []) ca_file

-- A certificate without a key, or a key without a certificate, is left out.
unfoldable pub with_pair : Files → Str → Str → Str → NewTls
unfolding with_ca
with_pair files (c ∷ cert_file) (k ∷ key_file) ca_file =
    pair_loaded files (c ∷ cert_file) (k ∷ key_file) ca_file
      (files.load_x509_key_pair (c ∷ cert_file) (k ∷ key_file))
with_pair files cert_file key_file ca_file = with_ca files [] ca_file

unfoldable pub new_tls_config : Files → GrpcSecurityConfig → NewTls
unfolding with_pair
new_tls_config files c =
    let made = with_pair files c.cert c.key c.ca in
    if is_empty c.cert && (is_empty c.key && is_empty c.ca) then no_tls else made

-- `none` is a connection without transport security.
unfoldable pub server_creds : Option TlsConfig → Option TlsConfig
server_creds none = none
server_creds (some tls) = some (record tls { requires_client_cert = true })

unfoldable pub client_creds : Str → Option TlsConfig → Option TlsConfig
client_creds name none = none
client_creds name (some tls) = some (record tls { server_name = name })
