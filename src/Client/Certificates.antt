-- ===== src/Client/Certificates.antt =====
-- The certificates of dmmain/cwmpd_client.c and the context of its connections.
use tr069_manager.Base.{
  ◌≡◌, Bool, false, ◌&&◌, Option, none, some, ◌++◌, arith, if◌then◌else◌, CString, codes,
  starts_with, length, drop, is_empty,
}

-- The static variables of the file names.
pub record Certificates : Type 0 where
  pub client_cert : Option CString
  pub client_key : Option CString
  pub ca_cert : CString

-- The fields of application_t that are read, with the certificate and the key that
-- cwmp_get_certificate_uri gives for the row of a certificate.
pub record Config : Type 0 where
  pub ssl_certificate : Option CString
  pub ssl_client_cert : CString
  pub ssl_client_priv_key : CString
  pub trusted_ca : CString
  pub certificate_uri : CString → Option CString × Option CString

abbrev pub file_prefix : CString
file_prefix = codes "file://"

-- A file URI without its scheme.
unfoldable pub strip_scheme : Option CString → Option CString
strip_scheme none = none
strip_scheme (some uri) =
    some (if starts_with uri file_prefix then drop (length file_prefix) uri else uri)

unfoldable pub configured_files : Config → Certificates
configured_files conf = record {
  client_cert = some conf.ssl_client_cert;
  client_key = some conf.ssl_client_priv_key;
  ca_cert = conf.trusted_ca;
}

-- cwmp_prepare_ssl_data
unfoldable pub prepare_ssl_data : Config → Certificates
prepare_ssl_data conf = elim conf.ssl_certificate [
  | none ↦ configured_files conf
  | some row ↦
      let (cert, key) = conf.certificate_uri row in
      if is_empty row then configured_files conf else record {
        client_cert = strip_scheme cert;
        client_key = strip_scheme key;
        ca_cert = conf.trusted_ca;
      }
]

-- The calls of cwmp_client_ssl_ctx, true where each succeeds.
pub record EngineCalls : Type 0 where
  pub engine_found : Bool
  pub engine_starts : Bool
  pub cert_loads : Bool
  pub ca_loads : Bool
  pub key_loads : Bool
  pub key_is_used : Bool
  pub key_matches : Bool

-- cwmp_client_ssl_ctx; true for its 0.
unfoldable pub client_ssl_ctx : EngineCalls → Bool
client_ssl_ctx calls =
    calls.engine_found
    && (calls.engine_starts
        && (calls.cert_loads
            && (calls.ca_loads && (calls.key_loads && (calls.key_is_used && calls.key_matches)))))

-- How the context takes the key of the client.
pub data Setup : Type 0 where
  with_engine : Setup
  with_files : Certificates → Setup

abbrev pub is_engine_key : Option CString → Bool
is_engine_key none = false
is_engine_key (some key) = starts_with key (codes "pkcs11:")

-- cwmp_client_init: what lws_create_context is called with, if it is called; true for
-- cwmp_status_ok.
unfoldable pub client_init : Config → EngineCalls → Bool → Option Setup × Bool
client_init conf calls context_made =
    let files = prepare_ssl_data conf in
    if is_engine_key files.client_key
    then if client_ssl_ctx calls then (some with_engine, context_made) else (none, false)
    else (some (with_files files), context_made)

-- A row of the certificate table whose key is a file is used as that file, without the scheme, and
-- the private key of the configuration is not used.
pub client_init-file :
    (conf : Config) (calls : EngineCalls) (made : Bool) (row cert key : CString)
    → conf.ssl_certificate ≡ some row
    → is_empty row ≡ false
    → conf.certificate_uri row ≡ (some cert, some (file_prefix ++ key))
    → is_engine_key (some key) ≡ false
    → (client_init conf calls made).0
      ≡ some (
          with_files (record {
            client_cert = strip_scheme (some cert);
            client_key = some key;
            ca_cert = conf.trusted_ca;
          }))
unfolding client_init prepare_ssl_data strip_scheme starts_with
client_init-file conf calls made row cert key certificate full uri file =
    ground (arith, certificate, full, uri, file)
