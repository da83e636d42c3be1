-- ===== src/Serving.antt =====
-- The http servers: witchcraft/server_run.go, and the stopping functions that Shutdown and Close of
-- witchcraft/witchcraft.go give to stopServer. The TLS library and net/http are parameters: whether
-- a TLS configuration can be built, and how serving ends.
mod Tests
use text.Mathlib.Text.{◌==◌ as str_eq}
use text.Mathlib.TextEquality.{eq_iff}
use Prim.Native.String.{◌++◌ as str_append}
use witchcraft_go_server.Base.{
  ℕ, Bool, true, false, not, ◌&&◌, ◌||◌, Bool-cases, Option, none, some, List, [], ◌∷◌, String,
  if◌then◌else◌, ◌≡◌, ◌≢◌, ◌↔◌, ◌⊎◌, inl, inr, refl, arith,
}

-- The fields of config.Server that a server is made from.
pub record ServerConfig : Type 0 where
  pub address : String
  pub port : ℕ
  pub management_port : ℕ
  pub client_ca_files : List String
  pub cert_file : String
  pub key_file : String

pub data ClientAuth : Type 0 where
  no_client_cert : ClientAuth
  client_auth : ℕ → ClientAuth

pub data CertProvider : Type 0 where
  self_signed : CertProvider
  from_files : String → String → CertProvider

pub record TlsConfig : Type 0 where
  pub provider : CertProvider
  pub client_ca_files : List String
  pub auth : ClientAuth

pub data Error : Type 0 where
  not_specified : String → Error
  tls_failed : Error
  server_failed : String → Error

pub data Result (A : Type 0) : Type 0 where
  ok : A → Result A
  err : Error → Result A

-- newTLSCertProvider
abbrev pub new_tls_cert_provider : Bool → String → String → CertProvider
new_tls_cert_provider use_self_signed cert_file key_file =
    if use_self_signed then self_signed else from_files cert_file key_file

-- What is missing of the two files, in the words of the message.
abbrev pub missing_message : String → String → String
missing_message key_file cert_file =
    if str_eq key_file "" && str_eq cert_file ""
    then "key file and certificate file"
    else if str_eq key_file ""
    then "key file"
    else "certificate file"

-- newTLSConfig; `builds` says whether the TLS library makes a configuration of these.
unfoldable pub new_tls_config :
    (TlsConfig → Bool) → ServerConfig → Bool → ClientAuth → Result TlsConfig
new_tls_config builds cfg use_self_signed auth =
    let tls = new_tls_cert_provider use_self_signed cfg.cert_file cfg.key_file in
    if not use_self_signed && (str_eq cfg.key_file "" || str_eq cfg.cert_file "")
    then err (
        not_specified (
          str_append (missing_message cfg.key_file cfg.cert_file)
            " for server not specified in configuration"))
    else if builds (record { provider = tls; client_ca_files = cfg.client_ca_files; auth = auth })
    then ok (record { provider = tls; client_ca_files = cfg.client_ca_files; auth = auth })
    else err tls_failed

pub record HttpServer : Type 0 where
  pub address : String
  pub port : ℕ
  pub tls : TlsConfig
  pub name : String
  pub has_conn_state : Bool

-- newServerStartShutdownFns
unfoldable pub new_server_start_shutdown_fns :
    (TlsConfig → Bool) → ServerConfig → Bool → ClientAuth → String → Bool → Result HttpServer
unfolding new_tls_config
new_server_start_shutdown_fns builds cfg use_self_signed auth server_name has_conn_state =
    elim (new_tls_config builds cfg use_self_signed auth) [
      | err e ↦ err e
      | ok tls ↦ ok (record {
        address = cfg.address;
        port = cfg.port;
        tls = tls;
        name = server_name;
        has_conn_state = has_conn_state;
      })
    ]

-- newServer
abbrev pub new_server :
    (TlsConfig → Bool) → ServerConfig → Bool → ClientAuth → String → Result HttpServer
new_server builds cfg use_self_signed auth product_name =
    new_server_start_shutdown_fns builds cfg use_self_signed auth product_name true

-- newMgmtServer
abbrev pub new_mgmt_server : (TlsConfig → Bool) → ServerConfig → Bool → String → Result HttpServer
new_mgmt_server builds cfg use_self_signed product_name =
    new_server_start_shutdown_fns builds (record cfg { port = cfg.management_port }) use_self_signed
      no_client_cert (str_append product_name "-management") false

-- How ListenAndServeTLS ends.
pub data Ending : Type 0 where
  ended closed failed : Ending

-- The start function: `none` is nil.
abbrev pub start_result : HttpServer → Ending → Option Error
start_result s failed = some (server_failed s.name)
start_result s _ = none

-- The stopping function of Shutdown: the error of the http server, and the context's, each `none`
-- for nil; `is` is errors.Is.
unfoldable pub shutdown_stopper : {E : Type 0} → (E → E → Bool) → Option E → Option E → Option E
shutdown_stopper is none ctx_err = none
shutdown_stopper is (some e) none = some e
shutdown_stopper is (some e) (some c) = if not (is e c) then some e else none

-- The TLS configuration that newTLSConfig tries to build.
abbrev pub wanted : ServerConfig → Bool → ClientAuth → TlsConfig
wanted cfg use_self_signed auth = record {
  provider = if use_self_signed then self_signed else from_files cfg.cert_file cfg.key_file;
  client_ca_files = cfg.client_ca_files;
  auth = auth;
}

-- A server can be made if and only if it has a certificate, a self-signed one or both files, and the
-- TLS library takes what is built of it; it listens at the port of its configuration.
pub new_server_start_shutdown_fns_iff :
    (builds : TlsConfig → Bool) (cfg : ServerConfig) (use_self_signed : Bool) (auth : ClientAuth)
    (name : String) (has_conn_state : Bool) (server : HttpServer)
    → (new_server_start_shutdown_fns builds cfg use_self_signed auth name has_conn_state
        ≡ ok server)
      ↔ (((use_self_signed ≡ true) ⊎ ((cfg.key_file ≢ "") × (cfg.cert_file ≢ "")))
          × (builds (wanted cfg use_self_signed auth) ≡ true)
          × (server ≡ record {
            address = cfg.address;
            port = cfg.port;
            tls = wanted cfg use_self_signed auth;
            name = name;
            has_conn_state = has_conn_state;
          }))
unfolding new_server_start_shutdown_fns new_tls_config
new_server_start_shutdown_fns_iff builds cfg true auth name has_conn_state server =
    elim (Bool-cases (builds (wanted cfg true auth))) [
      | inl b ↦ (λ h. (inl refl, b, ground (arith, h)), λ (c, b', e). ground (arith, e))
      | inr b ↦ (λ h. ground arith, λ (c, b', e). ground arith)
    ]
new_server_start_shutdown_fns_iff builds cfg false auth name has_conn_state server =
    elim (Bool-cases (str_eq cfg.key_file "" || str_eq cfg.cert_file "")) [
      | inl l ↦ (
        λ h. ground arith,
        λ (c, b', e). ground (arith, eq_iff cfg.key_file "", eq_iff cfg.cert_file ""),
      )
      | inr l ↦ elim (Bool-cases (builds (wanted cfg false auth))) [
        | inl b ↦ (
          λ h. (
            inr (ground (arith, eq_iff cfg.key_file ""), ground (arith, eq_iff cfg.cert_file "")),
            b,
            ground (arith, h),
          ),
          λ (c, b', e). ground (arith, e),
        )
        | inr b ↦ (λ h. ground arith, λ (c, b', e). ground arith)
      ]
    ]
