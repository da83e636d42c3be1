-- ===== src/Serving/Tests.antt =====
-- The servers at concrete configurations.
use witchcraft_go_server.Base.{true, false, none, some, [], ◌≡◌, ◌≢◌, ◌↔◌, ◌⊎◌, refl}
use text.Mathlib.Text.{◌==◌ as str_eq}
use witchcraft_go_server.Serving.{
  ServerConfig, no_client_cert, client_auth, HttpServer, ok, err, not_specified, self_signed,
  new_server, new_mgmt_server, new_server_start_shutdown_fns, wanted, shutdown_stopper,
  new_server_start_shutdown_fns_iff,
}

abbrev no_key : ServerConfig
no_key = record {
  address = "0.0.0.0";
  port = 8443;
  management_port = 8444;
  client_ca_files = [];
  cert_file = "cert.pem";
  key_file = "";
}

key_missing :
    new_server (λ t. true) no_key false (client_auth 4) "app"
    ≡ err (not_specified "key file for server not specified in configuration")
unfolding new_server_start_shutdown_fns
key_missing = refl

abbrev management : HttpServer
management = record {
  address = "0.0.0.0";
  port = 8444;
  tls = record { provider = self_signed; client_ca_files = []; auth = no_client_cert };
  name = "app-management";
  has_conn_state = false;
}

management_server : new_mgmt_server (λ t. true) no_key true "app" ≡ ok management
unfolding new_server_start_shutdown_fns
management_server = refl

-- An error of the context is no error of the shutdown.
interrupted : shutdown_stopper str_eq (some "deadline") (some "deadline") ≡ none
unfolding shutdown_stopper
interrupted = refl

new_server_start_shutdown_fns_iff_example :
    (new_server_start_shutdown_fns (λ t. true) no_key true no_client_cert "app" false
      ≡ ok management)
    ↔ (((true ≡ true) ⊎ ((no_key.key_file ≢ "") × (no_key.cert_file ≢ "")))
        × (true ≡ true)
        × (management ≡ record {
          address = "0.0.0.0";
          port = 8443;
          tls = wanted no_key true no_client_cert;
          name = "app";
          has_conn_state = false;
        }))
new_server_start_shutdown_fns_iff_example =
    new_server_start_shutdown_fns_iff (λ t. true) no_key true no_client_cert "app" false management
