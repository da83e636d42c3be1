-- ===== src/Options.antt =====
-- The options of a server: the struct Server and its With functions in witchcraft/witchcraft.go. A
-- function or another value of the application is a number; `none` is nil.
pub mod Calls
pub mod Settings
pub mod Switches
pub mod Overlap
mod Tests
use witchcraft_go_server.Base.{
  ℕ, Bool, true, false, Option, none, some, List, [], ◌∷◌, ◌++◌, String, if◌then◌else◌,
}
use witchcraft_go_server.Startup.Start.{Check500, check_500s, always_healthy, disabled}
use witchcraft_go_server.Diagnostics.Handlers.{Handler, Handlers}
use witchcraft_go_server.Diagnostics.Custom
use witchcraft_go_server.Tracing.{Sampler, SampleRate, trace_sampler_from_sample_rate}

-- Where the bytes of the install configuration come from.
pub data InstallProvider : Type 0 where
  install_value install_provider : ℕ → InstallProvider
  install_file : String → InstallProvider

-- The runtime configuration: a value that is marshalled, a refreshable that is validated already or
-- one that is put under a validation without errors, a function, or a file.
pub data RuntimeProvider : Type 0 where
  runtime_value runtime_validated runtime_refreshable runtime_func : ℕ → RuntimeProvider
  runtime_file : String → RuntimeProvider

pub data KeyProvider : Type 0 where
  key_file : String → KeyProvider
  key_provider : ℕ → KeyProvider

-- The values that are left out of the metrics of a type.
abbrev pub TypeValues : Type 0
TypeValues = List (String × List String)

-- The fields that the With functions set.
pub record Server : Type 0 where
  pub handlers : List ℕ
  pub use_self_signed_server_certificate : Bool
  pub sig_quit_handler_writer : Option ℕ
  pub disable_sig_quit_handler : Bool
  pub disable_shutdown_signal_handler : Bool
  pub install_config_provider : Option InstallProvider
  pub runtime_config_provider : Option RuntimeProvider
  pub readiness_source : Option ℕ
  pub liveness_source : Option ℕ
  pub health_check_sources : Option (List ℕ)
  pub health_status_change_handlers : List ℕ
  pub custom_diagnostic_handlers : Option Handlers
  pub disable_service_dependency_health : Bool
  pub router_impl_provider : Option ℕ
  pub init_fn : Option ℕ
  pub ecv_key_provider : Option KeyProvider
  pub disable_go_runtime_metrics : Bool
  pub metrics_blocklist : Option (List String)
  pub metric_type_values_blocklist : Option TypeValues
  pub endpoint_500s_health_check_func : Check500
  pub client_auth : ℕ
  pub svc_log_origin : Option String
  pub svc_log_origin_from_call_line : Bool
  pub application_trace_sampler : Option Sampler
  pub management_trace_sampler : Option Sampler
  pub disable_keep_alives : Bool
  pub disable_http2 : Bool
  pub ids_extractor : Option ℕ
  pub logger_stdout_writer : Option ℕ
  pub dual_log_audit_v2_to_audit_v3 : Bool
  pub dual_log_audit_v3_to_audit_v2 : Bool
  pub job_runner_health_check : Option ℕ
  pub install_config_validation : Option Bool
  pub runtime_config_validation : Option ℕ

-- NewServer
abbrev pub new_server : Server
new_server = record {
  handlers = [];
  use_self_signed_server_certificate = false;
  sig_quit_handler_writer = none;
  disable_sig_quit_handler = false;
  disable_shutdown_signal_handler = false;
  install_config_provider = none;
  runtime_config_provider = none;
  readiness_source = none;
  liveness_source = none;
  health_check_sources = none;
  health_status_change_handlers = [];
  custom_diagnostic_handlers = none;
  disable_service_dependency_health = false;
  router_impl_provider = none;
  init_fn = none;
  ecv_key_provider = none;
  disable_go_runtime_metrics = false;
  metrics_blocklist = none;
  metric_type_values_blocklist = none;
  endpoint_500s_health_check_func = check_500s;
  client_auth = 0;
  svc_log_origin = none;
  svc_log_origin_from_call_line = false;
  application_trace_sampler = none;
  management_trace_sampler = none;
  disable_keep_alives = false;
  disable_http2 = false;
  ids_extractor = none;
  logger_stdout_writer = none;
  dual_log_audit_v2_to_audit_v3 = false;
  dual_log_audit_v3_to_audit_v2 = false;
  job_runner_health_check = none;
  install_config_validation = none;
  runtime_config_validation = none;
}

abbrev current_sources : Option (List ℕ) → List ℕ
current_sources none = []
current_sources (some sources) = sources

-- The loops of WithMetricTypeValuesBlocklist.
abbrev copy_values : List String → List String
copy_values [] = []
copy_values (v ∷ vs) = v ∷ copy_values vs

abbrev copy_type_values : TypeValues → TypeValues
copy_type_values [] = []
copy_type_values ((t, vs) ∷ rest) = (t, copy_values vs) ∷ copy_type_values rest

abbrev pub with_init_func : ℕ → Server → Server
with_init_func f s = record s { init_fn = some f }

abbrev pub with_install_config : ℕ → Server → Server
with_install_config cfg s = record s { install_config_provider = some (install_value cfg) }

abbrev pub with_install_config_from_file : String → Server → Server
with_install_config_from_file path s = record s {
  install_config_provider = some (install_file path);
}

abbrev pub with_install_config_provider : ℕ → Server → Server
with_install_config_provider p s = record s { install_config_provider = some (install_provider p) }

abbrev pub with_install_config_validation : Bool → Server → Server
with_install_config_validation strict s = record s { install_config_validation = some strict }

abbrev pub with_runtime_config : ℕ → Server → Server
with_runtime_config cfg s = record s { runtime_config_provider = some (runtime_value cfg) }

abbrev pub with_runtime_config_provider : Bool → ℕ → Server → Server
with_runtime_config_provider is_validated r s = record s {
  runtime_config_provider =
      some (if is_validated then runtime_validated r else runtime_refreshable r);
}

abbrev pub with_runtime_config_provider_func : ℕ → Server → Server
with_runtime_config_provider_func f s = record s { runtime_config_provider = some (runtime_func f) }

abbrev pub with_runtime_config_from_file : String → Server → Server
with_runtime_config_from_file path s = record s {
  runtime_config_provider = some (runtime_file path);
}

abbrev pub with_runtime_config_validation : ℕ → Server → Server
with_runtime_config_validation opts s = record s { runtime_config_validation = some opts }

abbrev pub with_self_signed_certificate : Server → Server
with_self_signed_certificate s = record s { use_self_signed_server_certificate = true }

abbrev pub with_ecv_key_from_file : String → Server → Server
with_ecv_key_from_file path s = record s { ecv_key_provider = some (key_file path) }

abbrev pub with_ecv_key_provider : ℕ → Server → Server
with_ecv_key_provider p s = record s { ecv_key_provider = some (key_provider p) }

abbrev pub with_client_auth : ℕ → Server → Server
with_client_auth auth s = record s { client_auth = auth }

abbrev pub with_health : List ℕ → Server → Server
with_health sources s = record s {
  health_check_sources = some (current_sources s.health_check_sources ++ sources);
}

abbrev pub with_readiness : ℕ → Server → Server
with_readiness source s = record s { readiness_source = some source }

abbrev pub with_liveness : ℕ → Server → Server
with_liveness source s = record s { liveness_source = some source }

abbrev pub with_origin : String → Server → Server
with_origin o s = record s { svc_log_origin = some o }

abbrev pub with_origin_from_call_line : Server → Server
with_origin_from_call_line s = record s { svc_log_origin_from_call_line = true }

abbrev pub with_middleware : ℕ → Server → Server
with_middleware m s = record s { handlers = s.handlers ++ (m ∷ []) }

abbrev pub with_router_impl_provider : ℕ → Server → Server
with_router_impl_provider p s = record s { router_impl_provider = some p }

abbrev pub with_trace_sampler : Sampler → Server → Server
with_trace_sampler sampler s = record s { application_trace_sampler = some sampler }

abbrev pub with_trace_sampler_rate : SampleRate → Server → Server
with_trace_sampler_rate rate s = with_trace_sampler (trace_sampler_from_sample_rate rate) s

abbrev pub with_management_trace_sampler : Sampler → Server → Server
with_management_trace_sampler sampler s = record s { management_trace_sampler = some sampler }

abbrev pub with_management_trace_sampler_rate : SampleRate → Server → Server
with_management_trace_sampler_rate rate s =
    with_management_trace_sampler (trace_sampler_from_sample_rate rate) s

abbrev pub with_sig_quit_handler_writer : ℕ → Server → Server
with_sig_quit_handler_writer w s = record s { sig_quit_handler_writer = some w }

abbrev pub with_disable_sig_quit_handler : Server → Server
with_disable_sig_quit_handler s = record s { disable_sig_quit_handler = true }

abbrev pub with_disable_shutdown_signal_handler : Server → Server
with_disable_shutdown_signal_handler s = record s { disable_shutdown_signal_handler = true }

abbrev pub with_disable_keep_alives : Server → Server
with_disable_keep_alives s = record s { disable_keep_alives = true }

abbrev pub with_disable_http2 : Server → Server
with_disable_http2 s = record s { disable_http2 = true }

abbrev pub with_disable_go_runtime_metrics : Server → Server
with_disable_go_runtime_metrics s = record s { disable_go_runtime_metrics = true }

abbrev pub with_disable_service_dependency_health : Server → Server
with_disable_service_dependency_health s = record s { disable_service_dependency_health = true }

abbrev pub with_metrics_blocklist : List String → Server → Server
with_metrics_blocklist ids s = record s { metrics_blocklist = some ids }

abbrev pub with_metric_type_values_blocklist : TypeValues → Server → Server
with_metric_type_values_blocklist values s = record s {
  metric_type_values_blocklist = some (copy_type_values values);
}

abbrev pub with_disable_endpoint_500s : Server → Server
with_disable_endpoint_500s s = record s { endpoint_500s_health_check_func = disabled }

abbrev pub with_always_healthy_endpoint_500s : Server → Server
with_always_healthy_endpoint_500s s = record s { endpoint_500s_health_check_func = always_healthy }

abbrev pub with_logger_stdout_writer : ℕ → Server → Server
with_logger_stdout_writer w s = record s { logger_stdout_writer = some w }

abbrev pub with_health_status_change_handlers : List ℕ → Server → Server
with_health_status_change_handlers hs s = record s {
  health_status_change_handlers = s.health_status_change_handlers ++ hs;
}

abbrev pub with_custom_diagnostic_handlers : List Handler → Server → Server
with_custom_diagnostic_handlers hs s = record s {
  custom_diagnostic_handlers =
      Custom.with_custom_diagnostic_handlers hs s.custom_diagnostic_handlers;
}

abbrev pub with_enable_dual_log_v2_to_v3 : Server → Server
with_enable_dual_log_v2_to_v3 s = record s { dual_log_audit_v2_to_audit_v3 = true }

abbrev pub with_job_runner_health_check : ℕ → Server → Server
with_job_runner_health_check check s = record s { job_runner_health_check = some check }

abbrev pub with_ids_extractor : ℕ → Server → Server
with_ids_extractor e s = record s { ids_extractor = some e }

abbrev pub with_enable_dual_log_v3_to_v2 : Server → Server
with_enable_dual_log_v3_to_v2 s = record s { dual_log_audit_v3_to_audit_v2 = true }
