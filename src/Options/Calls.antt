-- ===== src/Options/Calls.antt =====
-- The With functions of witchcraft/witchcraft.go as calls, one after another.
use witchcraft_go_server.Base.{ℕ, Bool, List, [], ◌∷◌, String}
use witchcraft_go_server.Tracing.{Sampler, SampleRate}
use witchcraft_go_server.Diagnostics.Handlers.{Handler}
use witchcraft_go_server.Options.{
  Server, TypeValues, with_init_func, with_install_config, with_install_config_from_file,
  with_install_config_provider, with_install_config_validation, with_runtime_config,
  with_runtime_config_provider, with_runtime_config_provider_func, with_runtime_config_from_file,
  with_runtime_config_validation, with_self_signed_certificate, with_ecv_key_from_file,
  with_ecv_key_provider, with_client_auth, with_health, with_readiness, with_liveness, with_origin,
  with_origin_from_call_line, with_middleware, with_router_impl_provider, with_trace_sampler,
  with_trace_sampler_rate, with_management_trace_sampler, with_management_trace_sampler_rate,
  with_sig_quit_handler_writer, with_disable_sig_quit_handler, with_disable_shutdown_signal_handler,
  with_disable_keep_alives, with_disable_http2, with_disable_go_runtime_metrics,
  with_disable_service_dependency_health, with_metrics_blocklist, with_metric_type_values_blocklist,
  with_disable_endpoint_500s, with_always_healthy_endpoint_500s, with_logger_stdout_writer,
  with_health_status_change_handlers, with_custom_diagnostic_handlers,
  with_enable_dual_log_v2_to_v3, with_job_runner_health_check, with_ids_extractor,
  with_enable_dual_log_v3_to_v2,
}

-- A call of a With function.
pub data With : Type 0 where
  init_func : ℕ → With
  install_config : ℕ → With
  install_config_from_file : String → With
  install_config_provider : ℕ → With
  install_config_validation : Bool → With
  runtime_config : ℕ → With
  runtime_config_provider : Bool → ℕ → With
  runtime_config_provider_func : ℕ → With
  runtime_config_from_file : String → With
  runtime_config_validation : ℕ → With
  self_signed_certificate : With
  ecv_key_from_file : String → With
  ecv_key_provider : ℕ → With
  client_auth : ℕ → With
  health : List ℕ → With
  readiness : ℕ → With
  liveness : ℕ → With
  origin : String → With
  origin_from_call_line : With
  middleware : ℕ → With
  router_impl_provider : ℕ → With
  trace_sampler : Sampler → With
  trace_sampler_rate : SampleRate → With
  management_trace_sampler : Sampler → With
  management_trace_sampler_rate : SampleRate → With
  sig_quit_handler_writer : ℕ → With
  disable_sig_quit_handler : With
  disable_shutdown_signal_handler : With
  disable_keep_alives : With
  disable_http2 : With
  disable_go_runtime_metrics : With
  disable_service_dependency_health : With
  metrics_blocklist : List String → With
  metric_type_values_blocklist : TypeValues → With
  disable_endpoint_500s : With
  always_healthy_endpoint_500s : With
  logger_stdout_writer : ℕ → With
  health_status_change_handlers : List ℕ → With
  custom_diagnostic_handlers : List Handler → With
  enable_dual_log_v2_to_v3 : With
  job_runner_health_check : ℕ → With
  ids_extractor : ℕ → With
  enable_dual_log_v3_to_v2 : With

unfoldable pub apply : With → Server → Server
apply (init_func f) s = with_init_func f s
apply (install_config cfg) s = with_install_config cfg s
apply (install_config_from_file path) s = with_install_config_from_file path s
apply (install_config_provider p) s = with_install_config_provider p s
apply (install_config_validation strict) s = with_install_config_validation strict s
apply (runtime_config cfg) s = with_runtime_config cfg s
apply (runtime_config_provider is_validated r) s = with_runtime_config_provider is_validated r s
apply (runtime_config_provider_func f) s = with_runtime_config_provider_func f s
apply (runtime_config_from_file path) s = with_runtime_config_from_file path s
apply (runtime_config_validation opts) s = with_runtime_config_validation opts s
apply self_signed_certificate s = with_self_signed_certificate s
apply (ecv_key_from_file path) s = with_ecv_key_from_file path s
apply (ecv_key_provider p) s = with_ecv_key_provider p s
apply (client_auth auth) s = with_client_auth auth s
apply (health sources) s = with_health sources s
apply (readiness source) s = with_readiness source s
apply (liveness source) s = with_liveness source s
apply (origin o) s = with_origin o s
apply origin_from_call_line s = with_origin_from_call_line s
apply (middleware m) s = with_middleware m s
apply (router_impl_provider p) s = with_router_impl_provider p s
apply (trace_sampler sampler) s = with_trace_sampler sampler s
apply (trace_sampler_rate rate) s = with_trace_sampler_rate rate s
apply (management_trace_sampler sampler) s = with_management_trace_sampler sampler s
apply (management_trace_sampler_rate rate) s = with_management_trace_sampler_rate rate s
apply (sig_quit_handler_writer w) s = with_sig_quit_handler_writer w s
apply disable_sig_quit_handler s = with_disable_sig_quit_handler s
apply disable_shutdown_signal_handler s = with_disable_shutdown_signal_handler s
apply disable_keep_alives s = with_disable_keep_alives s
apply disable_http2 s = with_disable_http2 s
apply disable_go_runtime_metrics s = with_disable_go_runtime_metrics s
apply disable_service_dependency_health s = with_disable_service_dependency_health s
apply (metrics_blocklist ids) s = with_metrics_blocklist ids s
apply (metric_type_values_blocklist values) s = with_metric_type_values_blocklist values s
apply disable_endpoint_500s s = with_disable_endpoint_500s s
apply always_healthy_endpoint_500s s = with_always_healthy_endpoint_500s s
apply (logger_stdout_writer w) s = with_logger_stdout_writer w s
apply (health_status_change_handlers hs) s = with_health_status_change_handlers hs s
apply (custom_diagnostic_handlers hs) s = with_custom_diagnostic_handlers hs s
apply enable_dual_log_v2_to_v3 s = with_enable_dual_log_v2_to_v3 s
apply (job_runner_health_check check) s = with_job_runner_health_check check s
apply (ids_extractor e) s = with_ids_extractor e s
apply enable_dual_log_v3_to_v2 s = with_enable_dual_log_v3_to_v2 s

-- The calls in their order.
unfoldable pub configure : List With → Server → Server
configure [] s = s
configure (w ∷ ws) s = configure ws (apply w s)
