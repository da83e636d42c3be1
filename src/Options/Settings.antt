-- ===== src/Options/Settings.antt =====
-- What the calls of the With functions make of the server, setting by setting.
use witchcraft_go_server.Base.{
  ℕ, Bool, Option, none, some, List, [], ◌∷◌, String, if◌then◌else◌, ◌≡◌, refl, ap, ◌∙◌,
}
use witchcraft_go_server.Startup.Start.{Check500, always_healthy, disabled}
use witchcraft_go_server.Tracing.{Sampler, trace_sampler_from_sample_rate}
use witchcraft_go_server.Options.{
  Server, InstallProvider, install_value, install_file, install_provider, RuntimeProvider,
  runtime_value, runtime_validated, runtime_refreshable, runtime_func, runtime_file, KeyProvider,
  key_file, key_provider, TypeValues, copy_values, copy_type_values,
}
use witchcraft_go_server.Options.Calls.{With, apply, configure}

-- The settings of which there is one value, the last one given.
pub data Setting : Type 0 where
  init_fn install_config install_validation runtime_config runtime_validation ecv_key client_auth
        readiness liveness origin router_impl trace_sampler management_sampler sig_quit_writer
        metrics_blocklist type_values endpoint_500s stdout_writer ids_extractor job_health :
      Setting

abbrev pub Value : Setting → Type 0
Value Setting.init_fn = Option ℕ
Value Setting.install_config = Option InstallProvider
Value Setting.install_validation = Option Bool
Value Setting.runtime_config = Option RuntimeProvider
Value Setting.runtime_validation = Option ℕ
Value Setting.ecv_key = Option KeyProvider
Value Setting.client_auth = ℕ
Value Setting.readiness = Option ℕ
Value Setting.liveness = Option ℕ
Value Setting.origin = Option String
Value Setting.router_impl = Option ℕ
Value Setting.trace_sampler = Option Sampler
Value Setting.management_sampler = Option Sampler
Value Setting.sig_quit_writer = Option ℕ
Value Setting.metrics_blocklist = Option (List String)
Value Setting.type_values = Option TypeValues
Value Setting.endpoint_500s = Check500
Value Setting.stdout_writer = Option ℕ
Value Setting.ids_extractor = Option ℕ
Value Setting.job_health = Option ℕ

abbrev pub setting : (x : Setting) → Server → Value x
setting Setting.init_fn s = s.init_fn
setting Setting.install_config s = s.install_config_provider
setting Setting.install_validation s = s.install_config_validation
setting Setting.runtime_config s = s.runtime_config_provider
setting Setting.runtime_validation s = s.runtime_config_validation
setting Setting.ecv_key s = s.ecv_key_provider
setting Setting.client_auth s = s.client_auth
setting Setting.readiness s = s.readiness_source
setting Setting.liveness s = s.liveness_source
setting Setting.origin s = s.svc_log_origin
setting Setting.router_impl s = s.router_impl_provider
setting Setting.trace_sampler s = s.application_trace_sampler
setting Setting.management_sampler s = s.management_trace_sampler
setting Setting.sig_quit_writer s = s.sig_quit_handler_writer
setting Setting.metrics_blocklist s = s.metrics_blocklist
setting Setting.type_values s = s.metric_type_values_blocklist
setting Setting.endpoint_500s s = s.endpoint_500s_health_check_func
setting Setting.stdout_writer s = s.logger_stdout_writer
setting Setting.ids_extractor s = s.ids_extractor
setting Setting.job_health s = s.job_runner_health_check

-- The value that a call gives to a setting, if it does.
abbrev pub given : (x : Setting) → With → Option (Value x)
given Setting.init_fn (With.init_func f) = some (some f)
given Setting.init_fn _ = none
given Setting.install_config (With.install_config cfg) = some (some (install_value cfg))
given Setting.install_config (With.install_config_from_file path) = some (some (install_file path))
given Setting.install_config (With.install_config_provider p) = some (some (install_provider p))
given Setting.install_config _ = none
given Setting.install_validation (With.install_config_validation strict) = some (some strict)
given Setting.install_validation _ = none
given Setting.runtime_config (With.runtime_config cfg) = some (some (runtime_value cfg))
given Setting.runtime_config (With.runtime_config_provider is_validated r) =
    some (some (if is_validated then runtime_validated r else runtime_refreshable r))
given Setting.runtime_config (With.runtime_config_provider_func f) = some (some (runtime_func f))
given Setting.runtime_config (With.runtime_config_from_file path) = some (some (runtime_file path))
given Setting.runtime_config _ = none
given Setting.runtime_validation (With.runtime_config_validation opts) = some (some opts)
given Setting.runtime_validation _ = none
given Setting.ecv_key (With.ecv_key_from_file path) = some (some (key_file path))
given Setting.ecv_key (With.ecv_key_provider p) = some (some (key_provider p))
given Setting.ecv_key _ = none
given Setting.client_auth (With.client_auth auth) = some auth
given Setting.client_auth _ = none
given Setting.readiness (With.readiness source) = some (some source)
given Setting.readiness _ = none
given Setting.liveness (With.liveness source) = some (some source)
given Setting.liveness _ = none
given Setting.origin (With.origin o) = some (some o)
given Setting.origin _ = none
given Setting.router_impl (With.router_impl_provider p) = some (some p)
given Setting.router_impl _ = none
given Setting.trace_sampler (With.trace_sampler sampler) = some (some sampler)
given Setting.trace_sampler (With.trace_sampler_rate rate) =
    some (some (trace_sampler_from_sample_rate rate))
given Setting.trace_sampler _ = none
given Setting.management_sampler (With.management_trace_sampler sampler) = some (some sampler)
given Setting.management_sampler (With.management_trace_sampler_rate rate) =
    some (some (trace_sampler_from_sample_rate rate))
given Setting.management_sampler _ = none
given Setting.sig_quit_writer (With.sig_quit_handler_writer w) = some (some w)
given Setting.sig_quit_writer _ = none
given Setting.metrics_blocklist (With.metrics_blocklist ids) = some (some ids)
given Setting.metrics_blocklist _ = none
given Setting.type_values (With.metric_type_values_blocklist values) = some (some values)
given Setting.type_values _ = none
given Setting.endpoint_500s With.disable_endpoint_500s = some disabled
given Setting.endpoint_500s With.always_healthy_endpoint_500s = some always_healthy
given Setting.endpoint_500s _ = none
given Setting.stdout_writer (With.logger_stdout_writer w) = some (some w)
given Setting.stdout_writer _ = none
given Setting.ids_extractor (With.ids_extractor e) = some (some e)
given Setting.ids_extractor _ = none
given Setting.job_health (With.job_runner_health_check check) = some (some check)
given Setting.job_health _ = none

abbrev pub or_else {ℓ} : {A : Type ℓ} → Option A → A → A
or_else none b = b
or_else (some a) b = a

-- The value that the last call gives that gives one.
unfoldable pub last_given : (x : Setting) → List With → Option (Value x)
last_given x [] = none
last_given x (w ∷ ws) = elim (last_given x ws) [ some v ↦ some v | none ↦ given x w ]

copy_values-same : (vs : List String) → copy_values vs ≡ vs
copy_values-same [] = refl
copy_values-same (v ∷ vs) = ap (λ rest. v ∷ rest) (copy_values-same vs)

copy_type_values-same : (values : TypeValues) → copy_type_values values ≡ values
copy_type_values-same [] = refl
copy_type_values-same ((t, vs) ∷ rest) =
    let same = copy_values-same vs in let same_rest = copy_type_values-same rest in cc

apply-setting :
    (x : Setting) (w : With) (s : Server)
    → setting x (apply w s) ≡ or_else (given x w) (setting x s)
unfolding apply
apply-setting Setting.init_fn (With.init_func f) s = refl
apply-setting Setting.init_fn _ s = refl
apply-setting Setting.install_config (With.install_config cfg) s = refl
apply-setting Setting.install_config (With.install_config_from_file path) s = refl
apply-setting Setting.install_config (With.install_config_provider p) s = refl
apply-setting Setting.install_config _ s = refl
apply-setting Setting.install_validation (With.install_config_validation strict) s = refl
apply-setting Setting.install_validation _ s = refl
apply-setting Setting.runtime_config (With.runtime_config cfg) s = refl
apply-setting Setting.runtime_config (With.runtime_config_provider is_validated r) s = refl
apply-setting Setting.runtime_config (With.runtime_config_provider_func f) s = refl
apply-setting Setting.runtime_config (With.runtime_config_from_file path) s = refl
apply-setting Setting.runtime_config _ s = refl
apply-setting Setting.runtime_validation (With.runtime_config_validation opts) s = refl
apply-setting Setting.runtime_validation _ s = refl
apply-setting Setting.ecv_key (With.ecv_key_from_file path) s = refl
apply-setting Setting.ecv_key (With.ecv_key_provider p) s = refl
apply-setting Setting.ecv_key _ s = refl
apply-setting Setting.client_auth (With.client_auth auth) s = refl
apply-setting Setting.client_auth _ s = refl
apply-setting Setting.readiness (With.readiness source) s = refl
apply-setting Setting.readiness _ s = refl
apply-setting Setting.liveness (With.liveness source) s = refl
apply-setting Setting.liveness _ s = refl
apply-setting Setting.origin (With.origin o) s = refl
apply-setting Setting.origin _ s = refl
apply-setting Setting.router_impl (With.router_impl_provider p) s = refl
apply-setting Setting.router_impl _ s = refl
apply-setting Setting.trace_sampler (With.trace_sampler sampler) s = refl
apply-setting Setting.trace_sampler (With.trace_sampler_rate rate) s = refl
apply-setting Setting.trace_sampler _ s = refl
apply-setting Setting.management_sampler (With.management_trace_sampler sampler) s = refl
apply-setting Setting.management_sampler (With.management_trace_sampler_rate rate) s = refl
apply-setting Setting.management_sampler _ s = refl
apply-setting Setting.sig_quit_writer (With.sig_quit_handler_writer w) s = refl
apply-setting Setting.sig_quit_writer _ s = refl
apply-setting Setting.metrics_blocklist (With.metrics_blocklist ids) s = refl
apply-setting Setting.metrics_blocklist _ s = refl
apply-setting Setting.type_values (With.metric_type_values_blocklist values) s =
    ap some (copy_type_values-same values)
apply-setting Setting.type_values _ s = refl
apply-setting Setting.endpoint_500s With.disable_endpoint_500s s = refl
apply-setting Setting.endpoint_500s With.always_healthy_endpoint_500s s = refl
apply-setting Setting.endpoint_500s _ s = refl
apply-setting Setting.stdout_writer (With.logger_stdout_writer w) s = refl
apply-setting Setting.stdout_writer _ s = refl
apply-setting Setting.ids_extractor (With.ids_extractor e) s = refl
apply-setting Setting.ids_extractor _ s = refl
apply-setting Setting.job_health (With.job_runner_health_check check) s = refl
apply-setting Setting.job_health _ s = refl

or_else_assoc {ℓ} :
    {A : Type ℓ} (o p : Option A) (a : A)
    → or_else o (or_else p a) ≡ or_else (elim o [ some v ↦ some v | none ↦ p ]) a
or_else_assoc none p a = refl
or_else_assoc (some v) p a = refl

pub configure-setting :
    (x : Setting) (ws : List With) (s : Server)
    → setting x (configure ws s) ≡ or_else (last_given x ws) (setting x s)
unfolding configure last_given
configure-setting x [] s = refl
configure-setting x (w ∷ ws) s =
    configure-setting x ws (apply w s)
    ∙ ap (λ v. or_else (last_given x ws) v) (apply-setting x w s)
    ∙ or_else_assoc (last_given x ws) (given x w) (setting x s)
