-- ===== src/Startup/Start.antt =====
-- Start of witchcraft/witchcraft.go. What the phases call is the environment's: each call returns,
-- fails or panics.
use witchcraft_go_server.Base.{
  ℕ, Bool, true, false, not, ◌&&◌, Option, none, some, List, [], ◌∷◌, ◌++◌, ◌==◌, String,
  if◌then◌else◌, map,
}
use witchcraft_go_server.Startup.Action.{
  Error, wrapped, panic_recovered, shut_down_before_start, Recovered, error_value, other_value,
  Cleanup, reset_state, cancel_ctx, stop_metrics, unsubscribe_level, unsubscribe_audit_config,
  unsubscribe_audit_update, init_cleanup, shut_down_management, start_state, install, metrics,
  runtime, debug_routes, tracer, init, add_routes, new_management_server, new_app_server,
  set_running, serve, default_loggers, wrapped_loggers, Source, user, config, service_dependencies,
  endpoint_500s, server_status, released, using, serving_health, logged, logged_panic, World,
  Attempt, returns, fails, panics, Action, record_event, ◌>>=◌, ◌>>◌, call, defer_call, modify,
  when,
}

-- The fields of the install configuration that Start reads.
pub record Install : Type 0 where
  pub use_wrapped_logs : Bool
  pub use_console_log : Bool
  pub product_name : String
  pub product_version : String
  pub port : ℕ
  pub management_port : ℕ

-- s.endpoint500sHealthCheckFunc: nil, or the function of one of the two options that set it.
pub data Check500 : Type 0 where
  check_500s always_healthy disabled : Check500

-- The check that Start makes; the disabled one is a nil pointer.
abbrev pub new_check_500s : Check500 → Option Bool
new_check_500s check_500s = some false
new_check_500s always_healthy = some true
new_check_500s disabled = none

-- The options of the server that Start reads.
pub record Options : Type 0 where
  pub has_init : Bool  -- s.initFn != nil
  pub disable_service_dependency_health : Bool
  pub endpoint_500s_check : Check500

-- What the calls of Start do. `init_health` are the sources of health that the initialization adds
-- while it runs; `init_fn` gives whether its cleanup function is not nil, and `init_runtime_config`
-- gives the sources of the configuration.
pub record Environment : Type 0 where
  pub state_manager_start : Attempt (Unit {0})
  pub init_install_config : Attempt Install
  pub init_metrics : Attempt (Unit {0})
  pub init_runtime_config : Attempt (List ℕ)
  pub add_pprof_routes : Attempt (Unit {0})
  pub new_tracer : Attempt (Unit {0})
  pub init_health : List ℕ
  pub init_fn : Attempt Bool
  pub routes : Attempt (Unit {0})
  pub new_mgmt_server : Attempt (Unit {0})
  pub new_server : Attempt (Unit {0})
  pub swapped : Bool  -- the swap from initializing to running
  pub svr_start : Attempt (Unit {0})
  pub cleanup : Cleanup → Option Recovered  -- the panic of a deferred function

-- initWrappedLoggers or initDefaultLoggers
abbrev pub init_loggers : Install → World → World
init_loggers cfg w =
    let ls =
      if cfg.use_wrapped_logs
      then wrapped_loggers cfg.use_console_log cfg.product_name cfg.product_version
      else default_loggers cfg.use_console_log in
    record (record_event (using ls) w) { loggers = some ls }

-- WithHealth
abbrev pub with_health : List Source → World → World
with_health ss w = record w { sources = w.sources ++ ss }

abbrev pub has_management : Install → Bool
has_management cfg = not (cfg.management_port == 0) && not (cfg.port == cfg.management_port)

abbrev pub wrap : {A : Type 0} → String → Attempt A → Attempt A
wrap message (returns a) = returns a
wrap message (fails e) = fails (wrapped message e)
wrap message (panics p) = panics p

-- internalHealthCheckSources
abbrev pub internal_sources : Options → List ℕ → List Source
internal_sources opts config_sources =
    (map config config_sources
      ++ (if opts.disable_service_dependency_health then [] else service_dependencies ∷ []))
    ++ (endpoint_500s (new_check_500s opts.endpoint_500s_check) ∷ [])

abbrev pub announce_health : World → World
announce_health w = record_event (serving_health w.sources) w

-- addRoutes, less the routes: the state manager is the last source of health.
unfoldable pub serve_routes : Environment → Action (Unit {0})
unfolding ◌>>=◌ call
serve_routes env = do
  modify (with_health (server_status ∷ []))
  call add_routes env.routes
  modify announce_health

-- The initialization function of the application.
unfoldable pub run_init : Environment → Action (Unit {0})
unfolding ◌>>=◌ call
run_init env = do
  call tracer env.new_tracer
  modify (with_health (map user env.init_health))
  has_cleanup ← call init env.init_fn
  when has_cleanup (defer_call init_cleanup)

unfoldable pub start_management : Environment → Action (Unit {0})
unfolding ◌>>=◌ call
start_management env = do
  call new_management_server env.new_mgmt_server
  defer_call shut_down_management

-- compareAndSwapState from initializing to running
abbrev pub swap_to_running : Environment → Attempt (Unit {0})
swap_to_running env = if env.swapped then returns tt else fails shut_down_before_start

-- From the routers to the end of the body.
unfoldable pub run_servers : Environment → Options → Install → List Source → Action (Unit {0})
unfolding ◌>>=◌ call serve_routes run_init start_management
run_servers env opts cfg internal = do
  when (has_management cfg)
      (call debug_routes (wrap "failed to register debugging routes" env.add_pprof_routes))
  when opts.has_init (run_init env)
  modify (with_health internal)
  serve_routes env
  when (has_management cfg) (start_management env)
  call new_app_server env.new_server
  call set_running (swap_to_running env)
  call serve env.svr_start

-- The body of Start after the state has been swapped to initializing.
unfoldable pub body : Environment → Options → Action (Unit {0})
unfolding ◌>>=◌ call run_servers
body env opts = do
  call start_state env.state_manager_start
  defer_call reset_state
  cfg ← call install env.init_install_config
  defer_call cancel_ctx
  call metrics env.init_metrics
  defer_call stop_metrics
  modify (init_loggers cfg)
  config_sources ← call runtime env.init_runtime_config
  defer_call unsubscribe_level
  defer_call unsubscribe_audit_config
  defer_call unsubscribe_audit_update
  run_servers env opts cfg (internal_sources opts config_sources)

-- How the body ends: `r_err` is the named result, and `panicking` what no one has recovered.
pub record Exit : Type 0 where
  pub r_err : Option Error
  pub panicking : Option Recovered

abbrev pub exit_of : Attempt (Unit {0}) → Exit
exit_of (returns _) = record { r_err = none; panicking = none }
exit_of (fails e) = record { r_err = some e; panicking = none }
exit_of (panics p) = record { r_err = none; panicking = some p }

abbrev pub panic_with : Option Recovered → Exit → Exit
panic_with none x = x
panic_with (some p) x = record x { panicking = some p }

-- The deferred functions run, the last one first, whatever the others do.
unfoldable pub run_deferred : Environment → List Cleanup → Exit → World → Exit × World
run_deferred env [] x w = (x, w)
run_deferred env (c ∷ cs) x w =
    run_deferred env cs (panic_with (env.cleanup c) x)
      (record (record_event (released c) w) { stack = cs })

-- The loggers that are there, or the default ones.
unfoldable pub ensure_loggers : World → World
ensure_loggers w = elim w.loggers [
  | none ↦ record (record_event (using (default_loggers false)) w) {
    loggers = some (default_loggers false);
  }
  | some ls ↦ w
]

abbrev pub log_error : Option Error → World → World
log_error none w = w
log_error (some e) w = record_event (logged e) (ensure_loggers w)

abbrev pub error_of : Recovered → Error
error_of (error_value e) = e
error_of other_value = panic_recovered

-- The two deferred functions that Start begins with: the second one runs first.
unfoldable pub handle_exit : Exit → World → Option Error × World
unfolding ensure_loggers
handle_exit x w =
    let w' = log_error x.r_err w in
    elim x.panicking [
      | none ↦ (x.r_err, w')
      | some p ↦ (some (error_of p), record_event (logged_panic (error_of p)) (ensure_loggers w'))
    ]

-- What follows the body: the deferred functions that it has reached, and then the first two.
unfoldable pub finish : Environment → Attempt (Unit {0}) → World → Option Error × World
unfolding run_deferred handle_exit
finish env r w = let (x, w') = run_deferred env w.stack (exit_of r) w in handle_exit x w'

unfoldable pub start : Environment → Options → World → Option Error × World
unfolding body finish
start env opts w = let (r, w') = body env opts w in finish env r w'
