-- ===== src/Startup/Tests.antt =====
-- Start with a management server and an initialization, whose application server cannot be made.
use witchcraft_go_server.Base.{true, false, Option, none, some, [], ◌∷◌, ◌++◌, ◌≡◌, refl}
use witchcraft_go_server.Startup.Action.{
  user, config, service_dependencies, endpoint_500s, server_status, Recovered, returns, fails,
  call_error, other_value, panic_recovered, World, Cleanup, init_cleanup,
}
use witchcraft_go_server.Startup.Health.{health_served}
use witchcraft_go_server.Startup.Health.Served.{start-health_served}
use witchcraft_go_server.Startup.Start.{body, Install, Options, disabled, Environment, start}
use witchcraft_go_server.Startup.Cleanups.{released_in, owed_after}
use witchcraft_go_server.Startup.Cleanups.Released.{start-cleanups}
use witchcraft_go_server.Startup.Action.{
  shut_down_management, unsubscribe_audit_update, unsubscribe_audit_config, unsubscribe_level,
  stop_metrics, cancel_ctx, reset_state,
}
use witchcraft_go_server.Startup.Plan.{completed_phases, perform, plan}
use witchcraft_go_server.Startup.Plan.Body.{error_for, start-plan}
use witchcraft_go_server.Startup.Reports.{Reported, start-Reported}

abbrev an_install : Install
an_install = record {
  use_wrapped_logs = false;
  use_console_log = true;
  product_name = "app";
  product_version = "1.0.0";
  port = 8443;
  management_port = 8444;
}

abbrev some_options : Options
some_options = record {
  has_init = true;
  disable_service_dependency_health = false;
  endpoint_500s_check = disabled;
}

abbrev a_new_world : World
a_new_world = record { loggers = none; sources = []; stack = []; events = [] }

abbrev no_certificate : Environment
no_certificate = record {
  state_manager_start = returns tt;
  init_install_config = returns an_install;
  init_metrics = returns tt;
  init_runtime_config = returns (1 ∷ []);
  add_pprof_routes = returns tt;
  new_tracer = returns tt;
  init_health = 7 ∷ [];
  init_fn = returns true;
  routes = returns tt;
  new_mgmt_server = returns tt;
  new_server = fails (call_error "no certificate");
  swapped = true;
  svr_start = returns tt;
  cleanup = λ c. none;
}

-- The initialization succeeds, and its cleanup function panics.
abbrev bad_cleanup : Environment
bad_cleanup = record no_certificate { cleanup = panic_of }
  where
    panic_of : Cleanup → Option Recovered
    panic_of init_cleanup = some other_value
    panic_of _ = none

failed_phases :
    (start no_certificate some_options a_new_world).0 ≡ some (call_error "no certificate")
unfolding start
failed_phases = refl

cleanup_panic : (start bad_cleanup some_options a_new_world).0 ≡ some panic_recovered
unfolding start
cleanup_panic = refl

start-cleanups_example :
    released_in (start bad_cleanup some_options a_new_world).1.events
    ≡ shut_down_management ∷ init_cleanup ∷ unsubscribe_audit_update ∷ unsubscribe_audit_config
      ∷ unsubscribe_level ∷ stop_metrics ∷ cancel_ctx ∷ reset_state ∷ []
unfolding start released_in owed_after
start-cleanups_example = start-cleanups bad_cleanup some_options a_new_world refl refl

start-plan_example :
    (completed_phases (start no_certificate some_options a_new_world).1.events
      ≡ completed_phases [] ++ (perform (plan no_certificate some_options)).0)
    × ((start no_certificate some_options a_new_world).0
        ≡ error_for (perform (plan no_certificate some_options)).1)
start-plan_example = start-plan no_certificate some_options a_new_world (λ c. refl)

start-Reported_example :
    Reported
      (start bad_cleanup some_options a_new_world).0
      (start bad_cleanup some_options a_new_world).1
start-Reported_example = start-Reported bad_cleanup some_options a_new_world

abbrev all_return : Environment
all_return = record no_certificate { new_server = returns tt }

start-health_served_example :
    health_served (start all_return some_options a_new_world).1.events
    ≡ some (user 7 ∷ config 1 ∷ service_dependencies ∷ endpoint_500s none ∷ server_status ∷ [])
unfolding body
start-health_served_example =
    start-health_served all_return some_options a_new_world (1 ∷ []) refl refl
