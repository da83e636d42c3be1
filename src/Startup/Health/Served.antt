-- ===== src/Startup/Health/Served.antt =====
-- What the body of Start adds to the sources of health, phase by phase.
use mathlib.Core.Path.{subst}
use mathlib.Core.List.{append_assoc}
use witchcraft_go_server.Startup.Action.{config, endpoint_500s, service_dependencies}
use witchcraft_go_server.Startup.Start.{Check500, check_500s, always_healthy, disabled}
use witchcraft_go_server.Base.{Bool, true, false, none}
use witchcraft_go_server.Base.{
  ℕ, ◌≡◌, refl, ap, ◌∙◌, Option, some, List, [], ◌∷◌, ◌++◌, if◌then◌else◌, map,
}
use witchcraft_go_server.Startup.Action.{
  World, Source, user, server_status, Attempt, returns, Phase, completed, Cleanup, deferred,
  released, using, serving_health, logged, logged_panic, modify,
}
use witchcraft_go_server.Startup.Finish.{Closes, finish-keeps}
use witchcraft_go_server.Startup.Start.{
  Environment, Options, Install, body, start, run_servers, run_init, serve_routes, start_management,
  init_loggers, announce_health, internal_sources, has_management, swap_to_running, wrap,
}
use witchcraft_go_server.Startup.Health.{
  health_served, Seen, same, adds, serves, health_served-other, health_served-last, Changes->>=,
  Changes-call, Changes-call_then, Changes-modify, Changes-defer, Changes-when-adds,
  Changes-when-same, Changes-with_health, Changes,
}

run_init-Changes : (env : Environment) → Changes (run_init env) (adds (map user env.init_health))
unfolding run_init
run_init-Changes env = Changes->>= (Changes-call Phase.tracer env.new_tracer) λ _.
    Changes->>= (Changes-with_health (map user env.init_health)) λ _.
      Changes->>= (Changes-call Phase.init env.init_fn)
        λ has_cleanup. Changes-when-same has_cleanup (Changes-defer Cleanup.init_cleanup)

serve_routes-Changes :
    (env : Environment) → Changes (serve_routes env) (λ x. serves (adds (server_status ∷ []) x))
unfolding serve_routes
serve_routes-Changes env = Changes->>= (Changes-with_health (server_status ∷ [])) λ _.
    Changes->>= (Changes-call Phase.add_routes env.routes) λ _.
      Changes-modify announce_health serves
        (λ w. ap (λ z. (w.sources, z)) (health_served-last w.events w.sources))

start_management-Changes : (env : Environment) → Changes (start_management env) same
unfolding start_management
start_management-Changes env =
    Changes->>= (Changes-call Phase.new_management_server env.new_mgmt_server)
      λ _. Changes-defer Cleanup.shut_down_management

-- What the application's initialization adds, if there is one.
abbrev pub application_sources : Environment → Options → List Source
application_sources env opts = if opts.has_init then map user env.init_health else []

run_servers-Changes :
    (env : Environment) (opts : Options) (cfg : Install) (internal : List Source)
    → Changes (run_servers env opts cfg internal) (λ x.
      serves (adds (server_status ∷ []) (adds internal (adds (application_sources env opts) x))))
unfolding run_servers
run_servers-Changes env opts cfg internal =
    Changes->>=
      (Changes-when-same (has_management cfg) (
        Changes-call Phase.debug_routes
          (wrap "failed to register debugging routes" env.add_pprof_routes)))
      λ _. Changes->>= (Changes-when-adds opts.has_init _ _ (run_init-Changes env)) λ _.
        Changes->>= (Changes-with_health internal) λ _. Changes->>= (serve_routes-Changes env) λ _.
          Changes->>= (Changes-when-same (has_management cfg) (start_management-Changes env)) λ _.
            Changes->>= (Changes-call Phase.new_app_server env.new_server) λ _.
              Changes->>= (Changes-call Phase.set_running (swap_to_running env))
                λ _. Changes-call Phase.serve env.svr_start

init_loggers-Changes : (cfg : Install) → Changes (modify (init_loggers cfg)) same
unfolding health_served
init_loggers-Changes cfg =
    Changes-modify _ same
      (λ w. ap (λ z. (w.sources, z)) (health_served-other w.events (using _) refl))

-- The sources of the runtime configuration, if it loads.
abbrev pub runtime_sources : Attempt (List ℕ) → List ℕ
runtime_sources (returns ss) = ss
runtime_sources _ = []

-- What is seen once Start has set up the server.
abbrev set_up : Environment → Options → Seen → Seen
set_up env opts x = serves (
    adds (server_status ∷ []) (
      adds (internal_sources opts (runtime_sources env.init_runtime_config))
        (adds (application_sources env opts) x)))

with_runtime :
    (env : Environment) (opts : Options) (cfg : Install) (ss : List ℕ)
    → env.init_runtime_config ≡ returns ss
    → Changes (run_servers env opts cfg (internal_sources opts ss)) (set_up env opts)
with_runtime env opts cfg ss h =
    subst (λ z. Changes (run_servers env opts cfg (internal_sources opts z)) (set_up env opts))
      (ap runtime_sources h)
      (run_servers-Changes env opts cfg
        (internal_sources opts (runtime_sources env.init_runtime_config)))

body-Changes : (env : Environment) (opts : Options) → Changes (body env opts) (set_up env opts)
unfolding body
body-Changes env opts = Changes->>= (Changes-call Phase.start_state env.state_manager_start) λ _.
    Changes->>= (Changes-defer Cleanup.reset_state) λ _.
      Changes->>= (Changes-call Phase.install env.init_install_config) λ cfg.
        Changes->>= (Changes-defer Cleanup.cancel_ctx) λ _.
          Changes->>= (Changes-call Phase.metrics env.init_metrics) λ _.
            Changes->>= (Changes-defer Cleanup.stop_metrics) λ _.
              Changes->>= (init_loggers-Changes cfg) λ _.
                Changes-call_then Phase.runtime env.init_runtime_config λ ss h.
                  Changes->>= (Changes-defer Cleanup.unsubscribe_level) λ _.
                    Changes->>= (Changes-defer Cleanup.unsubscribe_audit_config) λ _.
                      Changes->>= (Changes-defer Cleanup.unsubscribe_audit_update)
                        λ _. with_runtime env opts cfg ss h

closing_serves : (served : Option (List Source)) → Closes (λ es. health_served es ≡ served)
unfolding health_served
closing_serves served (released c) es t h = health_served-other es (released c) refl ∙ h
closing_serves served (using c) es t h = health_served-other es (using c) refl ∙ h
closing_serves served (logged c) es t h = health_served-other es (logged c) refl ∙ h
closing_serves served (logged_panic c) es t h = health_served-other es (logged_panic c) refl ∙ h
closing_serves served (completed p) es t h = elim t [ ]
closing_serves served (deferred c) es t h = elim t [ ]
closing_serves served (serving_health ss) es t h = elim t [ ]

-- The check of 500s as a source.
abbrev pub check_source : Check500 → Source
check_source check_500s = endpoint_500s (some false)
check_source always_healthy = endpoint_500s (some true)
check_source disabled = endpoint_500s none

internal_lem :
    (d : Bool) (check : Check500) (has_init : Bool) (loaded : Attempt (List ℕ)) (cs : List ℕ)
    → loaded ≡ returns cs
    → internal_sources
        (record {
          has_init = has_init;
          disable_service_dependency_health = d;
          endpoint_500s_check = check;
        })
        (runtime_sources loaded)
      ≡ map config cs
        ++ ((if d then [] else service_dependencies ∷ []) ++ (check_source check ∷ []))
internal_lem d check_500s i loaded cs h = rw h (append_assoc (map config cs) _ _)
internal_lem d always_healthy i loaded cs h = rw h (append_assoc (map config cs) _ _)
internal_lem d disabled i loaded cs h = rw h (append_assoc (map config cs) _ _)

-- If every phase of Start completes, the health endpoint has been set up with these sources, in this
-- order: those that the server had, those that the application's initialization added, if it has
-- one, those of the runtime configuration that was loaded, the check of dependencies unless it is
-- disabled, the check of 500s, which is a nil pointer if it is disabled, and the state of the server.
pub start-health_served :
    (env : Environment) (opts : Options) (w : World) (cs : List ℕ)
    → env.init_runtime_config ≡ returns cs
    → (body env opts w).0 ≡ returns tt
    → health_served (start env opts w).1.events
      ≡ some (
          ((w.sources ++ (if opts.has_init then map user env.init_health else []))
            ++ (map config cs
                ++ ((if opts.disable_service_dependency_health
                      then []
                      else service_dependencies ∷ [])
                    ++ (check_source opts.endpoint_500s_check ∷ []))))
          ++ (server_status ∷ []))
unfolding start
start-health_served env opts w cs c h =
    finish-keeps _ (closing_serves _) env (body env opts w).0 (body env opts w).1
      (ap (λ z. z.1) ((body-Changes env opts).at w tt h))
    ∙ ap (λ ss. some (((w.sources ++ application_sources env opts) ++ ss) ++ (server_status ∷ [])))
        (internal_lem opts.disable_service_dependency_health opts.endpoint_500s_check opts.has_init
          env.init_runtime_config cs c)
