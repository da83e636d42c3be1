-- ===== src/Startup/Plan/Body.antt =====
-- The body of Start does what the plan says, and so does Start.
use witchcraft_go_server.Base.{◌≡◌, refl, sym, ap, ◌∙◌, Option, none, some, List, [], ◌∷◌, ◌++◌}
use witchcraft_go_server.Startup.Action.{
  Phase, Event, completed, World, Attempt, returns, fails, panics, modify, Error, Cleanup, Source,
}
use witchcraft_go_server.Startup.Finish.{Closes, finish-keeps}
use witchcraft_go_server.Startup.Start.{
  Environment, Options, Install, Exit, panic_with, internal_sources, exit_of, error_of, handle_exit,
  run_deferred, finish, body, start, has_management, init_loggers, announce_health, run_servers,
  run_init, serve_routes, start_management,
}
use witchcraft_go_server.Startup.Plan.{
  forget, perform, completed_phases, phase, init_plan, servers_plan, plan_of_install, plan,
}
use witchcraft_go_server.Startup.Plan.Rules.{
  Follows, Follows-call, then-Follows, Follows-call_then, Follows-modify, quiet, Follows-defer,
  Follows-when, Follows-quiet_when,
}

run_init-Follows : (env : Environment) → Follows (run_init env) (init_plan env)
unfolding run_init
run_init-Follows env = then-Follows (Follows-call Phase.tracer env.new_tracer) λ _.
    then-Follows (Follows-modify _ (λ w. refl)) λ _.
      then-Follows (Follows-call Phase.init env.init_fn)
        λ has_cleanup. Follows-quiet_when has_cleanup (Follows-defer Cleanup.init_cleanup)

serve_routes-Follows :
    (env : Environment) → Follows (serve_routes env) (phase Phase.add_routes env.routes ∷ [])
unfolding serve_routes completed_phases
serve_routes-Follows env = then-Follows (Follows-modify _ (λ w. refl)) λ _.
    then-Follows (Follows-call Phase.add_routes env.routes) λ _.
      Follows-modify announce_health (λ w. quiet (Event.serving_health w.sources) w.events refl)

start_management-Follows :
    (env : Environment)
    → Follows (start_management env) (phase Phase.new_management_server env.new_mgmt_server ∷ [])
unfolding start_management
start_management-Follows env =
    then-Follows (Follows-call Phase.new_management_server env.new_mgmt_server)
      λ _. Follows-defer Cleanup.shut_down_management

run_servers-Follows :
    (env : Environment) (opts : Options) (cfg : Install) (internal : List Source)
    → Follows (run_servers env opts cfg internal) (servers_plan env opts cfg)
unfolding run_servers
run_servers-Follows env opts cfg internal =
    then-Follows (Follows-when (has_management cfg) _ _ (Follows-call Phase.debug_routes _)) λ _.
      then-Follows (Follows-when opts.has_init _ _ (run_init-Follows env)) λ _.
        then-Follows (Follows-modify _ (λ w. refl)) λ _.
          then-Follows (serve_routes-Follows env) λ _.
            then-Follows (Follows-when (has_management cfg) _ _ (start_management-Follows env)) λ _.
              then-Follows (Follows-call Phase.new_app_server _)
                λ _. then-Follows (Follows-call Phase.set_running _) λ _. Follows-call Phase.serve _

init_loggers-quiet : (cfg : Install) → Follows (modify (init_loggers cfg)) []
unfolding completed_phases
init_loggers-quiet cfg = Follows-modify _ (λ w. quiet (Event.using _) w.events refl)

body-Follows : (env : Environment) (opts : Options) → Follows (body env opts) (plan env opts)
unfolding body plan
body-Follows env opts = then-Follows (Follows-call Phase.start_state _) λ _.
    then-Follows (Follows-defer Cleanup.reset_state) λ _.
      Follows-call_then Phase.install env.init_install_config _ (plan_of_install env opts) λ cfg.
        then-Follows (Follows-defer Cleanup.cancel_ctx) λ _.
          then-Follows (Follows-call Phase.metrics _) λ _.
            then-Follows (Follows-defer Cleanup.stop_metrics) λ _.
              then-Follows (init_loggers-quiet cfg) λ _.
                then-Follows (Follows-call Phase.runtime _) λ config_sources.
                  then-Follows (Follows-defer Cleanup.unsubscribe_level) λ _.
                    then-Follows (Follows-defer Cleanup.unsubscribe_audit_config) λ _.
                      then-Follows (Follows-defer Cleanup.unsubscribe_audit_update)
                        λ _. run_servers-Follows env opts cfg (internal_sources opts config_sources)

closing_phases : (ps : List Phase) → Closes (λ es. completed_phases es ≡ ps)
unfolding completed_phases
closing_phases ps (Event.released c) es t h = quiet (Event.released c) es refl ∙ h
closing_phases ps (Event.using c) es t h = quiet (Event.using c) es refl ∙ h
closing_phases ps (Event.logged c) es t h = quiet (Event.logged c) es refl ∙ h
closing_phases ps (Event.logged_panic c) es t h = quiet (Event.logged_panic c) es refl ∙ h
closing_phases ps (completed p) es t h = elim t [ ]
closing_phases ps (Event.deferred c) es t h = elim t [ ]
closing_phases ps (Event.serving_health ss) es t h = elim t [ ]

-- The error that Start returns for the end of its body.
abbrev pub error_for : Attempt (Unit {0}) → Option Error
error_for (returns a) = none
error_for (fails e) = some e
error_for (panics p) = some (error_of p)

run_deferred-exit :
    (env : Environment) (cs : List Cleanup) (x : Exit) (w : World)
    → ((c : Cleanup) → env.cleanup c ≡ none)
    → (run_deferred env cs x w).0 ≡ x
unfolding run_deferred
run_deferred-exit env [] x w h = refl
run_deferred-exit env (c ∷ cs) x w h =
    run_deferred-exit env cs _ _ h ∙ ap (λ p. panic_with p x) (h c)

handle_exit-error :
    (x : Exit) (r : Attempt (Unit {0})) (w : World)
    → x ≡ exit_of r
    → (handle_exit x w).0 ≡ error_for r
unfolding handle_exit
handle_exit-error x (returns a) w h = cc
handle_exit-error x (fails e) w h = cc
handle_exit-error x (panics p) w h = cc

finish-error :
    (env : Environment) (r : Attempt (Unit {0})) (w : World)
    → ((c : Cleanup) → env.cleanup c ≡ none)
    → (finish env r w).0 ≡ error_for r
unfolding finish
finish-error env r w h =
    handle_exit-error _ r (run_deferred env w.stack (exit_of r) w).1
      (run_deferred-exit env w.stack (exit_of r) w h)

forget_unit : (r : Attempt (Unit {0})) → forget r ≡ r
forget_unit (returns a) = refl
forget_unit (fails e) = refl
forget_unit (panics p) = refl

start-phases :
    (env : Environment) (opts : Options) (w : World)
    → completed_phases (start env opts w).1.events
      ≡ completed_phases w.events ++ (perform (plan env opts)).0
unfolding start
start-phases env opts w =
    finish-keeps _ (closing_phases _) env (body env opts w).0 (body env opts w).1
      ((body-Follows env opts).phases w)

start-error :
    (env : Environment) (opts : Options) (w : World)
    → ((c : Cleanup) → env.cleanup c ≡ none)
    → (start env opts w).0 ≡ error_for (perform (plan env opts)).1
unfolding start
start-error env opts w h =
    finish-error env (body env opts w).0 (body env opts w).1 h
    ∙ ap error_for (sym (forget_unit _) ∙ (body-Follows env opts).result w)

-- Where no deferred function panics, Start completes the phases of the plan in its order, up to the
-- first that fails or panics, and none after it; it returns the error of that phase, the error that
-- its panic carried, or no error if every phase has completed.
pub start-plan :
    (env : Environment) (opts : Options) (w : World)
    → ((c : Cleanup) → env.cleanup c ≡ none)
    → (completed_phases (start env opts w).1.events
        ≡ completed_phases w.events ++ (perform (plan env opts)).0)
      × ((start env opts w).0 ≡ error_for (perform (plan env opts)).1)
start-plan env opts w h = (start-phases env opts w, start-error env opts w h)
