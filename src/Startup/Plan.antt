-- ===== src/Startup/Plan.antt =====
-- What Start does, as a plan: the list of the phases that are due, with how each call ends.
pub mod Rules
pub mod Body
use witchcraft_go_server.Base.{
  ℕ, Bool, true, false, ◌≡◌, refl, sym, ap, ◌∙◌, Option, none, some, List, [], ◌∷◌, ◌++◌,
  if◌then◌else◌, arith,
}
use mathlib.Core.List.{append-nil, append_assoc}
use witchcraft_go_server.Startup.Action.{
  Phase, Event, completed, World, Action, Attempt, returns, fails, panics, record_event, proceed,
  ◌>>=◌, call, defer_call, modify, when, Error, Recovered, Cleanup, Source,
}
use witchcraft_go_server.Startup.Start.{
  Environment, Options, Install, body, start, has_management, wrap, swap_to_running, init_loggers,
  announce_health, run_servers, run_init, serve_routes, start_management,
}

abbrev pub Plan : Type 0
Plan = List (Phase × Attempt (Unit {0}))

abbrev pub forget : {A : Type 0} → Attempt A → Attempt (Unit {0})
forget (returns a) = returns tt
forget (fails e) = fails e
forget (panics p) = panics p

-- The phases of a plan up to the first that does not return, and how the plan ends.
unfoldable pub perform : Plan → List Phase × Attempt (Unit {0})
perform [] = ([], returns tt)
perform ((p, returns a) ∷ ps) = let (qs, r) = perform ps in (p ∷ qs, r)
perform ((p, fails e) ∷ ps) = ([], fails e)
perform ((p, panics r) ∷ ps) = ([], panics r)

unfoldable pub completed_phases : List Event → List Phase
completed_phases [] = []
completed_phases (completed p ∷ es) = p ∷ completed_phases es
completed_phases (_ ∷ es) = completed_phases es

abbrev pub only : Bool → Plan → Plan
only c ps = if c then ps else []

abbrev pub phase : {A : Type 0} → Phase → Attempt A → Phase × Attempt (Unit {0})
phase p a = (p, forget a)

abbrev pub init_plan : Environment → Plan
init_plan env = phase Phase.tracer env.new_tracer ∷ phase Phase.init env.init_fn ∷ []

abbrev pub last_plan : Environment → Plan
last_plan env =
    phase Phase.new_app_server env.new_server
    ∷ phase Phase.set_running (swap_to_running env)
    ∷ phase Phase.serve env.svr_start
    ∷ []

abbrev pub servers_plan : Environment → Options → Install → Plan
servers_plan env opts cfg =
    only (has_management cfg) (
      phase Phase.debug_routes (wrap "failed to register debugging routes" env.add_pprof_routes)
      ∷ [])
    ++ (only opts.has_init (init_plan env)
        ++ (phase Phase.add_routes env.routes
            ∷ (only (has_management cfg)
                  (phase Phase.new_management_server env.new_mgmt_server ∷ [])
                ++ last_plan env)))

-- The plan once the install configuration is known.
abbrev pub plan_of_install : Environment → Options → Install → Plan
plan_of_install env opts cfg =
    phase Phase.metrics env.init_metrics
    ∷ phase Phase.runtime env.init_runtime_config
    ∷ servers_plan env opts cfg

-- The plan that follows the result of a phase, if it returns.
abbrev pub plan_then : {A : Type 0} → (A → Plan) → Attempt A → Plan
plan_then q (returns a) = q a
plan_then q (fails e) = []
plan_then q (panics r) = []

-- The phases of Start in their order, with the environment's choice for each.
unfoldable pub plan : Environment → Options → Plan
plan env opts =
    phase Phase.start_state env.state_manager_start
    ∷ phase Phase.install env.init_install_config
    ∷ plan_then (plan_of_install env opts) env.init_install_config
