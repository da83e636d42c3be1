-- ===== src/Startup/Cleanups/Released.antt =====
-- The deferred functions that Start runs, from what its body leaves to be done.
use mathlib.Core.List.{append-nil, append_assoc}
use witchcraft_go_server.Base.{
  ◌≡◌, ◌∙◌, refl, sym, ap, Option, Option-cases, inl, inr, none, some, List, [], ◌∷◌, ◌++◌,
  if◌then◌else◌, map,
}
use witchcraft_go_server.Startup.Action.{
  Cleanup, Event, deferred, released, completed, using, serving_health, logged, logged_panic, World,
  Phase, Source, Attempt, returns, fails, panics, Error, user, server_status,
}
use witchcraft_go_server.Startup.Start.{
  Environment, Options, Install, body, run_deferred, handle_exit, exit_of, finish, start, Exit,
  run_servers, run_init, serve_routes, start_management, ensure_loggers, log_error, error_of,
  has_management, wrap, swap_to_running, internal_sources,
}
use witchcraft_go_server.Startup.Finish.{Closes, finish-keeps}
use witchcraft_go_server.Startup.Cleanups.{
  has_cleanup, owed_after, released_in, IsOwing, Ends, Moves, Moves->>=, Moves-call, Moves-phase,
  Moves-defer, Moves-when, Moves-when_defer, Moves-health, Moves-serving, Moves-loggers,
  owed_after-last, released_in-last,
}

module _ (env : Environment) where
  run_init-Moves : Moves env (IsOwing env []) (run_init env) (λ x. IsOwing env [])
  unfolding run_init
  run_init-Moves = Moves->>= env (Moves-phase env Phase.tracer env.new_tracer) λ _.
      Moves->>= env (Moves-health env (map user env.init_health)) λ _.
        Moves->>= env
          (Moves-call env Phase.init env.init_fn (λ b. if b then Cleanup.init_cleanup ∷ [] else [])
            (λ b h. ap (λ r. if has_cleanup r then Cleanup.init_cleanup ∷ [] else []) h))
          λ b. Moves-when_defer env b Cleanup.init_cleanup

  serve_routes-Moves : Moves env (IsOwing env []) (serve_routes env) (λ x. IsOwing env [])
  unfolding serve_routes
  serve_routes-Moves =
      Moves->>= env (Moves-health env (server_status ∷ []))
        λ _. Moves->>= env (Moves-phase env Phase.add_routes env.routes) λ _. Moves-serving env

  start_management-Moves : Moves env (IsOwing env []) (start_management env) (λ x. IsOwing env [])
  unfolding start_management
  start_management-Moves =
      Moves->>= env (Moves-phase env Phase.new_management_server env.new_mgmt_server)
        λ _. Moves-defer env Cleanup.shut_down_management []

  run_servers-Moves :
      (opts : Options) (cfg : Install) (internal : List Source)
      → Moves env (IsOwing env []) (run_servers env opts cfg internal) (λ x. IsOwing env [])
  unfolding run_servers
  run_servers-Moves opts cfg internal =
      Moves->>= env
        (Moves-when env (has_management cfg) (
          Moves-phase env Phase.debug_routes
            (wrap "failed to register debugging routes" env.add_pprof_routes)))
        λ _. Moves->>= env (Moves-when env opts.has_init run_init-Moves) λ _.
          Moves->>= env (Moves-health env internal) λ _. Moves->>= env serve_routes-Moves λ _.
            Moves->>= env (Moves-when env (has_management cfg) start_management-Moves) λ _.
              Moves->>= env (Moves-phase env Phase.new_app_server env.new_server) λ _.
                Moves->>= env (Moves-phase env Phase.set_running (swap_to_running env))
                  λ _. Moves-phase env Phase.serve env.svr_start

  body-Moves : (opts : Options) → Moves env (IsOwing env []) (body env opts) (λ x. IsOwing env [])
  unfolding body
  body-Moves opts = Moves->>= env (Moves-phase env Phase.start_state env.state_manager_start) λ _.
      Moves->>= env (Moves-defer env Cleanup.reset_state []) λ _.
        Moves->>= env (Moves-phase env Phase.install env.init_install_config) λ cfg.
          Moves->>= env (Moves-defer env Cleanup.cancel_ctx []) λ _.
            Moves->>= env (Moves-phase env Phase.metrics env.init_metrics) λ _.
              Moves->>= env (Moves-defer env Cleanup.stop_metrics []) λ _.
                Moves->>= env (Moves-loggers env cfg) λ _.
                  Moves->>= env (Moves-phase env Phase.runtime env.init_runtime_config) λ ss.
                    Moves->>= env
                      (Moves-defer env Cleanup.unsubscribe_level
                        (Cleanup.unsubscribe_audit_update ∷ Cleanup.unsubscribe_audit_config ∷ []))
                      λ _.
                        Moves->>= env
                          (Moves-defer env Cleanup.unsubscribe_audit_config
                            (Cleanup.unsubscribe_audit_update ∷ []))
                          λ _.
                            Moves->>= env (Moves-defer env Cleanup.unsubscribe_audit_update [])
                              λ _. run_servers-Moves opts cfg (internal_sources opts ss)

  -- However the body ends, nothing is missing.
  ended-IsOwing :
      (r : Attempt (Unit {0})) (w : World)
      → Ends env (λ x. IsOwing env []) (r, w)
      → IsOwing env [] w
  ended-IsOwing (returns a) w h = h
  ended-IsOwing (fails e) w h = h
  ended-IsOwing (panics p) w h = h

  run_deferred-released :
      (cs : List Cleanup) (x : Exit) (w : World)
      → released_in (run_deferred env cs x w).1.events ≡ released_in w.events ++ cs
  unfolding run_deferred released_in
  run_deferred-released [] x w = sym (append-nil _)
  run_deferred-released (c ∷ cs) x w =
      run_deferred-released cs _ _
      ∙ ap (λ ds. ds ++ cs) (released_in-last w.events (released c))
      ∙ append_assoc (released_in w.events) (c ∷ []) cs

  -- An event that is no release changes nothing in what was released.
  released_in-other :
      (es : List Event) (e : Event)
      → released_in (e ∷ []) ≡ []
      → released_in (es ++ (e ∷ [])) ≡ released_in es
  released_in-other es e h =
      released_in-last es e ∙ ap (λ cs. released_in es ++ cs) h ∙ append-nil _

  ensure_loggers-released :
      (w : World) → released_in (ensure_loggers w).events ≡ released_in w.events
  unfolding ensure_loggers released_in
  ensure_loggers-released w = elim (Option-cases w.loggers) [
    | inl n ↦ rw n (released_in-other w.events (using _) refl)
    | inr (ls, n) ↦ rw n refl
  ]

  log_error-released :
      (e : Option Error) (w : World) → released_in (log_error e w).events ≡ released_in w.events
  unfolding released_in
  log_error-released none w = refl
  log_error-released (some e) w =
      released_in-other (ensure_loggers w).events (logged e) refl ∙ ensure_loggers-released w

  handle_exit-released :
      (x : Exit) (w : World) → released_in (handle_exit x w).1.events ≡ released_in w.events
  unfolding handle_exit released_in
  handle_exit-released x w = elim (Option-cases x.panicking) [
    | inl n ↦ rw n (log_error-released x.r_err w)
    | inr (p, n) ↦ rw n (
        released_in-other (ensure_loggers (log_error x.r_err w)).events (logged_panic (error_of p))
          refl
        ∙ ensure_loggers-released (log_error x.r_err w)
        ∙ log_error-released x.r_err w)
  ]

  closing_owes : (cs : List Cleanup) → Closes (λ es. owed_after env es [] ≡ cs)
  unfolding owed_after
  closing_owes cs (released c) es t h = owed_after-last env es (released c) [] ∙ h
  closing_owes cs (using c) es t h = owed_after-last env es (using c) [] ∙ h
  closing_owes cs (logged c) es t h = owed_after-last env es (logged c) [] ∙ h
  closing_owes cs (logged_panic c) es t h = owed_after-last env es (logged_panic c) [] ∙ h
  closing_owes cs (completed p) es t h = elim t [ ]
  closing_owes cs (deferred c) es t h = elim t [ ]
  closing_owes cs (serving_health ss) es t h = elim t [ ]

  finish-released :
      (r : Attempt (Unit {0})) (w : World)
      → IsOwing env [] w
      → released_in (finish env r w).1.events ≡ owed_after env (finish env r w).1.events []
  unfolding finish
  finish-released r w i =
      handle_exit-released _ _
      ∙ run_deferred-released w.stack (exit_of r) w
      ∙ ap (λ cs. cs ++ w.stack) i.none_released
      ∙ sym (finish-keeps _ (closing_owes w.stack) env r w i.stack_owed)

  -- However Start ends, with an error, with a panic of a phase or of a deferred function, or without
  -- an error, these run in the end, each one time and the last one first, and no others: the reset of
  -- the state once the state manager has admitted the call; the cancellation of the context once the
  -- install configuration is loaded; the end of the emission of metrics once it has been set up; the
  -- three ends of subscriptions once the runtime configuration is loaded; the cleanup function of the
  -- initialization once that has returned one; and the shutdown of the management server once that
  -- has been made.
  pub start-cleanups :
      (opts : Options) (w : World)
      → w.events ≡ []
      → w.stack ≡ []
      → released_in (start env opts w).1.events ≡ owed_after env (start env opts w).1.events []
  unfolding start owed_after released_in
  start-cleanups opts w he hs = finish-released _ _ (
      ended-IsOwing _ _ (
        (body-Moves opts).at w
          (record { stack_owed = rw (he, hs) refl; none_released = rw he refl })))
