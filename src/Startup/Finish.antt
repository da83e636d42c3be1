-- ===== src/Startup/Finish.antt =====
-- What the end of Start adds to the events: releases of cleanups, loggers, and logged errors.
use witchcraft_go_server.Base.{Option, Option-cases, inl, inr, none, some, List, [], ◌∷◌, ◌++◌}
use witchcraft_go_server.Startup.Action.{
  World, Event, Cleanup, Error, Attempt, released, using, logged, logged_panic,
}
use witchcraft_go_server.Startup.Start.{
  Environment, Exit, run_deferred, ensure_loggers, log_error, error_of, handle_exit, finish,
  exit_of,
}

abbrev pub IsClosing : Event → Type 0
IsClosing (released c) = Unit {0}
IsClosing (using ls) = Unit {0}
IsClosing (logged e) = Unit {0}
IsClosing (logged_panic e) = Unit {0}
IsClosing _ = ⊥

-- A closing event keeps what holds of the events.
abbrev pub Closes : (List Event → Type 0) → Type 0
Closes P = (e : Event) (es : List Event) → IsClosing e → P es → P (es ++ (e ∷ []))

-- What each closing event keeps is kept to the end of Start.
module _ (P : List Event → Type 0) (k : Closes P) where
  run_deferred-keeps :
      (env : Environment) (cs : List Cleanup) (x : Exit) (w : World)
      → P w.events
      → P (run_deferred env cs x w).1.events
  unfolding run_deferred
  run_deferred-keeps env [] x w h = h
  run_deferred-keeps env (c ∷ cs) x w h =
      run_deferred-keeps env cs _ _ (k (released c) w.events tt h)

  ensure_loggers-keeps : (w : World) → P w.events → P (ensure_loggers w).events
  unfolding ensure_loggers
  ensure_loggers-keeps w h = elim (Option-cases w.loggers) [
    | inl n ↦ rw n (k (using _) w.events tt h)
    | inr (ls, n) ↦ rw n h
  ]

  log_error-keeps : (e : Option Error) (w : World) → P w.events → P (log_error e w).events
  log_error-keeps none w h = h
  log_error-keeps (some e) w h =
      k (logged e) (ensure_loggers w).events tt (ensure_loggers-keeps w h)

  handle_exit-keeps : (x : Exit) (w : World) → P w.events → P (handle_exit x w).1.events
  unfolding handle_exit
  handle_exit-keeps x w h = elim (Option-cases x.panicking) [
    | inl n ↦ rw n (log_error-keeps x.r_err w h)
    | inr (p, n) ↦ rw n (
        k (logged_panic (error_of p)) (ensure_loggers (log_error x.r_err w)).events tt
          (ensure_loggers-keeps (log_error x.r_err w) (log_error-keeps x.r_err w h)))
  ]

  pub finish-keeps :
      (env : Environment) (r : Attempt (Unit {0})) (w : World)
      → P w.events
      → P (finish env r w).1.events
  unfolding finish
  finish-keeps env r w h = handle_exit-keeps _ _ (run_deferred-keeps env w.stack (exit_of r) w h)
