-- ===== src/Startup/Reports.antt =====
-- What Start leaves for the operator when it fails.
use witchcraft_go_server.Base.{
  ◌≡◌, ◌≢◌, ◌⊎◌, inl, inr, refl, Option, Option-cases, none, some, List, [], ◌∷◌, ◌++◌, arith,
}
use witchcraft_go_server.Startup.Action.{Event, Error, World, logged, logged_panic}
use witchcraft_go_server.Startup.Start.{
  Environment, Options, Exit, log_error, error_of, ensure_loggers, handle_exit, finish, start, body,
  run_deferred, exit_of,
}

unfoldable pub last_event : List Event → Option Event
last_event [] = none
last_event (e ∷ []) = some e
last_event (e ∷ f ∷ es) = last_event (f ∷ es)

last_event-snoc : (es : List Event) (e : Event) → last_event (es ++ (e ∷ [])) ≡ some e
unfolding last_event
last_event-snoc [] e = refl
last_event-snoc (f ∷ []) e = refl
last_event-snoc (f ∷ g ∷ es) e = last_event-snoc (g ∷ es) e

ensure_loggers-some : (w : World) → (ensure_loggers w).loggers ≢ none
unfolding ensure_loggers
ensure_loggers-some w = ground arith

-- An error is the last thing that happens: it is logged, by loggers that are there.
abbrev pub Reported : Option Error → World → Type 0
Reported none w = Unit {0}
Reported (some e) w =
    ((last_event w.events ≡ some (logged e)) ⊎ (last_event w.events ≡ some (logged_panic e)))
    × (w.loggers ≢ none)

handle_exit-Reported : (x : Exit) (w : World) → Reported (handle_exit x w).0 (handle_exit x w).1
unfolding handle_exit
handle_exit-Reported x w = elim (Option-cases x.panicking) [
  | inl n ↦ rw n (unpanicked x.r_err)
  | inr (p, n) ↦ rw n (
      (
        inr (
            last_event-snoc (ensure_loggers (log_error x.r_err w)).events
              (logged_panic (error_of p))),
        ensure_loggers-some (log_error x.r_err w),
      ))
]
  where
    unpanicked : (e : Option Error) → Reported e (log_error e w)
    unpanicked none = tt
    unpanicked (some e) =
        (inl (last_event-snoc (ensure_loggers w).events (logged e)), ensure_loggers-some w)

-- If Start returns an error, then the last thing that has happened is that this error was logged,
-- as an error or as that of a panic, and the server has loggers, whichever phase or deferred
-- function failed or panicked.
pub start-Reported :
    (env : Environment) (opts : Options) (w : World)
    → Reported (start env opts w).0 (start env opts w).1
unfolding start finish
start-Reported env opts w =
    let (r, w') = body env opts w in
    let z = run_deferred env w'.stack (exit_of r) w' in handle_exit-Reported z.0 z.1
