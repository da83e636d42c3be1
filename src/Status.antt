-- ===== src/Status.antt =====
-- The status endpoints: status/status.go with its change handlers, and status/routes/routes.go.
-- A health check's result is its state; the codes of witchcraft-go-health, the comparison of
-- secrets and the extraction of the bearer token are parameters.
pub mod Changes
mod Tests
use text.Mathlib.Text.{◌==◌ as str_eq}
use witchcraft_go_server.Base.{
  ℕ, Bool, true, false, not, ◌||◌, Option, none, some, List, [], ◌∷◌, ◌++◌, ◌==◌, String, length,
  ltb, if◌then◌else◌,
}
use witchcraft_go_server.Health.{HealthState, same_health, Checks}

-- newChecks[previousCheckType], with whether it is there.
unfoldable pub find_check : String → Checks HealthState → Option HealthState
find_check k [] = none
find_check k ((j, s) ∷ cs) = if str_eq j k then some s else find_check k cs

-- One round of the loop of checksDiffer: whether it returns true.
abbrev pub check_differs : HealthState → Option HealthState → Bool
check_differs s none = true
check_differs s (some t) = not (same_health s t)

unfoldable pub some_differs : Checks HealthState → Checks HealthState → Bool
unfolding find_check
some_differs [] new_checks = false
some_differs ((k, s) ∷ cs) new_checks =
    let rest = some_differs cs new_checks in
    if check_differs s (find_check k new_checks) then true else rest

unfoldable pub checks_differ : Checks HealthState → Checks HealthState → Bool
unfolding some_differs
checks_differ previous new_checks =
    if not (length previous == length new_checks) then true else some_differs previous new_checks

-- What the handlers of a change do.
pub data Effect : Type 0 where
  log_info log_warn log_error : Effect
  thread_dump : Effect
  custom : ℕ → Effect

-- A HealthStatusChangeHandler: the previous status and the current one to what it does.
abbrev pub Handler : Type 0
Handler = Checks HealthState → Checks HealthState → List Effect

module _ (health_status_code : Checks HealthState → ℕ) where
  -- loggingHealthStatusChangeHandler
  unfoldable pub log_if_health_changed : Handler
  log_if_health_changed previous new_health =
      let new_code = health_status_code new_health in
      if not (health_status_code previous == new_code)
      then (if new_code == 200
          then log_info
          else if new_code == 518 || new_code == 520
          then log_warn
          else log_error)
        ∷ []
      else log_info ∷ []

  -- NewDiagnosticLoggingChangeHandler, over the code of a repairing state.
  unfoldable pub diagnostic_handler : ℕ → Handler
  diagnostic_handler repairing_code previous curr =
      if ltb repairing_code (health_status_code curr) then thread_dump ∷ [] else []

-- multiHealthStatusChangeHandler
unfoldable pub multi_handler : List Handler → Handler
multi_handler [] previous curr = []
multi_handler (h ∷ hs) previous curr = h previous curr ++ multi_handler hs previous curr

pub data Response : Type 0 where
  unauthorized permission_denied : Response
  health_json : Checks HealthState → ℕ → Response

-- healthHandlerImpl, less its sources.
pub record HealthHandler : Type 0 where
  pub previous_health : Checks HealthState
  pub change_handler : Handler

module _ (health_status_code : Checks HealthState → ℕ)
    (secret_string_equal : String → String → Bool) where
  -- NewHealthCheckHandler
  unfoldable pub new_health_check_handler : List Handler → HealthHandler
  unfolding multi_handler log_if_health_changed
  new_health_check_handler handlers = record {
    previous_health = [];
    change_handler = multi_handler (log_if_health_changed health_status_code ∷ handlers);
  }

  -- ServeHTTP after the secret has been checked.
  unfoldable pub answer :
      Checks HealthState → HealthHandler → HealthHandler × Response × List Effect
  unfolding checks_differ
  answer metadata h = (
    record h { previous_health = metadata },
    health_json metadata (health_status_code metadata),
    (if checks_differ h.previous_health metadata
        then h.change_handler h.previous_health metadata
        else []),
  )

  -- ServeHTTP: the shared secret, the bearer token, if one could be parsed, and what the check
  -- reports.
  unfoldable pub serve_http :
      String
      → Option String
      → Checks HealthState
      → HealthHandler
      → HealthHandler × Response × List Effect
  unfolding answer
  serve_http shared_secret none metadata h =
      if str_eq shared_secret "" then answer metadata h else (h, unauthorized, [])
  serve_http shared_secret (some token) metadata h =
      if str_eq shared_secret ""
      then answer metadata h
      else if not (secret_string_equal shared_secret token)
      then (h, permission_denied, [])
      else answer metadata h
