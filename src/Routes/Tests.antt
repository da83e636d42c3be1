-- ===== src/Routes/Tests.antt =====
-- The routes at concrete configurations.
use text.Mathlib.Text.{◌==◌ as str_eq}
use text.Mathlib.TextEquality.{eq_iff}
use witchcraft_go_server.Base.{
  ◌&&◌, ◌↔◌, ℕ, ◌==◌, ◌∷◌, ◌&&◌, not, Bool, true, false, none, some, List, [], ◌++◌, ◌≡◌, ◌≢◌, refl,
  String, arith, if◌then◌else◌,
}
use witchcraft_go_server.Diagnostics.Resource.{is_admitted}
use witchcraft_go_server.Lifecycle.{status, new_server}
use witchcraft_go_server.Routes.Secret.{
  DiagnosticsConfig, from_config, get_secret_refreshable, current_secret, reload-is_admitted,
}
use witchcraft_go_server.Routes.Registration.{
  take_while, all_taken, ServerConfig, Route, wrapped, register_all, start_steps, server_routes,
  start_steps-server_routes,
}
use witchcraft_go_server.Routes.Middleware.{
  RequestMiddleware, Roots, Handle, meaning, around, add_own, start_middleware, serve_request,
  serve_request-recovers,
}
use witchcraft_go_server.Telemetry.Writer.{
  Op, header_op, new_response_writer, written, run, status as response_status,
}
use witchcraft_go_server.Telemetry.Middleware.{
  Outcome, recovered, request_telemetry, span_tag, span_finish,
}
use witchcraft_go_server.Telemetry.Middleware.Panics.{with_hsts}
use witchcraft_go_server.Routes.Handling.{with_sources, source_of_route, handle}

abbrev in_config : DiagnosticsConfig
in_config = record { debug_shared_secret = "s"; debug_shared_secret_file = "" }

abbrev in_file : DiagnosticsConfig
in_file = record { debug_shared_secret = ""; debug_shared_secret_file = "/secret" }

from_config_at_start : get_secret_refreshable (λ p. true) in_config ≡ some from_config
unfolding get_secret_refreshable
from_config_at_start = refl

reload-is_admitted_example :
    is_admitted str_eq (current_secret (λ p. "s") from_config in_file) none ≡ true
reload-is_admitted_example =
    reload-is_admitted (λ p. true) (λ p. "s") str_eq in_config in_file from_config none
      from_config_at_start s_not_empty refl
  where
    s_not_empty : ◌≢◌ {A = String} "s" ""
    s_not_empty = ground (arith, eq_iff "s" "")

abbrev two_ports : ServerConfig
two_ports = record { port = 8443; management_port = 8444; context_path = "/app" }

-- A router that has a route for liveness already.
abbrev no_liveness : Route → Bool
no_liveness (root, path) = if str_eq path "/app/status/liveness" then false else true

liveness_taken :
    (register_all no_liveness (start_steps two_ports true true)).1
    ≡ some (wrapped "failed to register liveness routes")
unfolding register_all start_steps
liveness_taken = refl

start_steps-server_routes_example :
    let result = register_all no_liveness (start_steps two_ports true true) in
    let routes = server_routes two_ports (true && true) in
    (result.0 ≡ take_while no_liveness routes)
    × ((result.1 ≡ none) ↔ ((true && true) && all_taken no_liveness routes ≡ true))
start_steps-server_routes_example = start_steps-server_routes two_ports true true no_liveness

-- A new server that no one has configured is not ready.
not_ready :
    handle (λ n. (200, none)) new_server (source_of_route (with_sources [] none)) ≡ (503, "{}")
unfolding handle with_sources source_of_route status
not_ready = refl

abbrev error_500 : List Op
error_500 = header_op 500 ∷ []

-- Middleware 1 panics before anything is written; the others pass the request on.
abbrev own_middleware : ℕ → Handle → Handle
own_middleware i next w =
    if i == 1
    then record { writer = w; endpoints = none; effects = []; panicked = true }
    else next w

abbrev compose_all : List RequestMiddleware → Handle → Handle
compose_all [] next = next
compose_all (m ∷ ms) next = meaning error_500 own_middleware m (compose_all ms next)

abbrev quiet_route : Handle
quiet_route w = record { writer = w; endpoints = none; effects = []; panicked = false }

abbrev both_roots : Roots
both_roots = add_own (1 ∷ []) (start_middleware true (0 ∷ []))

abbrev management_outcome : Outcome
management_outcome =
    serve_request error_500 own_middleware compose_all (λ n. refl) (λ m ms n. refl) true both_roots
      quiet_route (new_response_writer true)

abbrev inner_outcome : Outcome
inner_outcome =
    around error_500 own_middleware (0 ∷ 1 ∷ []) quiet_route (with_hsts (new_response_writer true))

serve_request-recovers_example :
    (management_outcome.panicked ≡ false)
    × (response_status management_outcome.writer ≡ (
        if inner_outcome.panicked && not (written inner_outcome.writer)
        then 500
        else response_status inner_outcome.writer))
    × (management_outcome.effects
        ≡ (inner_outcome.effects
            ++ (recovered error_500 inner_outcome.panicked inner_outcome.writer).1)
          ++ (span_tag (response_status management_outcome.writer) ∷ span_finish ∷ []))
serve_request-recovers_example =
    serve_request-recovers error_500 own_middleware compose_all (λ n. refl) (λ m ms n. refl)
      (omega arith, tt) (λ d. refl) true true (0 ∷ []) (1 ∷ []) quiet_route
      (new_response_writer true)

answered_500 : response_status management_outcome.writer ≡ 500
unfolding start_middleware request_telemetry run
answered_500 = refl
