-- ===== src/Telemetry/Middleware.antt =====
-- route.go and request.go: the telemetry of a route, and that of a request around it.
pub mod Panics
use witchcraft_go_server.Base.{
  ℕ, ◌/◌, Bool, true, false, not, Option, none, some, List, [], ◌∷◌, ◌++◌, ◌==◌, String,
  if◌then◌else◌, map_option,
}
use witchcraft_go_server.FiveHundreds.{Endpoints, mark_response}
use witchcraft_go_server.Telemetry.Writer.{Writer, Op, set_header, status, written, run}

-- What the middleware emits, but for the durations.
pub data Effect : Type 0 where
  request_log : ℕ → ℕ → Effect
  response_timer : Effect
  request_size : Effect
  response_size : ℕ → Effect
  error_meter : Effect
  panic_already_written panic_responding_500 : Effect
  span_tag : ℕ → Effect
  span_finish : Effect

-- A handler's uses of the writer, and whether it panics after them.
pub record Handler : Type 0 where
  pub ops : List Op
  pub panics : Bool

-- The writer and the endpoints after a middleware, what it emitted, and whether it panics itself.
pub record Outcome : Type 0 where
  pub writer : Writer
  pub endpoints : Option Endpoints
  pub effects : List Effect
  pub panicked : Bool

-- wrouter.RequestVals, and whether the request's context has a tracer.
pub record RequestVals : Type 0 where
  pub disable_telemetry : Bool
  pub method : String
  pub path_template : String
  pub has_tracer : Bool

-- `error_ops` is what errors.WriteErrorResponse does with the writer for an internal error.
module _ (error_ops : List Op) where
  -- What follows wapp.RunWithFatalLogging in both middlewares.
  unfoldable pub recovered : Bool → Writer → Writer × List Effect
  recovered false w = (w, [])
  recovered true w =
      if written w
      then (w, panic_already_written ∷ [])
      else (run error_ops w, panic_responding_500 ∷ [])

  -- markRequestMetricRequestMeter
  unfoldable pub mark_metrics : Writer → List Effect
  mark_metrics w =
      response_timer
      ∷ request_size
      ∷ response_size w.size
      ∷ (if (status w / 100) == 5 then error_meter ∷ [] else [])

  -- The deferred function of NewRouteTelemetry.
  unfoldable pub route_done : RequestVals → Writer → List Effect
  unfolding mark_metrics
  route_done vals w =
      (request_log (status w) w.size ∷ mark_metrics w)
      ++ (if vals.has_tracer then span_finish ∷ [] else [])

  unfoldable pub route_telemetry : RequestVals → Handler → Option Endpoints → Writer → Outcome
  unfolding recovered route_done
  route_telemetry vals h endpoints w =
      let w1 = run h.ops w in
      let (w2, log) = recovered h.panics w1 in
      if vals.disable_telemetry
      then record { writer = w1; endpoints = endpoints; effects = []; panicked = h.panics }
      else record {
        writer = w2;
        endpoints = map_option (mark_response vals.method vals.path_template (status w2)) endpoints;
        effects = log ++ route_done vals w2;
        panicked = false;
      }

  -- NewRequestTelemetry around the rest of the server.
  unfoldable pub request_telemetry : (Writer → Outcome) → Writer → Outcome
  unfolding recovered
  request_telemetry next w =
      let o =
        next
          (record w { out = set_header "Strict-Transport-Security" "max-age=31536000" ∷ w.out }) in
      let (w2, log) = recovered o.panicked o.writer in
      record o {
        writer = w2;
        effects = (o.effects ++ log) ++ (span_tag (status w2) ∷ span_finish ∷ []);
        panicked = false;
      }
