-- ===== src/Routes/Middleware.antt =====
-- The middleware of the server's root routers: addMiddleware of witchcraft/server_routes.go, which
-- Start calls for each root router before the application's initialization adds its own. How a root
-- router composes the middleware of its requests is wrouter's, a parameter.
use witchcraft_go_server.Base.{
  Bool, true, false, not, ◌&&◌, ℕ, Option, none, some, List, [], ◌∷◌, ◌++◌, if◌then◌else◌, ◌≡◌,
  refl, sym, ap, ◌∙◌, map, Bool-cases, inl, inr,
}
use mathlib.Core.List.{map-append}
use witchcraft_go_server.Telemetry.Writer.{Writer, Op, status, written}
use witchcraft_go_server.Telemetry.Writer.Outputs.{HaveCodes, last_code, run-status}
use witchcraft_go_server.Telemetry.Middleware.{
  Outcome, recovered, request_telemetry, span_tag, span_finish,
}
use witchcraft_go_server.Telemetry.Middleware.Panics.{with_hsts}

-- The telemetry of requests, with the tracing options of the application or of the management
-- port, or the application's own middleware.
pub data RequestMiddleware : Type 0 where
  application_telemetry management_telemetry : RequestMiddleware
  custom : ℕ → RequestMiddleware

pub data RouteMiddleware : Type 0 where
  route_telemetry : RouteMiddleware

pub data NotFound : Type 0 where
  json_not_found : NotFound

pub record RootRouter : Type 0 where
  pub request_middleware : List RequestMiddleware
  pub route_middleware : List RouteMiddleware
  pub not_found : Option NotFound

abbrev pub new_root : RootRouter
new_root = record { request_middleware = []; route_middleware = []; not_found = none }

-- AddRequestHandlerMiddleware
abbrev pub add_request_middleware : List RequestMiddleware → RootRouter → RootRouter
add_request_middleware ms r = record r { request_middleware = r.request_middleware ++ ms }

-- addMiddleware; `handlers` is s.handlers.
unfoldable pub add_middleware : RequestMiddleware → List ℕ → RootRouter → RootRouter
add_middleware telemetry handlers r =
    let r1 = add_request_middleware (telemetry ∷ []) r in
    let r2 = add_request_middleware (map custom handlers) r1 in
    let r3 = record r2 { route_middleware = r2.route_middleware ++ (route_telemetry ∷ []) } in
    record r3 { not_found = some json_not_found }

-- The main root router and that of the management port, if it has one of its own.
abbrev pub Roots : Type 0
Roots = RootRouter × Option RootRouter

-- Start, from the routers to the initialization.
unfoldable pub start_middleware : Bool → List ℕ → Roots
unfolding add_middleware
start_middleware separate handlers = (
  add_middleware application_telemetry handlers new_root,
  if separate then some (add_middleware management_telemetry handlers new_root) else none,
)

-- What the initialization adds through the router that it gets, which adds to both.
abbrev pub add_own : List ℕ → Roots → Roots
add_own own (main, none) = (add_request_middleware (map custom own) main, none)
add_own own (main, some mgmt) = (
  add_request_middleware (map custom own) main,
  some (add_request_middleware (map custom own) mgmt),
)

-- The root router that answers at the management port.
abbrev pub answering : Bool → Roots → RootRouter
answering at_management (main, none) = main
answering at_management (main, some mgmt) = if at_management then mgmt else main

abbrev pub Handle : Type 0
Handle = Writer → Outcome

module _ (error_ops : List Op) (own_middleware : ℕ → Handle → Handle) where
  abbrev pub meaning : RequestMiddleware → Handle → Handle
  meaning application_telemetry next = request_telemetry error_ops next
  meaning management_telemetry next = request_telemetry error_ops next
  meaning (custom i) next = own_middleware i next

  -- The application's middleware around a handler, the first one outermost.
  unfoldable pub around : List ℕ → Handle → Handle
  around [] next = next
  around (i ∷ is) next = own_middleware i (around is next)

  module _ (compose : List RequestMiddleware → Handle → Handle)
      (compose-nil : (next : Handle) → compose [] next ≡ next)
      (compose-cons : (m : RequestMiddleware) (ms : List RequestMiddleware) (next : Handle)
        → compose (m ∷ ms) next ≡ meaning m (compose ms next)) where
    -- A request to the server or to its management port.
    abbrev pub serve_request : Bool → Roots → Handle → Handle
    serve_request at_management roots next =
        compose (answering at_management roots).request_middleware next

    compose_custom : (is : List ℕ) (next : Handle) → compose (map custom is) next ≡ around is next
    unfolding around
    compose_custom [] next = compose-nil next
    compose_custom (i ∷ is) next =
        compose-cons (custom i) (map custom is) next
        ∙ ap (λ h. own_middleware i h) (compose_custom is next)

    telemetry_around :
        (t : RequestMiddleware) (handlers own : List ℕ) (next : Handle)
        → compose (t ∷ (map custom handlers ++ map custom own)) next
          ≡ meaning t (around (handlers ++ own) next)
    telemetry_around t handlers own next =
        compose-cons t (map custom handlers ++ map custom own) next
        ∙ ap (λ ms. meaning t (compose ms next)) (sym (map-append custom handlers own))
        ∙ ap (λ h. meaning t h) (compose_custom (handlers ++ own) next)

    serve_around :
        (separate at_management : Bool) (handlers own : List ℕ) (next : Handle)
        → serve_request at_management (add_own own (start_middleware separate handlers)) next
          ≡ request_telemetry error_ops (around (handlers ++ own) next)
    unfolding start_middleware
    serve_around false at_management handlers own next =
        telemetry_around application_telemetry handlers own next
    serve_around true false handlers own next =
        telemetry_around application_telemetry handlers own next
    serve_around true true handlers own next =
        telemetry_around management_telemetry handlers own next

    module _ (error_ops_codes : HaveCodes error_ops)
        (error_ops_500 : (d : ℕ) → last_code d error_ops ≡ 500) where
      recovered_status :
          (p : Bool) (w : Writer)
          → status (recovered error_ops p w).0 ≡ (if p && not (written w) then 500 else status w)
      unfolding recovered
      recovered_status false w = refl
      recovered_status true w = elim (Bool-cases (written w)) [
        | inl e ↦ rw e refl
        | inr e ↦ rw e (run-status error_ops w error_ops_codes ∙ error_ops_500 _)
      ]

      telemetry_recovers :
          (next : Handle) (w : Writer)
          → let o = request_telemetry error_ops next w in
            let inner = next (with_hsts w) in
            (o.panicked ≡ false)
            × (status o.writer ≡ (
                if inner.panicked && not (written inner.writer) then 500 else status inner.writer))
            × (o.effects
                ≡ (inner.effects ++ (recovered error_ops inner.panicked inner.writer).1)
                  ++ (span_tag (status o.writer) ∷ span_finish ∷ []))
      unfolding request_telemetry
      telemetry_recovers next w =
          let inner = next (with_hsts w) in
          (refl, recovered_status inner.panicked inner.writer, refl)

      -- A request, to the server or to its management port, whether or not this is another port:
      -- the application's middleware runs around the route in the order of its addition, that of the
      -- options before that of the initialization; a panic of any of it, or of the route, does not
      -- leave the server, and is answered with 500 if nothing was written; and the request's span is
      -- finished last, with the status that the writer has in the end.
      pub serve_request-recovers :
          (separate at_management : Bool) (handlers own : List ℕ) (next : Handle) (w : Writer)
          → let roots = add_own own (start_middleware separate handlers) in
            let o = serve_request at_management roots next w in
            let inner = around (handlers ++ own) next (with_hsts w) in
            (o.panicked ≡ false)
            × (status o.writer ≡ (
                if inner.panicked && not (written inner.writer) then 500 else status inner.writer))
            × (o.effects
                ≡ (inner.effects ++ (recovered error_ops inner.panicked inner.writer).1)
                  ++ (span_tag (status o.writer) ∷ span_finish ∷ []))
      serve_request-recovers separate at_management handlers own next w =
          rw (serve_around separate at_management handlers own next)
            (telemetry_recovers (around (handlers ++ own) next) w)
