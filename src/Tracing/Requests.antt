-- ===== src/Tracing/Requests.antt =====
-- The spans of a request: newRequestTraceSpan of witchcraft/internal/middleware/request.go, and
-- newRouteLogTraceSpan of route.go beside it. The tracer and the B3 headers are parameters: the
-- extraction of a span context from the headers of a request, its injection into them, and the start
-- of a span.
use text.Mathlib.Text.{◌==◌ as str_eq}
use Prim.Native.String.{◌++◌ as str_append}
use witchcraft_go_server.Telemetry.Middleware.{RequestVals}
use witchcraft_go_server.Base.{
  Bool-cases, not, ◌||◌, Option, none, some, inl, inr, if◌then◌else◌, ℕ, List, [], ◌∷◌, String, ◌≡◌,
  refl,
}

-- The parts of an http.Request that are used.
pub record Request (Headers Context : Type 0) : Type 0 where
  pub headers : Headers
  pub method : String
  pub user_agent : String
  pub ctx : Context

-- What the middleware does with its span.
pub data SpanAction (SpanContext : Type 0) : Type 0 where
  started : String → SpanContext → List (String × String) → SpanAction SpanContext
  tagged : String → String → SpanAction SpanContext
  finished : SpanAction SpanContext

-- `start_span` gives the context of a span that is started in a context with a parent and tags, and
-- the context that holds the span.
module _ {Headers Context SpanContext : Type 0} (extract : Headers → SpanContext)
    (inject : SpanContext → Headers → Headers)
    (start_span : Context → SpanContext → SpanContext × Context) where
  -- The function that newRequestTraceSpan returns: the request with the span, and what is done.
  unfoldable pub new_request_trace_span :
      Request Headers Context → Request Headers Context × List (SpanAction SpanContext)
  new_request_trace_span req =
      let parent = extract req.headers in
      let (span, ctx) = start_span req.ctx parent in
      (
        record req { headers = inject span req.headers; ctx = ctx },
        started "witchcraft-go-server request middleware" parent
              (("http.method", req.method) ∷ ("http.useragent", req.user_agent) ∷ [])
            ∷ [],
      )

  -- The function that is called with the writer when the request is done.
  abbrev pub finish_span : (ℕ → String) → ℕ → List (SpanAction SpanContext)
  finish_span itoa status = tagged "http.status_code" (itoa status) ∷ finished ∷ []

  -- The name of a route's span.
  unfoldable pub span_name : String → RequestVals → String
  span_name method vals =
      if not (str_eq vals.path_template "")
      then str_append (str_append method " ") vals.path_template
      else method

  -- `start_route_span` gives the context of a span with a parent, and `with_span` the context that
  -- holds a span.
  module _ (start_route_span : String → SpanContext → SpanContext)
      (with_span : Context → SpanContext → Context) where
    -- newRouteLogTraceSpan: the request with the span, and the span.
    unfoldable pub new_route_log_trace_span :
        RequestVals → Request Headers Context → Request Headers Context × Option SpanContext
    new_route_log_trace_span vals req =
        let span = start_route_span (span_name req.method vals) (extract req.headers) in
        if vals.disable_telemetry || not vals.has_tracer then (req, none) else (
          record req { ctx = with_span req.ctx span; headers = inject span req.headers },
          some span,
        )

    -- The request that the handler of a route gets from the two middlewares, and the route's span.
    unfoldable pub request_chain :
        RequestVals → Request Headers Context → Request Headers Context × Option SpanContext
    unfolding new_request_trace_span new_route_log_trace_span
    request_chain vals req = new_route_log_trace_span vals (new_request_trace_span req).0

    -- The span that the request's middleware starts.
    unfoldable pub request_span : Request Headers Context → SpanContext
    request_span req = (start_span req.ctx (extract req.headers)).0

    -- `ids` are the trace's id and the span's id of a context, and `IsWritten` says that neither is
    -- empty and both are in lower case, as the ids that a tracer makes are: these the injection sets,
    -- and the extraction reads back. What else is in the headers may be left of an earlier span.
    module _ {Ids : Type 0} (ids : SpanContext → Ids) (IsWritten : SpanContext → Type 0)
        (ids_read_back : (s : SpanContext) (h : Headers)
          → IsWritten s
          → ids (extract (inject s h)) ≡ ids s) where
      -- A route with telemetry, in a context with a tracer, gets a span of its own, whose parent is
      -- read from headers with the ids of the span of the request's middleware; and what the handler
      -- extracts from the headers that it gets has the ids of the route's span. Any other route gets
      -- no span, and its handler the ids of the request's span.
      pub record IsChained (vals : RequestVals) (req : Request Headers Context) : Type 0 where
        pub parent : SpanContext
        pub parent_ids : ids parent ≡ ids (request_span req)
        pub route_span : (request_chain vals req).1 ≡ (
            if vals.disable_telemetry || not vals.has_tracer
            then none
            else some (start_route_span (span_name req.method vals) parent))
        pub handler_ids : ids (extract (request_chain vals req).0.headers) ≡ (
            if vals.disable_telemetry || not vals.has_tracer
            then ids (request_span req)
            else ids (start_route_span (span_name req.method vals) parent))

      -- If the tracer makes spans whose ids are not empty and in lower case, the spans of a request
      -- form a chain: the span of the route is started with a parent that has the ids of the span of
      -- the request's middleware, and the headers that the handler gets carry the ids of the route's
      -- span. Where the route has no telemetry or there is no tracer, no span is started for it, and
      -- the headers carry the ids of the request's span.
      pub request_chain-IsChained :
          (vals : RequestVals) (req : Request Headers Context)
          → IsWritten (request_span req)
          → ((parent : SpanContext)
              → IsWritten (start_route_span (span_name req.method vals) parent))
          → IsChained vals req
      unfolding request_chain new_request_trace_span new_route_log_trace_span request_span
      request_chain-IsChained vals req started_ids route_ids =
          let headers = inject (start_span req.ctx (extract req.headers)).0 req.headers in
          let mid =
            ids_read_back (start_span req.ctx (extract req.headers)).0 req.headers started_ids in
          elim (Bool-cases (vals.disable_telemetry || not vals.has_tracer)) [
            | inl b ↦ record {
              parent = extract headers;
              parent_ids = mid;
              route_span = rw b refl;
              handler_ids = rw b mid;
            }
            | inr b ↦ record {
              parent = extract headers;
              parent_ids = mid;
              route_span = rw b refl;
              handler_ids = rw b (ids_read_back _ headers (route_ids (extract headers)));
            }
          ]
