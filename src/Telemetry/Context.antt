-- ===== src/Telemetry/Context.antt =====
-- The context of a request: newRequestContextLoggers, what newRequestExtractIDs puts on it, and
-- newRequestTracer of request.go, in the order of NewRequestTelemetry. A logger is a number; the
-- loggers that FromContext gives where a context has none are the logging library's, and parameters.
use witchcraft_go_server.Base.{
  ℕ, Bool, true, false, Option, none, some, List, [], ◌∷◌, ◌++◌, ◌≡◌, refl,
}
use witchcraft_go_server.Telemetry.Identifiers.{ContextValue, TraceParam, AuditParam, Extracted}

-- A logger and the parameters on it.
abbrev pub With : Type 0 → Type 0
With A = ℕ × List A

-- What a tracer reports to: the trace logger, or nothing. A tracer that could not be made is nil.
pub data Tracer : Type 0 where
  nil_tracer : Tracer
  reports_to : Option ℕ → Tracer

pub record Context : Type 0 where
  pub svc : Option ℕ
  pub evt : Option ℕ
  pub audit2 : Option ℕ
  pub audit3 : Option (With AuditParam)
  pub metric : Option ℕ
  pub diag : Option ℕ
  pub req : Option ℕ
  pub trc : Option (With TraceParam)
  pub registry : Option ℕ
  pub values : List ContextValue
  pub tracer : Option Tracer

-- The arguments of NewRequestTelemetry that are not functions; `none` is nil. `audit3` is the
-- pointer, which holds a pointer, which holds a logger.
pub record Telemeters : Type 0 where
  pub svc_logger : Option ℕ
  pub evt_logger : Option ℕ
  pub audit2_logger : Option ℕ
  pub audit3_logger : Option (Option (Option ℕ))
  pub metric_logger : Option ℕ
  pub diag_logger : Option ℕ
  pub req_logger : Option ℕ
  pub trc_logger : Option ℕ
  pub metrics_registry : Option ℕ

-- The value of the context that a new one replaces if it is not nil.
abbrev pub replaced : {A : Type 0} → Option A → Option A → Option A
replaced none old = old
replaced (some a) old = some a

abbrev pub plain : {A : Type 0} → Option ℕ → Option (With A)
plain none = none
plain (some l) = some (l, [])

abbrev pub loaded : Option (Option (Option ℕ)) → Option ℕ
loaded (some (some (some l))) = some l
loaded _ = none

-- newRequestContextLoggers
unfoldable pub with_loggers : Telemeters → Context → Context
with_loggers t c = record c {
  svc = replaced t.svc_logger c.svc;
  evt = replaced t.evt_logger c.evt;
  audit2 = replaced t.audit2_logger c.audit2;
  audit3 = replaced (plain (loaded t.audit3_logger)) c.audit3;
  metric = replaced t.metric_logger c.metric;
  diag = replaced t.diag_logger c.diag;
  req = replaced t.req_logger c.req;
  trc = replaced (plain t.trc_logger) c.trc;
  registry = replaced t.metrics_registry c.registry;
}

-- FromContext: the logger of the context, or the library's.
abbrev pub from_context : {A : Type 0} → ℕ → Option (With A) → With A
from_context default_logger none = (default_logger, [])
from_context default_logger (some l) = l

-- WithParams, if there are any, and WithLogger.
abbrev pub with_params : {A : Type 0} → ℕ → List A → Option (With A) → Option (With A)
with_params default_logger [] l = l
with_params default_logger (p ∷ ps) l =
    let (base, params) = from_context default_logger l in some (base, params ++ (p ∷ ps))

-- The loggers of newRequestExtractIDs and the values on the context.
unfoldable pub with_ids : ℕ → ℕ → Extracted → Context → Context
with_ids default_trc default_audit3 e c = record c {
  values = c.values ++ e.context;
  trc = with_params default_trc e.trace c.trc;
  audit3 = with_params default_audit3 e.audit c.audit3;
}

-- newRequestTracer; whether the library makes a tracer of the options is `can_trace`. With the
-- context, whether the failure has been logged.
unfoldable pub with_tracer : Bool → Telemeters → Context → Context × Bool
with_tracer true t c = (record c { tracer = some (reports_to t.trc_logger) }, false)
with_tracer false t c =
    (record c { tracer = some nil_tracer }, elim t.svc_logger [ none ↦ false | some l ↦ true ])

-- What NewRequestTelemetry makes of a request's context, before the span.
unfoldable pub request_context : ℕ → ℕ → Bool → Telemeters → Extracted → Context → Context × Bool
unfolding with_loggers with_ids with_tracer
request_context default_trc default_audit3 can_trace t e c =
    with_tracer can_trace t (with_ids default_trc default_audit3 e (with_loggers t c))

-- A change of the audit.3 logger by the configuration, or a request.
pub data Event : Type 0 where
  store : ℕ → Event
  request : Extracted → Context → Event

-- audit3Logger.Store
abbrev pub stored : ℕ → Telemeters → Telemeters
stored l t = record t { audit3_logger = some (some (some l)) }

module _ (default_trc default_audit3 : ℕ) (can_trace : Bool) where
  -- The contexts of the requests, in their order.
  unfoldable pub contexts : List Event → Telemeters → List Context
  contexts [] t = []
  contexts (store l ∷ es) t = contexts es (stored l t)
  contexts (request e c ∷ es) t =
      (request_context default_trc default_audit3 can_trace t e c).0 ∷ contexts es t

-- The audit.3 loggers that the requests should have: the one stored last, with the request's
-- parameters and no other.
unfoldable pub audit3_wanted : List Event → ℕ → List (Option (With AuditParam))
audit3_wanted [] l = []
audit3_wanted (store l' ∷ es) l = audit3_wanted es l'
audit3_wanted (request e c ∷ es) l = some (l, e.audit) ∷ audit3_wanted es l

unfoldable pub audit3_of : List Context → List (Option (With AuditParam))
audit3_of [] = []
audit3_of (c ∷ cs) = c.audit3 ∷ audit3_of cs

with_params_plain :
    {A : Type 0} (d l : ℕ) (ps : List A) → with_params d ps (some (l, [])) ≡ some (l, ps)
with_params_plain d l [] = refl
with_params_plain d l (p ∷ ps) = refl

request_context-audit3 :
    (dt da : ℕ) (b : Bool) (t : Telemeters) (e : Extracted) (c : Context) (l : ℕ)
    → t.audit3_logger ≡ some (some (some l))
    → (request_context dt da b t e c).0.audit3 ≡ some (l, e.audit)
unfolding request_context with_tracer with_ids with_loggers
request_context-audit3 dt da true t e c l h = rw h (with_params_plain da l e.audit)
request_context-audit3 dt da false t e c l h = rw h (with_params_plain da l e.audit)

-- Over any requests and changes of the configuration, a request's audit.3 logger is the one stored
-- last before it, with the parameters of that request and no other, whatever its context had.
pub contexts-audit3 :
    (default_trc default_audit3 : ℕ) (can_trace : Bool) (es : List Event) (l : ℕ) (t : Telemeters)
    → t.audit3_logger ≡ some (some (some l))
    → audit3_of (contexts default_trc default_audit3 can_trace es t) ≡ audit3_wanted es l
unfolding contexts audit3_of audit3_wanted
contexts-audit3 dt da b [] l t h = refl
contexts-audit3 dt da b (store l' ∷ es) l t h = contexts-audit3 dt da b es l' (stored l' t) refl
contexts-audit3 dt da b (request e c ∷ es) l t h =
    let a = request_context-audit3 dt da b t e c l h in
    let rest = contexts-audit3 dt da b es l t h in cc
