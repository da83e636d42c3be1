-- ===== src/Telemetry/ServerContext.antt =====
-- The loggers that Start puts on its context, which the application's init function gets: withLoggers
-- of witchcraft/witchcraft.go. The fields of the server that it reads are those that Start gives to
-- NewRequestTelemetry.
use mathlib.Core.Path.{subst}
use witchcraft_go_server.Base.{[], ℕ, Option, none, some, map_option, ◌≡◌, refl}
use witchcraft_go_server.Telemetry.Context.{
  Context, Telemeters, replaced, plain, loaded, with_loggers,
}

-- withLoggers with the audit.3 logger that the pointer holds.
abbrev pub with_all : Telemeters → ℕ → Context → Context
with_all t audit3 c = record c {
  svc = t.svc_logger;
  evt = t.evt_logger;
  metric = t.metric_logger;
  trc = plain t.trc_logger;
  audit2 = t.audit2_logger;
  audit3 = some (audit3, []);
  diag = t.diag_logger;
}

-- withLoggers; none is the panic on a pointer that holds nothing.
unfoldable pub with_server_loggers : Telemeters → Context → Option Context
with_server_loggers t c = map_option (λ audit3. with_all t audit3 c) (loaded t.audit3_logger)

replaced-same : {A : Type 0} (o : Option A) → replaced o o ≡ o
replaced-same none = refl
replaced-same (some a) = refl

-- The middleware of requests puts the same loggers on a context as Start has put on its own, but for
-- the request logger and the registry of metrics: on a context that withLoggers has made it changes
-- nothing else.
pub with_loggers-with_server_loggers :
    (t : Telemeters) (c c' : Context)
    → with_server_loggers t c ≡ some c'
    → with_loggers t c' ≡ record c' {
      req = replaced t.req_logger c'.req;
      registry = replaced t.metrics_registry c'.registry;
    }
unfolding with_server_loggers with_loggers
with_loggers-with_server_loggers t c c' h = by_pointer (loaded t.audit3_logger) refl h
  where
    by_pointer :
        (o : Option ℕ)
        → loaded t.audit3_logger ≡ o
        → map_option (λ audit3. with_all t audit3 c) o ≡ some c'
        → with_loggers t c' ≡ record c' {
          req = replaced t.req_logger c'.req;
          registry = replaced t.metrics_registry c'.registry;
        }
    by_pointer none e h = absurd (cc)
    by_pointer (some l) e h =
        let same : with_all t l c ≡ c' = cc in
        subst
          (λ d. with_loggers t d ≡ record d {
            req = replaced t.req_logger d.req;
            registry = replaced t.metrics_registry d.registry;
          })
          same
          (rw
            (
              e,
              replaced-same t.svc_logger,
              replaced-same t.evt_logger,
              replaced-same t.metric_logger,
              replaced-same (plain t.trc_logger),
              replaced-same t.audit2_logger,
              replaced-same t.diag_logger,
            )
            refl)
