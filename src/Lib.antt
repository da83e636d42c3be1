-- ===== src/Lib.antt =====
-- A model of witchcraft-go-server, a server framework in Go, and what holds of it.
--
-- A server is started with Start, which blocks, and stopped with Shutdown or Close from other
-- goroutines. Start reads the install and the runtime configuration, sets up loggers and metrics,
-- runs the application's initialization and serves requests through two layers of middleware; status
-- endpoints report the health of what runs. The parts, and the files that model them:
--
-- - Lifecycle: witchcraft/server_state.go, and Start, Shutdown, Close and stopServer of
--   witchcraft/witchcraft.go. Every atomic action of a call is a step (start_step, stop_step), and
--   Threads interleaves any number of calls. What a phase of Start calls may succeed or fail: that is
--   a choice of the environment. Owner, SingleRun, Restart, Alone and Named have the
--   proofs, Named the strings of the states too.
-- - Startup: Start again, as one call: its phases in their order, what each of them defers, its
--   errors and its panics, in an action monad (Action) whose deferred functions run at the end.
--   Plan is the list of the phases, Cleanups (what each phase owes) and Reports are about how Start
--   ends, and Health is
--   about the sources of health that are served. What a phase calls is the environment's.
-- - Loggers: witchcraft/loggers.go and witchcraft/internal/metricloggers: where the lines go
--   (Output), the audit loggers with the configuration that turns one of them off (Audit), the
--   service logger with its level (Service) and how the level is read (Levels, which is
--   UnmarshalYAML of config/runtime.go), the wrappers of the others (Metered), their recorder of
--   metrics (Recorder), and what the two initializations build (Initial).
-- - Limiter: witchcraft/ratelimit/middleware.go, one atomic action of a request a step; Runs
--   interleaves requests with changes of the limit; Methods has the two matching functions.
-- - FiveHundreds: witchcraft/internal/middleware/endpoint_five_hundreds.go. The ticker's tick is an
--   event; Ticker has the goroutine of the ticks. The map of endpoints is an association list.
-- - DependencyHealth: witchcraft/internal/dependencyhealth: TimeBucket is counter.go, Hosts is
--   host_metrics.go with the client middleware RoundTrip, Check is the report of healthcheck.go. Times
--   are numbers of nanoseconds, and the readings of the clock are arguments.
-- - Status: status/status.go and the change handlers beside it.
-- - Diagnostics: witchcraft/internal/wdebug and witchcraft/wdebug/api.go: the types and the automaton
--   of their expression, the handlers of the server, the endpoint, and the custom handlers.
-- - Routes: witchcraft/server_routes.go and status/routes/routes.go: the routers and what is
--   registered on them, the secret of the diagnostics over reloads, the status handlers,
--   the handler of heap profiles, and the middleware of the root routers around a request.
-- - Serving: witchcraft/server_run.go: the TLS configuration and the two servers.
-- - Certificates: an interface of the cryptographic libraries with what they document, and over it
--   newSelfSignedCertificate of witchcraft/server_run.go (SelfSigned) and the program of
--   integration/testdata/generator.go that writes the certificates of the integration tests
--   (Generator).
-- - Tracing: the samplers of traces; a sample rate is a fraction m / 2^k, as a float64 is. Options has
--   the options of the two tracers, Requests the spans of a request and of its route.
-- - Telemetry: Writer is witchcraft/internal/negroni/response_writer.go, Middleware the two layers of
--   witchcraft/internal/middleware (route.go and request.go). A request handler is the list of its
--   uses of the
--   writer, and whether it then panics. The route's middleware marks the endpoints of FiveHundreds.
--   Identifiers has what newRequestExtractIDs finds for the context and the loggers, Context the
--   loggers and the tracer of a request over changes of the audit.3 logger, ServerContext those
--   that Start puts on its own context.
-- - Config: the configuration part of witchcraft/witchcraft.go, config/validation.go and
--   witchcraft/internal/refreshable/source.go. Runtime has the function that initRuntimeConfig maps
--   over the bytes and Reloads its life over reloads, against an interface of validated
--   refreshables, and Source the health source over them; Install has initInstallConfig, Secrets
--   the decryption of YAML nodes, with Plain for what a document is without encrypted values, Nodes
--   the whole decryption of the bytes, and Given a configuration that is given as a value, and the key
--   of witchcraft/ecv.go.
-- - Metrics: witchcraft/server_metrics.go. Ticking interleaves the goroutine that emits at each tick
--   with the emission that Start defers.
-- - Discovery: witchcraft/service_discovery.go.
-- - MultiRouter: witchcraft/multirouter.go, over an interface of routers.
-- - Tasks: witchcraft/runnable_manager.go and witchcraft/job_manager.go; Server joins them to the
--   server's shutdown and to its sources of health.
-- - Signals: the signal handlers of witchcraft/witchcraft.go; what comes is a list of events.
--   StackTrace is the handler of SIGQUIT.
-- - Options: the With functions of witchcraft/witchcraft.go; Calls is a sequence of them, Overlap are
--   calls of WithHealth that run at the same time, over the arrays that their slices share.
-- - Example: app_example/main.go.
-- - Health and Base are shared: the health states, and names, lists and tests on numbers.
--
-- No loop needs fuel: each is structural recursion on the list it ranges over, or a step of a
-- relation that may take any number of steps. The windows of FiveHundreds are the source's five.
-- The readings of the atomic counters are unbounded numbers; an int64 does not overflow before 2^63
-- requests are in flight.
--
-- Not modelled: the libraries for logging and tracing, YAML, ciphers, TLS, the routers and the health
-- types of other repositories, which are parameters where they matter, and the
-- registration of signal handlers.
pub mod Base
pub mod Certificates
pub mod Config
pub mod DependencyHealth
pub mod Diagnostics
pub mod Discovery
pub mod Example
pub mod FiveHundreds
pub mod Health
pub mod Lifecycle
pub mod Limiter
pub mod Loggers
pub mod Metrics
pub mod MultiRouter
pub mod Options
pub mod Routes
pub mod Serving
pub mod Signals
pub mod Startup
pub mod Status
pub mod Tasks
pub mod Telemetry
pub mod Tracing
