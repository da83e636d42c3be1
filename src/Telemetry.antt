-- ===== src/Telemetry.antt =====
-- The middleware that observes responses: witchcraft/internal/negroni/response_writer.go, and
-- internal/middleware/route.go and request.go. A request handler is the list of its uses of the
-- response writer, and whether it then panics. wapp.RunWithFatalLogging, which makes an error of a
-- panic, is the place where `recovered` starts; what errors.WriteErrorResponse writes is a
-- parameter.
pub mod Writer
pub mod Middleware
pub mod Context
pub mod Identifiers
pub mod ServerContext
mod Tests
