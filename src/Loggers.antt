-- ===== src/Loggers.antt =====
-- The loggers of the server: witchcraft/loggers.go and witchcraft/internal/metricloggers. What a
-- logger of the logging library formats is a parameter: the line of an entry.
pub mod Output
pub mod Audit
pub mod Initial
pub mod Metered
pub mod Service
pub mod Recorder
pub mod Levels
mod Tests
