-- ===== src/DependencyHealth.antt =====
-- The SERVICE_DEPENDENCY check: witchcraft/internal/dependencyhealth. This file has the hosts'
-- metrics, the registry and the client middleware; the report is in DependencyHealth.Check.
pub mod TimeBucket
pub mod Hosts
pub mod Check
mod Tests
