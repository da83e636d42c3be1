-- ===== src/Diagnostics.antt =====
-- The diagnostics endpoint: witchcraft/internal/wdebug, witchcraft/wdebug/api.go, and the option of
-- witchcraft/witchcraft.go that adds handlers. What a profile of the Go runtime holds is a
-- parameter: whether writing it succeeds.
pub mod Types
pub mod Handlers
pub mod Resource
pub mod Custom
mod Tests
