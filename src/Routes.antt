-- ===== src/Routes.antt =====
-- The routers and routes of the server: witchcraft/server_routes.go and status/routes/routes.go.
-- What a router of wrouter does with a registration is a parameter: whether it succeeds.
pub mod Secret
pub mod Registration
pub mod Handling
pub mod Heap
pub mod Middleware
mod Tests
