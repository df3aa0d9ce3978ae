-- ===== src/Client.antt =====
-- The client of the root package: its lifecycle (lifecycle.go, reliability.go), and the registration
-- of its service (registration.go, endpoint.go).
pub mod Lifecycle
pub mod Failures
pub mod Endpoints
pub mod Building
pub mod Checks
pub mod Definition
pub mod Registering
pub mod Upkeep
pub mod Serving
