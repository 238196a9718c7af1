-- ===== src/Handler.antt =====
-- The HTTP layer: middleware/ and handler/routes.go.
pub mod Http
pub mod Logging
pub mod Routes
pub mod Jobs
pub mod Users
