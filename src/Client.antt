-- ===== src/Client.antt =====
-- internal/client: the HTTP client of the routes.
pub mod Options
pub mod Requests
pub mod Retry
