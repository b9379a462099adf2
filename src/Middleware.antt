-- ===== src/Middleware.antt =====
-- internal/middleware: the query parameters of a feed, and the middleware of every request.
pub mod AccessKey
pub mod Parameter
pub mod RequestLog
pub mod Stack
