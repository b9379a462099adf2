-- ===== src/Routeutils/Content.antt =====
-- internal/routeutils/content.go: the cleaning of descriptions.
pub mod Whitespace
pub mod Sanitize
pub mod Truncate
pub mod Pipeline
