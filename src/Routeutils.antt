-- ===== src/Routeutils.antt =====
-- internal/routeutils: the helpers from which routes are written.
pub mod Authors
pub mod Caching
pub mod Content
pub mod Filter
pub mod Items
pub mod Params
pub mod Routes
pub mod Urls
