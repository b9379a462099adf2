-- ===== src/Routeutils/Urls/Links/Cleaned.antt =====
-- What CleanURL of internal/routeutils/link.go leaves of a query.
use syndi.Common.Maps
