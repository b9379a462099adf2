-- ===== src/Middleware/RequestLog/Redacted.antt =====
-- The credentials in a query that internal/middleware/logger.go logs.
use syndi.Common.{false, List, Text, All, ◌≡◌, ◌⊎◌}
use syndi.Common.Maps
use syndi.Middleware.RequestLog.{is_sensitive_param, redacted}

-- A key that is not sensitive, or whose values are all masked.
abbrev pub IsMasked : (Text × List Text) → Type 0
IsMasked (k, vs) = (is_sensitive_param k ≡ false) ⊎ All (λ v. v ≡ redacted) vs

abbrev pub IsHarmless : (Text × List Text) → Type 0
IsHarmless (k, vs) = is_sensitive_param k ≡ false
