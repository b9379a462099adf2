-- ===== src/Middleware/Stack.antt =====
-- The middleware stack that cmd/server.go applies to every request: internal/middleware/recovery.go,
-- logger.go, access_key.go and header.go, around the handler that gin has found. The context of gin
-- is a parameter.
pub mod Passed
use syndi.Common.{
  ℕ, List, [], ◌∷◌, ◌++◌, Option, Text, codes, is_empty, text_eq, Result, ℤ, pos, ltb_ℤ, ◌||◌, true,
  false, if◌then◌else◌,
}
use syndi.Routeutils.Urls.{Values}
use syndi.Logger.Kdl.{Field, string}
use syndi.Middleware.AccessKey.{access_key, Gate, abort}
use syndi.Middleware.AccessKey
use syndi.Middleware.RequestLog.{Completed, log_fields, log_level, text_field}

-- What a request has, its header fields and parameters empty if absent.
pub record Request : Type 0 where
  pub method : Text
  pub path : Text
  pub raw_query : Text
  pub query_key : Text
  pub header_key : Text
  pub if_none_match : Text
  pub client_ip : Text
  pub user_agent : Text

-- The calls of gin's context, of the logger and of fmt, on the state `C` of a request in progress.
-- `json_error` is JSON with an error and the Abort after it. Abort keeps the handlers left from running.
pub record Gin (C : Type 0) : Type 0 where
  pub set : Text → Text → C → C
  pub header : Text → Text → C → C
  pub abort_with_status : ℕ → C → C
  pub abort_with_error : ℕ → Text → C → C
  pub json_error : ℕ → Text → C → C
  pub log : Text → Text → List Field → C → C
  pub status : C → ℕ
  pub elapsed : C → Text
  pub errors : C → Option Text
  pub now : C → Text
  pub stack_trace : Text
  pub max_age : ℤ → Text
  pub parse_query : Text → Result Values
  pub encode : Values → Text

-- How a handler ends: by its return, or by a panic with a value, whose text it is.
pub data Outcome (C : Type 0) : Type 0 where
  returned : C → Outcome C
  panicked : Text → C → Outcome C

abbrev pub Handler : Type 0 → Type 0
Handler C = C → Outcome C

abbrev pub origin_or_any : Text → Text
origin_or_any allow_origin = if is_empty allow_origin then codes "*" else allow_origin

module _ {C : Type 0} (gin : Gin C) (r : Request) where
  abbrev pub panic_fields : Text → List Field
  panic_fields value =
      text_field (codes "error") value
      ∷ text_field (codes "method") r.method
      ∷ text_field (codes "path") r.path
      ∷ text_field (codes "query") r.raw_query
      ∷ text_field (codes "ip") r.client_ip
      ∷ text_field (codes "user-agent") r.user_agent
      ∷ text_field (codes "stack") gin.stack_trace
      ∷ []

  -- The deferred function, after a panic.
  abbrev pub recovered : Text → C → C
  recovered value c = gin.json_error 500 (codes "Internal Server Error") (
      gin.set (codes "_gin_rsshub_recovery") value
        (gin.log (codes "error") (codes "Request panic recovered") (panic_fields value) c))

  unfoldable pub recovery : Handler C → Handler C
  recovery next c = elim (next c) [
    | returned after ↦ returned after
    | panicked value after ↦ returned (recovered value after)
  ]

  abbrev pub completed : C → Completed
  completed c = record {
    method = r.method;
    path = r.path;
    raw_query = r.raw_query;
    status = gin.status c;
    duration = gin.elapsed c;
    client_ip = r.client_ip;
    user_agent = r.user_agent;
    errors = gin.errors c;
  }

  abbrev pub started : C → C
  started c = gin.set (codes "_gin_rsshub_start_time") (gin.now c) c

  abbrev pub logged : C → C
  logged c =
      gin.log (log_level (gin.status c)).0 (log_level (gin.status c)).1
        (log_fields gin.parse_query gin.encode (completed c)) c

  unfoldable pub logger : Handler C → Handler C
  logger next c = elim (next (started c)) [
    | returned after ↦ returned (logged after)
    | panicked value after ↦ panicked value after
  ]

  unfoldable pub access_gate : Text → Handler C → Handler C
  access_gate key next c = elim (access_key key r.path r.query_key r.header_key) [
    | Gate.next ↦ next c
    | abort message ↦ returned (gin.abort_with_error 401 message c)
  ]

  abbrev pub preflight : Text → C → C
  preflight origin c = gin.abort_with_status 204 (
      gin.header (codes "Access-Control-Max-Age") (codes "86400") (
        gin.header (codes "Access-Control-Allow-Headers") (codes "Content-Type, Authorization") (
          gin.header (codes "Access-Control-Allow-Methods")
            (codes "GET, POST, PUT, DELETE, OPTIONS")
            (gin.header (codes "Access-Control-Allow-Origin") origin c))))

  abbrev pub cache_control : ℤ → Text
  cache_control cache_ttl =
      if ltb_ℤ (pos 0) cache_ttl
      then codes "public, max-age=" ++ gin.max_age cache_ttl
      else codes "no-cache"

  abbrev pub with_route : C → C
  with_route c =
      if is_empty r.path || text_eq r.path (codes "/")
      then c
      else gin.header (codes "X-RSSHub-Route") r.path c

  abbrev pub with_if_none_match : C → C
  with_if_none_match c =
      if is_empty r.if_none_match then c else gin.set (codes "if-none-match") r.if_none_match c

  abbrev pub prepared : ℤ → Text → C → C
  prepared cache_ttl origin c = with_if_none_match (
      with_route (
        gin.header (codes "Cache-Control") (cache_control cache_ttl) (
          gin.header (codes "X-Content-Type-Options") (codes "nosniff")
            (gin.header (codes "Access-Control-Allow-Origin") origin c))))

  unfoldable pub header : ℤ → Text → Handler C → Handler C
  header cache_ttl allow_origin next c =
      let origin = origin_or_any allow_origin in
      elim (text_eq r.method (codes "OPTIONS")) [
        | true ↦ returned (preflight origin c)
        | false ↦ next (prepared cache_ttl origin c)
      ]

  -- The stack around a handler, outermost first.
  unfoldable pub with_middleware : Text → ℤ → Text → Handler C → Handler C
  with_middleware key cache_ttl allow_origin handler =
      recovery (logger (access_gate key (header cache_ttl allow_origin handler)))
