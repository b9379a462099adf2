-- ===== src/Middleware/RequestLog.antt =====
-- internal/middleware/logger.go: what is logged of a request. The reading and the writing of queries by
-- package net/url are parameters, as is the text of a duration.
pub mod Redacted
use syndi.Common.{
  ℕ, Bool, true, false, ◌||◌, List, [], ◌∷◌, ◌++◌, map, any, Option, none, some, Text, codes,
  is_empty, text_eq, Result, ok, err, ℤ, pos, leb, if◌then◌else◌,
}
use syndi.Golang.Strings.{to_lower, contains}
use syndi.Routeutils.Urls.{Values}
use syndi.Logger.Kdl
use syndi.Logger.Kdl.{Field, string, int}

abbrev pub sensitive_keys : List Text
sensitive_keys =
    codes "key" ∷ codes "access_key" ∷ codes "apikey" ∷ codes "api_key" ∷ codes "accesskey" ∷ []

abbrev pub sensitive_fragments : List Text
sensitive_fragments =
    codes "token"
    ∷ codes "secret"
    ∷ codes "password"
    ∷ codes "passwd"
    ∷ codes "cookie"
    ∷ codes "credential"
    ∷ []

unfoldable pub is_sensitive_param : Text → Bool
is_sensitive_param key =
    if any (text_eq (to_lower key)) sensitive_keys
    then true
    else any (contains (to_lower key)) sensitive_fragments

abbrev pub redacted : Text
redacted = codes "[REDACTED]"

abbrev pub redact_values : Text → List Text → List Text
redact_values k vs = if is_sensitive_param k then map (λ v. redacted) vs else vs

-- The loop over the map of values: the map as it leaves it, and its flag.
unfoldable pub redact_map : Values → Values
redact_map [] = []
redact_map ((k, vs) ∷ vals) = (k, redact_values k vs) ∷ redact_map vals

unfoldable pub has_sensitive : Values → Bool
has_sensitive [] = false
has_sensitive ((k, vs) ∷ vals) = is_sensitive_param k || has_sensitive vals

-- A request and its answer as the logger sees them.
pub record Completed : Type 0 where
  pub method : Text
  pub path : Text
  pub raw_query : Text
  pub status : ℕ
  pub duration : Text
  pub client_ip : Text
  pub user_agent : Text
  pub errors : Option Text

abbrev pub text_field : Text → Text → Field
text_field key s = record { key = key; value = string s }

abbrev pub field_unless_empty : Text → Text → Text → List Field
field_unless_empty key s logged = if is_empty s then [] else text_field key logged ∷ []

abbrev pub error_fields : Option Text → List Field
error_fields none = []
error_fields (some errors) = text_field (codes "errors") errors ∷ []

module _ (parse_query : Text → Result Values) (encode : Values → Text) where
  unfoldable pub redact_query : Text → Text
  redact_query raw = elim (parse_query raw) [
    | err message ↦ raw
    | ok vals ↦ if has_sensitive vals then encode (redact_map vals) else raw
  ]

  unfoldable pub log_fields : Completed → List Field
  log_fields r =
      text_field (codes "method") r.method
        ∷ text_field (codes "path") r.path
        ∷ record { key = codes "status"; value = int (pos r.status) }
        ∷ text_field (codes "duration") r.duration
        ∷ text_field (codes "ip") r.client_ip
        ∷ field_unless_empty (codes "query") r.raw_query (redact_query r.raw_query)
      ++ (field_unless_empty (codes "user-agent") r.user_agent r.user_agent
          ++ error_fields r.errors)

-- The level and the message of the log entry.
unfoldable pub log_level : ℕ → Text × Text
log_level status =
    if leb 500 status
    then (codes "error", codes "Request completed with server error")
    else if leb 400 status
    then (codes "warn", codes "Request completed with client error")
    else if leb 300 status
    then (codes "debug", codes "Request redirected")
    else (codes "info", codes "Request completed")
