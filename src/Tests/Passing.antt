-- ===== src/Tests/Passing.antt =====
-- Requests through the stack of cmd/server.go.
use syndi.Common.{◌≡◌, refl, ℕ, List, [], ◌∷◌, none, Text, codes, ok, pos, text_eq}
use syndi.Middleware.AccessKey.{access_key}
use syndi.Middleware.RequestLog.{log_level}
use syndi.Middleware.Stack.{
  Request, Gin, Outcome, returned, panicked, recovery, logger, access_gate, header, with_middleware,
}
use syndi.Middleware.Stack.Passed.{Served, with_middleware-Served}

-- A context is a status and the calls that were made of it, the last one first.
abbrev Calls : Type 0
Calls = ℕ × List Text

abbrev called : Text → Calls → Calls
called name c = (c.0, name ∷ c.1)

abbrev with_status : ℕ → Calls → Calls
with_status code c = (code, c.1)

abbrev recorder : Gin Calls
recorder = record {
  set = λ key value c. called key c;
  header = λ key value c. called key c;
  abort_with_status = λ code c. with_status code c;
  abort_with_error = λ code message c. with_status code (called message c);
  json_error = λ code message c. with_status code (called message c);
  log = λ level message fields c. called message c;
  status = λ c. c.0;
  elapsed = λ c. codes "1ms";
  errors = λ c. none;
  now = λ c. codes "now";
  stack_trace = codes "main.go:1";
  max_age = λ ttl. codes "1";
  parse_query = λ raw. ok [];
  encode = λ vals. [];
}

abbrev request : Text → Text → Request
request method query_key = record {
  method = method;
  path = codes "/rss";
  raw_query = [];
  query_key = query_key;
  header_key = [];
  if_none_match = [];
  client_ip = codes "::1";
  user_agent = [];
}

abbrev failing : Calls → Outcome Calls
failing c = panicked (codes "nil map") c

-- A preflight, which has no key, is answered 401 without a header of CORS.
preflight_test :
    with_middleware recorder (request (codes "OPTIONS") []) (codes "k") (pos 1) [] failing (200, [])
    ≡ returned (
      401,
      codes "Request completed with client error"
          ∷ codes "invalid or missing access key"
          ∷ codes "_gin_rsshub_start_time"
          ∷ [],
    )
unfolding with_middleware recovery logger access_gate access_key log_level text_eq
preflight_test = refl

-- A handler that panics.
panic_test :
    with_middleware recorder
      (request (codes "GET") (codes "k"))
      (codes "k")
      (pos 1)
      []
      failing
      (200, [])
    ≡ returned (
      500,
      codes "Internal Server Error"
          ∷ codes "_gin_rsshub_recovery"
          ∷ codes "Request panic recovered"
          ∷ codes "X-RSSHub-Route"
          ∷ codes "Cache-Control"
          ∷ codes "X-Content-Type-Options"
          ∷ codes "Access-Control-Allow-Origin"
          ∷ codes "_gin_rsshub_start_time"
          ∷ [],
    )
unfolding with_middleware recovery logger access_gate access_key header text_eq
panic_test = refl

with_middleware-Served_example :
    (after : Calls) × (with_middleware recorder
        (request (codes "GET") (codes "k"))
        (codes "k")
        (pos 1)
        []
        failing
        (200, [])
      ≡ returned after)
    × Served recorder
        (codes "k")
        (pos 1)
        []
        (request (codes "GET") (codes "k"))
        failing
        (200, [])
        after
with_middleware-Served_example =
    with_middleware-Served recorder (codes "k") (pos 1) [] (request (codes "GET") (codes "k"))
      failing (200, [])
