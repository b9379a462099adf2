-- ===== src/Client/Retry.antt =====
-- internal/client/client.go: a request with its retries. What an attempt meets (the request's body,
-- the context, the rate limiter, the network) is given by a function of the request and the attempt.
pub mod Bounds
pub mod Answers
use syndi.Common.{
  ℕ, zero, suc, ◌+◌, Bool, true, false, ◌&&◌, ◌||◌, List, [], ◌∷◌, ◌++◌, Option, none, some, Text,
  codes, text_eq, is_empty, Result, ok, err, any, ℤ, pos, ltb_ℤ, ◌*ℤ◌, wrap64, ◌==◌, if◌then◌else◌,
}
use syndi.Golang.Numbers.{atoi}
use syndi.Models.{Time}

pub record Client : Type 0 where
  pub user_agent : Text
  pub bearer_token : Text
  pub max_retries : ℕ
  pub base_delay : Time
  pub max_delay : Time

-- `has_get_body` tells whether GetBody is set; an absent header is the empty text.
pub record Request : Type 0 where
  pub method : Text
  pub url : Text
  pub header : Text → Text
  pub has_get_body : Bool

-- What client.Do returns. `read n` reads the body as far as `n` bytes.
pub record Response : Type 0 where
  pub status_code : ℕ
  pub status : Text
  pub retry_after : Text
  pub read : ℕ → Result Text

-- What an attempt meets: the errors of GetBody, of a context that is done before the delay is over,
-- and of the limiter, and what client.Do returns.
pub record Attempt : Type 0 where
  pub reset_error : Option Text
  pub cancelled : Option Text
  pub limiter_error : Option Text
  pub reply : Result Response

abbrev pub set_default : Text → Text → (Text → Text) → Text → Text
set_default key value header k = if is_empty (header key) && text_eq k key then value else header k

unfoldable pub set_default_headers : Client → (Text → Text) → Text → Text
set_default_headers c header =
    let h =
      set_default (codes "Accept") (codes "*/*")
        (set_default (codes "User-Agent") c.user_agent header) in
    if is_empty c.bearer_token
    then h
    else set_default (codes "Authorization") (codes "Bearer " ++ c.bearer_token) h

unfoldable pub is_retryable_method : Text → Bool
is_retryable_method method = any (text_eq method) (
    codes "GET"
    ∷ codes "HEAD"
    ∷ codes "OPTIONS"
    ∷ codes "TRACE"
    ∷ codes "PUT"
    ∷ codes "DELETE"
    ∷ [])

unfoldable pub is_request_replayable : Request → Bool
is_request_replayable req =
    if any (text_eq req.method) (codes "GET" ∷ codes "HEAD" ∷ codes "OPTIONS" ∷ codes "TRACE" ∷ [])
    then true
    else req.has_get_body

unfoldable pub should_retry_status : ℕ → Bool
should_retry_status status_code =
    any (λ s. status_code == s) (408 ∷ 425 ∷ 429 ∷ 500 ∷ 502 ∷ 503 ∷ 504 ∷ [])

abbrev pub min_duration : Time → Time → Time
min_duration a b = if ltb_ℤ a b then a else b

abbrev pub max_response_body_bytes : ℕ
max_response_body_bytes = 33_554_432

-- The delay that a Retry-After header asks for, else the one before.
abbrev pub retry_after_delay : Option ℤ → Time → Time
retry_after_delay none delay = delay
retry_after_delay (some seconds) delay =
    if ltb_ℤ (pos 0) seconds then wrap64 (seconds *ℤ pos 1_000_000_000) else delay

abbrev pub fetch_error : Text → Text → Text
fetch_error url why = codes "failed to fetch " ++ (url ++ (codes ": " ++ why))

abbrev pub status_error : Text → Response → Text
status_error url resp = elim (resp.read 1_048_576) [
  | err e ↦ fetch_error url (codes "status " ++ resp.status)
  | ok body ↦
      if is_empty body
      then fetch_error url (codes "status " ++ resp.status)
      else fetch_error url (codes "status " ++ (resp.status ++ (codes ", response: " ++ body)))
]

-- What the loop does after a reply: end, or go on with an error and a delay that is to be doubled.
pub data Verdict : Type 0 where
  stop : Result Text → Verdict
  retry : Text → Time → Verdict

abbrev pub read_verdict : Time → Result Text → Verdict
read_verdict delay (ok body) = stop (ok body)
read_verdict delay (err e) = retry (codes "failed to read response body: " ++ e) delay

unfoldable pub verdict : Text → Time → Result Response → Verdict
verdict url delay (err e) = retry (fetch_error url e) delay
verdict url delay (ok resp) =
    if resp.status_code == 429 || resp.status_code == 503
    then (let e = fetch_error url (codes "status " ++ (resp.status ++ codes " (rate limited)")) in
        if should_retry_status resp.status_code
        then retry e (retry_after_delay (atoi resp.retry_after) delay)
        else stop (err e))
    else if resp.status_code == 200
    then read_verdict delay (resp.read max_response_body_bytes)
    else if should_retry_status resp.status_code
    then retry (status_error url resp) delay
    else stop (err (status_error url resp))

abbrev pub or_else : Option Text → Option Text → Option Text
or_else none other = other
or_else (some e) other = some e

-- The error that ends an attempt before its request is sent.
unfoldable pub refused : Request → ℕ → Attempt → Option Text
refused req zero a = or_else (if req.has_get_body then a.reset_error else none) a.limiter_error
refused req (suc i) a =
    or_else (if req.has_get_body then a.reset_error else none) (or_else a.cancelled a.limiter_error)

-- The result of a call, the delays that it waited before the requests it sent, and their number.
pub record Run : Type 0 where
  pub result : Result Text
  pub waits : List Time
  pub sent : ℕ

abbrev pub waited : ℕ → Time → List Time
waited zero delay = []
waited (suc i) delay = delay ∷ []

-- The last error; without one the code returns no body and no error.
abbrev pub last_result : Option Text → Result Text
last_result none = ok []
last_result (some e) = err e

abbrev pub max_attempts : Client → Request → ℕ
max_attempts c req =
    if is_retryable_method req.method && is_request_replayable req then c.max_retries + 1 else 1

module _ (world : Request → ℕ → Attempt) (c : Client) where
  -- The loop with `n` attempts left, at attempt `i`.
  unfoldable pub attempt_loop : Request → ℕ → ℕ → Time → Option Text → Run
  attempt_loop req zero i delay last = record { result = last_result last; waits = []; sent = 0 }
  attempt_loop req (suc n) i delay last = elim (refused req i (world req i)) [
    | some e ↦ record { result = err e; waits = []; sent = 0 }
    | none ↦ elim (verdict req.url delay (world req i).reply) [
      | stop r ↦ record { result = r; waits = waited i delay; sent = 1 }
      | retry e d ↦
          let rest =
            attempt_loop req n (suc i) (min_duration (wrap64 (d *ℤ pos 2)) c.max_delay) (some e) in
          record {
            result = rest.result;
            waits = waited i delay ++ rest.waits;
            sent = suc rest.sent;
          }
    ]
  ]

  unfoldable pub do_request_with_retry : Request → Run
  do_request_with_retry r =
      let req = record r { header = set_default_headers c r.header } in
      attempt_loop req (max_attempts c req) 0 c.base_delay none
