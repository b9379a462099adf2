-- ===== src/Tests/Fetching.antt =====
-- A GET request of internal/client/client.go that is answered with 503, then with a body.
use syndi.Common.{
  ℕ, ◌<◌, wrap64, ◌*ℤ◌, zero, suc, ◌+◌, ◌≤◌, ◌≡◌, refl, true, false, ◌&&◌, [], ◌∷◌, none, arith,
  codes, text_eq, ok, pos, ◌≤ℤ◌, All,
}
use syndi.Golang.Numbers.{atoi}
use syndi.Client.Retry.{
  Client, Request, Response, Attempt, refused, verdict, attempt_loop, do_request_with_retry,
  max_attempts, set_default_headers, is_retryable_method, is_request_replayable,
  should_retry_status,
}
use syndi.Client.Retry.Bounds.{do_request_with_retry-bounds}
use syndi.Client.Retry.Answers.{
  IsAnswered, is_transient, do_request_with_retry-IsAnswered, do_request_with_retry-answered,
}

abbrev busy : Response
busy = record {
  status_code = 503;
  status = codes "503 busy";
  retry_after = codes "2";
  read = λ n. ok [];
}

abbrev fine : Response
fine = record {
  status_code = 200;
  status = codes "200 OK";
  retry_after = [];
  read = λ n. ok (codes "feed");
}

abbrev reply : ℕ → Response
reply zero = busy
reply (suc i) = fine

abbrev world : Request → ℕ → Attempt
world req i = record {
  reset_error = none;
  cancelled = none;
  limiter_error = none;
  reply = ok (reply i);
}

abbrev client : Client
client = record {
  user_agent = codes "Syndi";
  bearer_token = [];
  max_retries = 3;
  base_delay = pos 1_000_000_000;
  max_delay = pos 30_000_000_000;
}

abbrev request : Request
request = record { method = codes "GET"; url = codes "u"; header = λ k. []; has_get_body = false }

abbrev sent_request : Request
sent_request = record request { header = set_default_headers client request.header }

retry_test :
    do_request_with_retry world client request
    ≡ record { result = ok (codes "feed"); waits = pos 4_000_000_000 ∷ []; sent = 2 }
unfolding do_request_with_retry attempt_loop is_retryable_method text_eq is_request_replayable
    refused verdict should_retry_status wrap64 ◌*ℤ◌ atoi
retry_test = refl

do_request_with_retry-bounds_example :
    ((do_request_with_retry world client request).sent ≤ client.max_retries + 1)
    × (is_retryable_method request.method && is_request_replayable request ≡ false
        → (do_request_with_retry world client request).sent ≤ 1)
    × All (λ d. d ≤ℤ client.max_delay) (do_request_with_retry world client request).waits
do_request_with_retry-bounds_example = do_request_with_retry-bounds world client request

fetched : (do_request_with_retry world client request).result ≡ ok (codes "feed")
unfolding do_request_with_retry attempt_loop is_retryable_method text_eq is_request_replayable
    refused verdict should_retry_status
fetched = refl

do_request_with_retry-IsAnswered_example :
    IsAnswered world client sent_request 0 (max_attempts client request) (codes "feed")
do_request_with_retry-IsAnswered_example =
    do_request_with_retry-IsAnswered world client request (codes "feed") fetched

first_is_busy :
    (j : ℕ)
    → j < 1
    → (refused sent_request j (world sent_request j) ≡ none)
      × (is_transient (world sent_request j).reply ≡ true)
unfolding refused should_retry_status
first_is_busy zero h = (refl, refl)
first_is_busy (suc j) h = absurd (omega arith)

second_answers : IsAnswered world client sent_request 0 (max_attempts client request) (codes "feed")
unfolding refused is_retryable_method is_request_replayable text_eq
second_answers =
    (1, omega arith, omega arith, refl, (fine, refl, refl, refl), λ j h g. first_is_busy j g)

do_request_with_retry-answered_example :
    (do_request_with_retry world client request).result ≡ ok (codes "feed")
do_request_with_retry-answered_example =
    do_request_with_retry-answered world client request (codes "feed") second_answers
