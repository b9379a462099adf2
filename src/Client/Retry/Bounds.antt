-- ===== src/Client/Retry/Bounds.antt =====
-- The bounds of the retries of internal/client/client.go: how many requests are sent, and how long
-- is waited between them.
use syndi.Common.{
  ℕ, zero, suc, ◌+◌, ◌≤◌, ◌≡◌, refl, false, ◌&&◌, Option, none, some, Text, Result, arith, pos,
  ◌≤ℤ◌, ◌*ℤ◌, wrap64, All, All-append, Option-cases, inl, inr, ◌⊎◌,
}
use syndi.Models.{Time}
use syndi.Client.Retry.{
  Client, Request, Attempt, Verdict, stop, retry, verdict, refused, waited, max_attempts,
  min_duration, attempt_loop, do_request_with_retry, is_retryable_method, is_request_replayable,
  set_default_headers,
}

pub Verdict-cases :
    (v : Verdict) → ((r : Result Text) × (v ≡ stop r)) ⊎ ((e : Text) × (d : Time) × (v ≡ retry e d))
Verdict-cases (stop r) = inl (r, refl)
Verdict-cases (retry e d) = inr (e, d, refl)

module _ (world : Request → ℕ → Attempt) (c : Client) where
  attempt_loop-sent :
      (req : Request) (n i : ℕ) (delay : Time) (last : Option Text)
      → (attempt_loop world c req n i delay last).sent ≤ n
  unfolding attempt_loop
  attempt_loop-sent req zero i delay last = omega arith
  attempt_loop-sent req (suc n) i delay last = elim (Option-cases (refused req i (world req i))) [
    | inr (e, failed) ↦ rw (failed, attempt_loop) (omega arith)
    | inl free ↦ elim (Verdict-cases (verdict req.url delay (world req i).reply)) [
      | inl (r, ends) ↦ rw (free, ends, attempt_loop) (omega arith)
      | inr (e, d, again) ↦
          rw (free, again, attempt_loop)
            (omega (
              arith,
              attempt_loop-sent req n (suc i) (min_duration (wrap64 (d *ℤ pos 2)) c.max_delay)
                  (some e),
            ))
    ]
  ]

  min_duration_le : (a b : Time) → min_duration a b ≤ℤ b
  min_duration_le a b = ground arith

  waited-le :
      (i : ℕ) (delay : Time)
      → (1 ≤ i → delay ≤ℤ c.max_delay)
      → All (λ d. d ≤ℤ c.max_delay) (waited i delay)
  waited-le zero delay h = tt
  waited-le (suc i) delay h = (h (omega arith), tt)

  attempt_loop-waits :
      (req : Request) (n i : ℕ) (delay : Time) (last : Option Text)
      → (1 ≤ i → delay ≤ℤ c.max_delay)
      → All (λ d. d ≤ℤ c.max_delay) (attempt_loop world c req n i delay last).waits
  unfolding attempt_loop
  attempt_loop-waits req zero i delay last h = tt
  attempt_loop-waits req (suc n) i delay last h =
      elim (Option-cases (refused req i (world req i))) [
        | inr (e, failed) ↦ rw (failed, attempt_loop) tt
        | inl free ↦ elim (Verdict-cases (verdict req.url delay (world req i).reply)) [
          | inl (r, ends) ↦ rw (free, ends, attempt_loop) (waited-le i delay h)
          | inr (e, d, again) ↦
              rw (free, again, attempt_loop)
                (All-append _ (waited i delay) _ (waited-le i delay h) (
                  attempt_loop-waits req n (suc i) (min_duration (wrap64 (d *ℤ pos 2)) c.max_delay)
                    (some e) (λ _. min_duration_le (wrap64 (d *ℤ pos 2)) c.max_delay)))
        ]
      ]

  -- A call sends `max_retries` requests and one more at most, a single one where the method is not
  -- retryable or the request cannot be replayed, and never waits longer than the greatest delay.
  pub do_request_with_retry-bounds :
      (req : Request)
      → ((do_request_with_retry world c req).sent ≤ c.max_retries + 1)
        × (is_retryable_method req.method && is_request_replayable req ≡ false
            → (do_request_with_retry world c req).sent ≤ 1)
        × All (λ d. d ≤ℤ c.max_delay) (do_request_with_retry world c req).waits
  unfolding do_request_with_retry is_request_replayable
  do_request_with_retry-bounds r =
      let req = record r { header = set_default_headers c r.header } in
      let few = attempt_loop-sent req (max_attempts c req) 0 c.base_delay none in
      (
        ground (arith, few),
        λ once. ground (arith, few, once),
        attempt_loop-waits req (max_attempts c req) 0 c.base_delay none (λ h. absurd (omega arith)),
      )
