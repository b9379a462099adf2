-- ===== src/Client/Retry/Answers.antt =====
-- Which body a call of internal/client/client.go returns: that of its first answer with status 200,
-- if every attempt before it met a fault that passes.
use mathlib.Core.Path.{subst}
use syndi.Common.{
  ◌||◌, ℕ, zero, suc, ◌+◌, ◌≤◌, ◌<◌, ◌≡◌, refl, ◌∙◌, ap, Bool, true, false, Option, none, some,
  Text, Result, ok, err, arith, pos, ◌*ℤ◌, wrap64, ◌==◌, Option-cases, Bool-cases, inl, inr, ◌⊎◌,
  if◌then◌else◌,
}
use syndi.Models.{Time}
use syndi.Client.Retry.{
  Client, Request, Response, Attempt, stop, retry, verdict, read_verdict, refused, max_attempts,
  min_duration, attempt_loop, do_request_with_retry, set_default_headers, should_retry_status,
  max_response_body_bytes, is_request_replayable,
}
use syndi.Client.Retry.Bounds.{Verdict-cases}

-- A body that cannot be read.
abbrev is_unread : Result Text → Bool
is_unread (ok body) = false
is_unread (err e) = true

-- The statuses of a fault that passes.
abbrev pub is_passing : ℕ → Bool
is_passing s = s == 408 || s == 425 || s == 429 || s == 500 || s == 502 || s == 503 || s == 504

-- The reply is a fault that passes: no response, a body that cannot be read, or such a status.
abbrev pub is_transient : Result Response → Bool
is_transient (err e) = true
is_transient (ok resp) =
    if resp.status_code == 200
    then is_unread (resp.read max_response_body_bytes)
    else is_passing resp.status_code

-- The reply is a response with status 200 and this body.
abbrev pub Delivers : Result Response → Text → Type 0
Delivers reply body =
    (resp : Response) × (reply ≡ ok resp)
    × (resp.status_code ≡ 200)
    × (resp.read max_response_body_bytes ≡ ok body)

read_stops :
    (delay : Time) (r : Result Text) (b : Text) → read_verdict delay r ≡ stop (ok b) → r ≡ ok b
read_stops delay (ok body) b h = ground arith
read_stops delay (err e) b h = absurd (cc)

read_retries :
    (delay d : Time) (r : Result Text) (e : Text)
    → read_verdict delay r ≡ retry e d
    → is_unread r ≡ true
read_retries delay d (ok body) e h = absurd (cc)
read_retries delay d (err e') e h = refl

verdict-stop :
    (url : Text) (delay : Time) (reply : Result Response) (b : Text)
    → verdict url delay reply ≡ stop (ok b)
    → Delivers reply b
unfolding verdict should_retry_status
verdict-stop url delay (err e) b h = absurd (cc)
verdict-stop url delay (ok resp) b h = elim (Bool-cases (resp.status_code == 200)) [
  | inl fine ↦
      let at : resp.status_code ≡ 200 = ground (arith, fine) in
      (
        resp,
        refl,
        at,
        read_stops delay (resp.read max_response_body_bytes) b (ground (arith, h, fine, at)),
      )
  | inr other ↦ absurd (ground (arith, h, other))
]

verdict-retry :
    (url : Text) (delay d : Time) (reply : Result Response) (e : Text)
    → verdict url delay reply ≡ retry e d
    → is_transient reply ≡ true
unfolding verdict should_retry_status
verdict-retry url delay d (err e') e h = refl
verdict-retry url delay d (ok resp) e h = elim (Bool-cases (resp.status_code == 200)) [
  | inl fine ↦
      let at : resp.status_code ≡ 200 = ground (arith, fine) in
      rw fine
        (read_retries delay d (resp.read max_response_body_bytes) e (ground (arith, h, fine, at)))
  | inr other ↦ ground (arith, h, other)
]

module _ (world : Request → ℕ → Attempt) (c : Client) where
  -- Attempt `k` of those from `i` on, `n` in all, delivers the body after transient faults only.
  abbrev pub IsAnswered : Request → ℕ → ℕ → Text → Type 0
  IsAnswered req i n body =
      (k : ℕ) × (i ≤ k)
      × (k < i + n)
      × (refused req k (world req k) ≡ none)
      × Delivers (world req k).reply body
      × ((j : ℕ)
          → i ≤ j
          → j < k
          → (refused req j (world req j) ≡ none) × (is_transient (world req j).reply ≡ true))

  -- Attempt `j` sends its request and meets a transient fault.
  abbrev Passes : Request → ℕ → Type 0
  Passes req j = (refused req j (world req j) ≡ none) × (is_transient (world req j).reply ≡ true)

  IsAnswered-later :
      (req : Request) (i n : ℕ) (body : Text)
      → Passes req i
      → IsAnswered req (suc i) n body
      → IsAnswered req i (suc n) body
  IsAnswered-later req i n body passes (k, from, to, sent, found, before) = (
    k,
    omega arith,
    omega arith,
    sent,
    found,
    λ j h g. elim (Bool-cases (i == j)) [
      | inl same ↦ let e : i ≡ j = ground (arith, same) in subst (Passes req) e passes
      | inr other ↦ before j (ground (arith, other)) g
    ],
  )

  attempt_loop-IsAnswered :
      (req : Request) (n i : ℕ) (delay : Time) (last : Option Text) (body : Text)
      → (attempt_loop world c req n i delay last).result ≡ ok body
      → ((n ≡ 0) × (last ≡ none)) ⊎ IsAnswered req i n body
  unfolding attempt_loop
  attempt_loop-IsAnswered req zero i delay none body h = inl (refl, refl)
  attempt_loop-IsAnswered req zero i delay (some e) body h = absurd (cc)
  attempt_loop-IsAnswered req (suc n) i delay last body h =
      inr (elim (Option-cases (refused req i (world req i))) [
        | inr (e, failed) ↦ absurd (ground (arith, h, failed))
        | inl free ↦ elim (Verdict-cases (verdict req.url delay (world req i).reply)) [
          | inl (r, ends) ↦
              let done : r ≡ ok body = ground (arith, h, free, ends) in
              (
                i,
                omega arith,
                omega arith,
                free,
                verdict-stop req.url delay (world req i).reply body (ends ∙ ap stop done),
                λ j from to. absurd (omega arith),
              )
          | inr (e, d, again) ↦
              let next = min_duration (wrap64 (d *ℤ pos 2)) c.max_delay in
              let rest : (attempt_loop world c req n (suc i) next (some e)).result ≡ ok body =
                ground (arith, h, free, again) in
              let passes : Passes req i =
                (free, verdict-retry req.url delay d (world req i).reply e again) in
              elim (attempt_loop-IsAnswered req n (suc i) next (some e) body rest) [
                | inl (_, absent) ↦ absurd (cc)
                | inr found ↦ IsAnswered-later req i n body passes found
              ]
        ]
      ])

  -- A call that returns a body returns that of an answer with status 200, among its first
  -- `max_attempts` attempts, all of which before it met faults that pass.
  pub do_request_with_retry-IsAnswered :
      (r : Request) (body : Text)
      → (do_request_with_retry world c r).result ≡ ok body
      → IsAnswered (record r { header = set_default_headers c r.header }) 0 (max_attempts c r) body
  unfolding do_request_with_retry is_request_replayable
  do_request_with_retry-IsAnswered r body h =
      elim (attempt_loop-IsAnswered (record r { header = set_default_headers c r.header })
        (max_attempts c r) 0 c.base_delay none body h) [
          | inl (never, _) ↦ absurd (ground (arith, never))
          | inr found ↦ found
        ]

  verdict-Delivers :
      (url : Text) (delay : Time) (reply : Result Response) (body : Text)
      → Delivers reply body
      → verdict url delay reply ≡ stop (ok body)
  unfolding verdict
  verdict-Delivers url delay reply body (resp, answered, fine, readable) =
      ground (arith, answered, fine, readable)

  read_final :
      (delay : Time) (r a : Result Text) → read_verdict delay r ≡ stop a → is_unread r ≡ false
  read_final delay (ok body) a h = refl
  read_final delay (err e) a h = absurd (cc)

  verdict-final :
      (url : Text) (delay : Time) (reply : Result Response) (a : Result Text)
      → verdict url delay reply ≡ stop a
      → is_transient reply ≡ false
  unfolding verdict should_retry_status
  verdict-final url delay (err e) a h = absurd (cc)
  verdict-final url delay (ok resp) a h = elim (Bool-cases (resp.status_code == 200)) [
    | inl fine ↦
        let at : resp.status_code ≡ 200 = ground (arith, fine) in
        rw fine
          (read_final delay (resp.read max_response_body_bytes) a (ground (arith, h, fine, at)))
    | inr other ↦ ground (arith, h, other)
  ]

  attempt_loop-answered :
      (req : Request) (n i : ℕ) (delay : Time) (last : Option Text) (body : Text) (k : ℕ)
      → k < n
      → refused req (i + k) (world req (i + k)) ≡ none
      → Delivers (world req (i + k)).reply body
      → ((j : ℕ) → i ≤ j → j < i + k → Passes req j)
      → (attempt_loop world c req n i delay last).result ≡ ok body
  unfolding attempt_loop
  attempt_loop-answered req zero i delay last body k h sent found before = absurd (omega arith)
  attempt_loop-answered req (suc n) i delay last body zero h sent found before =
      let here : i + 0 ≡ i = omega arith in
      let free : refused req i (world req i) ≡ none =
        subst (λ j. refused req j (world req j) ≡ none) here sent in
      let ends =
        verdict-Delivers req.url delay (world req i).reply body
          (subst (λ j. Delivers (world req j).reply body) here found) in
      rw (free, ends, attempt_loop)
  attempt_loop-answered req (suc n) i delay last body (suc k) h sent found before =
      let there : i + suc k ≡ suc i + k = omega arith in
      let (free, fault) = before i (omega arith) (omega arith) in
      elim (Verdict-cases (verdict req.url delay (world req i).reply)) [
        | inl (r, ends) ↦
            let final = verdict-final req.url delay (world req i).reply r ends in absurd (cc)
        | inr (e, d, again) ↦
            rw (free, again, attempt_loop)
              (attempt_loop-answered req n (suc i) (min_duration (wrap64 (d *ℤ pos 2)) c.max_delay)
                (some e) body k (omega arith)
                (subst (λ j. refused req j (world req j) ≡ none) there sent)
                (subst (λ j. Delivers (world req j).reply body) there found)
                (λ j from to. before j (omega arith) (omega arith)))
      ]

  -- A call whose attempt `k`, of the `max_attempts` allowed, is answered with status 200 and a
  -- readable body, after faults that pass only, returns that body.
  pub do_request_with_retry-answered :
      (r : Request) (body : Text)
      → IsAnswered (record r { header = set_default_headers c r.header }) 0 (max_attempts c r) body
      → (do_request_with_retry world c r).result ≡ ok body
  unfolding do_request_with_retry is_request_replayable
  do_request_with_retry-answered r body (k, from, to, sent, found, before) =
      let req = record r { header = set_default_headers c r.header } in
      let there : k ≡ 0 + k = omega arith in
      let inside : k < max_attempts c r = omega arith in
      attempt_loop-answered req (max_attempts c r) 0 c.base_delay none body k inside
        (subst (λ j. refused req j (world req j) ≡ none) there sent)
        (subst (λ j. Delivers (world req j).reply body) there found)
        (λ j h g. before j h (omega arith))
