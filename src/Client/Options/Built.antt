-- ===== src/Client/Options/Built.antt =====
-- What the options of internal/client/client.go make of a client.
use syndi.Common.{
  ℕ, Bool, true, false, ◌||◌, Option, none, some, List, [], ◌∷◌, Text, Result, ℤ, pos, ◌<ℤ◌, any,
  arith, ◌≡◌, refl, ◌∙◌, sym, ◌↔◌, text_eq, text_eq→≡, inl, inr, Bool-cases,
}
use syndi.Common.Maps.{lookup, lookup-insert}
use syndi.Client.Options.{
  Settings, ClientOption, HttpClient, RateLimiter, Float, Url, direct, with_no_proxy,
  with_retry_config, with_max_redirects, initial, if_positive, apply, apply_all, new_client,
  proxy_of, clear_cookies, get_rate_limiter, found_or_new, ten,
}

-- The bounds of the retries and redirects are positive.
abbrev pub IsUsable : Settings → Type 0
IsUsable c =
    (pos 0 <ℤ c.max_retries)
    × (pos 0 <ℤ c.base_delay)
    × (pos 0 <ℤ c.max_delay)
    × (pos 0 <ℤ c.max_redirects)

-- The jar of the client is that of its http.Client.
abbrev pub SharesJar : Settings → Type 0
SharesJar c = (h : HttpClient) × (c.client ≡ some h) × (c.cookie_jar ≡ some h.jar)

abbrev pub is_no_proxy : ClientOption → Bool
is_no_proxy with_no_proxy = true
is_no_proxy other = false

if_positive_lem : (new old : ℤ) → pos 0 <ℤ old → pos 0 <ℤ if_positive new old
if_positive_lem new old h = ground (arith, h)

proxy_of-direct : (b : Bool) (u : Option Url) → (proxy_of b u ≡ direct) ↔ (b ≡ true)
proxy_of-direct true u = (λ e. refl, λ e. refl)
proxy_of-direct false none = (λ e. absurd cc, λ e. absurd cc)
proxy_of-direct false (some u) = (λ e. absurd cc, λ e. absurd cc)

module _ (parse_url : Text → Result Url) (truncate : Float → ℤ) where
  apply-IsUsable :
      (o : ClientOption) (c : Settings) → IsUsable c → IsUsable (apply parse_url truncate o c)
  unfolding apply
  apply-IsUsable (with_retry_config retries base max) c (r, b, m, f) = (
    if_positive_lem retries c.max_retries r,
    if_positive_lem base c.base_delay b,
    if_positive_lem max c.max_delay m,
    f,
  )
  apply-IsUsable (with_max_redirects n) c (r, b, m, f) =
      (r, b, m, if_positive_lem n c.max_redirects f)
  apply-IsUsable other c h = h

  apply_all-IsUsable :
      (os : List ClientOption) (c : Settings)
      → IsUsable c
      → IsUsable (apply_all parse_url truncate os c)
  unfolding apply_all
  apply_all-IsUsable [] c h = h
  apply_all-IsUsable (o ∷ os) c h =
      apply_all-IsUsable os (apply parse_url truncate o c) (apply-IsUsable o c h)

  apply-no_proxy :
      (o : ClientOption) (c : Settings)
      → (apply parse_url truncate o c).no_proxy ≡ is_no_proxy o || c.no_proxy
  unfolding apply
  apply-no_proxy with_no_proxy c = refl
  apply-no_proxy other c = refl

  apply_all-no_proxy :
      (os : List ClientOption) (c : Settings)
      → (apply_all parse_url truncate os c).no_proxy ≡ any is_no_proxy os || c.no_proxy
  unfolding apply_all
  apply_all-no_proxy [] c = refl
  apply_all-no_proxy (o ∷ os) c =
      let rest = apply_all-no_proxy os (apply parse_url truncate o c) in
      ground (arith, rest, apply-no_proxy o c)

  -- Whatever the options, in whatever order: the number of retries, the delays and the number of redirects
  -- are positive; the jar that the client names is the one that its requests use; and its requests are sent
  -- directly exactly if an option asked for no proxy.
  pub new_client-IsUsable :
      (fresh : ℕ) (os : List ClientOption)
      → IsUsable (new_client parse_url truncate fresh os)
        × (h : HttpClient) × ((new_client parse_url truncate fresh os).client ≡ some h)
        × ((new_client parse_url truncate fresh os).cookie_jar ≡ some h.jar)
        × ((h.transport_proxy ≡ direct) ↔ (any is_no_proxy os ≡ true))
  unfolding new_client
  new_client-IsUsable fresh os =
      let c = apply_all parse_url truncate os initial in
      let (r, b, m, f) =
        apply_all-IsUsable os initial (omega arith, omega arith, omega arith, omega arith) in
      let flag = apply_all-no_proxy os initial in
      let (if_direct, then_direct) = proxy_of-direct c.no_proxy c.proxy in
      (
        (r, b, m, f),
        _,
        refl,
        refl,
        (λ e. ground (arith, flag, if_direct e), λ e. then_direct (ground (arith, flag, e))),
      )

-- New cookies are used by the requests too.
clear_cookies-SharesJar :
    (fresh : ℕ) (c : Settings) → SharesJar c → SharesJar (clear_cookies fresh c)
unfolding clear_cookies
clear_cookies-SharesJar fresh c (h, e, same) = rw e (record h { jar = fresh }, refl, refl)

abbrev limiter_or_new : Option RateLimiter → RateLimiter
limiter_or_new none = record { rate = ten; capacity = pos 10 }
limiter_or_new (some limiter) = limiter

found_or_new-limiter :
    (o : Option RateLimiter) (host : Text) (c : Settings)
    → (found_or_new o host c).0 ≡ limiter_or_new o
found_or_new-limiter none host c = refl
found_or_new-limiter (some limiter) host c = refl

found_or_new-lookup :
    (o : Option RateLimiter) (host other : Text) (c : Settings)
    → lookup host c.rate_limiters ≡ o
    → limiter_or_new (lookup other (found_or_new o host c).1.rate_limiters)
      ≡ limiter_or_new (lookup other c.rate_limiters)
found_or_new-lookup (some limiter) host other c e = refl
found_or_new-lookup none host other c e = elim (Bool-cases (text_eq host other)) [
  | inl same ↦
      rw
        (
          lookup-insert host other (limiter_or_new none) c.rate_limiters,
          same,
          sym (text_eq→≡ host other same),
          e,
        )
        refl
  | inr differ ↦ rw (lookup-insert host other (limiter_or_new none) c.rate_limiters, differ) refl
]

-- Asking for the limiter of a host changes no host's limiter.
get_rate_limiter_stable :
    (host other : Text) (c : Settings)
    → (get_rate_limiter other (get_rate_limiter host c).1).0 ≡ (get_rate_limiter other c).0
unfolding get_rate_limiter
get_rate_limiter_stable host other c =
    let next = (get_rate_limiter host c).1 in
    found_or_new-limiter (lookup other next.rate_limiters) other next
    ∙ found_or_new-lookup (lookup host c.rate_limiters) host other c refl
    ∙ sym (found_or_new-limiter (lookup other c.rate_limiters) other c)
