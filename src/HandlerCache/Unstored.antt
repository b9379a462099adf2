-- ===== src/HandlerCache/Unstored.antt =====
-- When the cached wrapper (internal/handlercache/handler.go) of a route stores nothing, and what it
-- answers where the handler returned no feed.
use syndi.Common.{
  ℕ, ◌≤◌, ◌≡◌, refl, ◌⊎◌, true, false, List, Option, none, some, Text, codes, text_eq_iff, arith,
}
use syndi.Models.{Item, Time}
use syndi.Cache.Store.{Store}
use syndi.HandlerCache.{
  Request, Value, Outcome, feed, nil, failed, Encoders, error, panicked, route_options,
  route_should_cache, default_should_cache, default_key_generator, should_bypass_path,
  after_handler, found_feed, cached,
}

abbrev pub or_500 : Option ℕ → ℕ
or_500 none = 500
or_500 (some c) = c

-- The cases in which nothing may be stored.
abbrev pub IsUncacheable : Request → Option ℕ → Outcome → Type 0
IsUncacheable r code o =
    (r.header (codes "X-Cache-Bypass") ≡ codes "true")
    ⊎ (should_bypass_path r.path ≡ true)
    ⊎ ((c : ℕ) × (code ≡ some c) × (400 ≤ c))

uncacheable :
    (r : Request) (code : Option ℕ) (o : Outcome)
    → IsUncacheable r code o
    → route_should_cache r code o ≡ false
unfolding route_should_cache default_should_cache
uncacheable r none o h =
    ground (arith, h, text_eq_iff (r.header (codes "X-Cache-Bypass")) (codes "true"))
uncacheable r (some c) o h =
    ground (arith, h, text_eq_iff (r.header (codes "X-Cache-Bypass")) (codes "true"))

module _ (process : Time → (Text → Text) → List Item → List Item) (encode : Encoders)
    (digest : Text → Text) {O : Type 0} (store : Store (Value O)) (ttl : Time)
    (handler : Request → store.State → (Option ℕ × Outcome) × store.State) where
  module _ (now later : Time) (r : Request) (s after : store.State) (code : Option ℕ) where
    -- On a miss, a handler that failed is answered with its error and with the code that it left in
    -- the context, or 500; one that returned the nil feed makes the wrapper panic. Nothing is stored.
    pub serve_without_feed :
        found_feed (store.get now (default_key_generator r) s).0 ≡ none
        → ((e : Text)
            → handler r (store.get now (default_key_generator r) s).1 ≡ ((code, failed e), after)
            → cached process encode digest store (route_options ttl) now later handler r s
              ≡ (error (or_500 code) e, after))
          × (handler r (store.get now (default_key_generator r) s).1 ≡ ((code, nil), after)
              → cached process encode digest store (route_options ttl) now later handler r s
                ≡ (panicked, after))
    unfolding cached after_handler route_should_cache default_should_cache
    serve_without_feed miss = (λ e h. ground (arith, miss, h), λ h. ground (arith, miss, h))

    after_handler-unstored :
        (o : Outcome)
        → route_should_cache r code o ≡ false
        → (after_handler process encode digest store (route_options ttl) later r code o after).1
          ≡ after
    unfolding after_handler
    after_handler-unstored (feed f) h = ground (arith, h)
    after_handler-unstored nil h = ground (arith, h)
    after_handler-unstored (failed e) h = refl

    -- A request that asks to bypass the cache, a path that is not cached and a handler that left an
    -- error code of 400 or more store nothing: the cache is as the lookup, or the handler, left it.
    pub serve_uncacheable :
        (o : Outcome)
        → found_feed (store.get now (default_key_generator r) s).0 ≡ none
        → handler r (store.get now (default_key_generator r) s).1 ≡ ((code, o), after)
        → IsUncacheable r code o
        → (cached process encode digest store (route_options ttl) now later handler r s).1 ≡ after
    unfolding cached
    serve_uncacheable o miss h c =
        ground (arith, miss, h, after_handler-unstored o (uncacheable r code o c))
