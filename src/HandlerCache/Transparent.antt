-- ===== src/HandlerCache/Transparent.antt =====
-- The cached wrapper (internal/handlercache/handler.go) answers from the cache as it would have
-- without it.
use mathlib.Core.Path.{subst}
use syndi.Common.{
  ℕ, ◌≡◌, refl, sym, ap, ◌∙◌, Bool, true, false, List, ◌++◌, Option, none, some, Text, codes,
  Result, ok, err, arith, ◌+ℤ◌, ◌≤ℤ◌,
}
use syndi.Models.{Feed, Item, Time}
use syndi.Cache.Store.{Store}
use syndi.HandlerCache.{
  Request, Value, Outcome, feed, Encoders, Response, error, not_modified, success, panicked,
  Options, default_key_generator, route_should_cache, route_options, response_feed, conditional,
  respond, after_handler, found_feed, cached,
}

-- The response with another X-Cache header.
abbrev pub with_status : Text → Response → Response
with_status status (error code e) = error code e
with_status status (not_modified _ etag) = not_modified status etag
with_status status (success _ etag content_type body) = success status etag content_type body
with_status status panicked = panicked

module _ (process : Time → (Text → Text) → List Item → List Item) (encode : Encoders)
    (digest : Text → Text) where
  conditional-status :
      (enabled : Bool) (a b : Text) (r : Request) (c : Text × Text)
      → conditional process encode digest enabled a r c
        ≡ with_status a (conditional process encode digest enabled b r c)
  unfolding conditional
  conditional-status false a b r c = refl
  conditional-status true a b r c = ground arith

  answer-status :
      (enabled : Bool) (a b : Text) (r : Request) (body : Result (Text × Text))
      → (elim body [ err e ↦ error 500 e | ok c ↦ conditional process encode digest enabled a r c ])
        ≡ with_status a (elim body [
          | err e ↦ error 500 e
          | ok c ↦ conditional process encode digest enabled b r c
        ])
  answer-status enabled a b r (ok c) = conditional-status enabled a b r c
  answer-status enabled a b r (err e) = refl

  respond-status :
      (opts : Options) (t u : Time) (a b : Text) (r : Request) (f : Feed)
      → process t r.query f.items ≡ process u r.query f.items
      → respond process encode digest opts t a r f
        ≡ with_status a (respond process encode digest opts u b r f)
  unfolding respond response_feed
  respond-status opts t u a b r f h =
      rw (h, respond, response_feed) (answer-status opts.etag_enabled a b r _)

  module _ {O : Type 0} (store : Store (Value O)) (ttl : Time)
      (handler : Request → store.State → (Option ℕ × Outcome) × store.State) where
    abbrev pub serve : Time → Time → Request → store.State → Response × store.State
    serve now later r s =
        cached process encode digest store (route_options ttl) now later handler r s

    -- The lookup misses, and the handler returns a feed that may be cached.
    pub record IsFilled (now : Time) (r : Request) (s : store.State) (f : Feed) : Type 0 where
      pub code : Option ℕ
      pub after : store.State
      pub missed : found_feed (store.get now (default_key_generator r) s).0 ≡ none
      pub returned :
          handler r (store.get now (default_key_generator r) s).1 ≡ ((code, feed f), after)
      pub cacheable : route_should_cache r code (feed f) ≡ true

    pub serve-filled :
        (now later : Time) (r : Request) (s : store.State) (f : Feed) (v : IsFilled now r s f)
        → serve now later r s ≡ (
          respond process encode digest (route_options ttl) later (codes "MISS") r f,
          store.set later (default_key_generator r) (feed f) ttl v.after,
        )
    unfolding cached after_handler
    serve-filled now later r s f v = ground (arith, v.missed, v.returned, v.cacheable)

    -- Once a request has filled the cache, every request for the same path is answered from the
    -- feed's raw items, whatever the query of the first, until the time to live is over.
    pub serve-hit_after_fill :
        (now later t u : Time) (r r' : Request) (s : store.State) (f : Feed)
        → IsFilled now r s f
        → r.path ≡ r'.path
        → t ≤ℤ later +ℤ ttl
        → (serve t u r' (serve now later r s).1).0
          ≡ respond process encode digest (route_options ttl) t (codes "HIT") r' f
    unfolding cached found_feed default_key_generator
    serve-hit_after_fill now later t u r r' s f v same h =
        let key : default_key_generator r ≡ default_key_generator r' =
          ap (λ p. codes "feed:" ++ p) same in
        let hit =
          subst
            (λ k.
              (store.get t k (store.set later (default_key_generator r) (feed f) ttl v.after)).0
              ≡ some (feed f))
            key (store.get-set later t ttl (default_key_generator r) (feed f) v.after h) in
        rw (serve-filled now later r s f v, hit, cached)

    -- After a request that filled the cache, the same request has the same answer within the time to
    -- live but for X-Cache, if the items that its parameters select do not depend on the time.
    pub serve-same_answer :
        (now later t u : Time) (r : Request) (s : store.State) (f : Feed)
        → IsFilled now r s f
        → t ≤ℤ later +ℤ ttl
        → process t r.query f.items ≡ process later r.query f.items
        → (serve t u r (serve now later r s).1).0
          ≡ with_status (codes "HIT") (serve now later r s).0
    serve-same_answer now later t u r s f v h same =
        serve-hit_after_fill now later t u r r s f v refl h
        ∙ respond-status (route_options ttl) t later (codes "HIT") (codes "MISS") r f same
        ∙ ap (λ x. with_status (codes "HIT") x.0) (sym (serve-filled now later r s f v))
