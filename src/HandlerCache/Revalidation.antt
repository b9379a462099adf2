-- ===== src/HandlerCache/Revalidation.antt =====
-- A client that sends back the ETag of an answer of the cached wrapper
-- (internal/handlercache/handler.go) is told that nothing changed.
use syndi.Common.{
  ℕ, ◌≡◌, refl, sym, ap, ◌∙◌, true, false, List, Option, some, Text, codes, text_eq, text_eq_refl,
  Result, ok, err, arith, ◌+ℤ◌, ◌≤ℤ◌, if◌then◌else◌, is_empty,
}
use syndi.Models.{Feed, Item, Time}
use syndi.Cache.Store.{Store}
use syndi.HandlerCache.{
  Request, Value, Outcome, Encoders, error, not_modified, success, route_options, response_feed,
  conditional, respond,
}
use syndi.HandlerCache.Transparent.{IsFilled, serve, serve-filled, serve-hit_after_fill}

-- The request, with its If-None-Match header set.
abbrev pub if_none_match : Text → Request → Request
if_none_match etag r = record r {
  header = λ k. if text_eq k (codes "If-None-Match") then etag else r.header k;
}

module _ (process : Time → (Text → Text) → List Item → List Item) (encode : Encoders)
    (digest : Text → Text) where
  conditional-match :
      (a b etag content_type body : Text) (r : Request) (c : Text × Text)
      → is_empty etag ≡ false
      → conditional process encode digest true a r c ≡ success a (some etag) content_type body
      → conditional process encode digest true b (if_none_match etag r) c
        ≡ not_modified b (some etag)
  unfolding conditional text_eq
  conditional-match a b etag content_type body r (d, ct) given h = ground (arith, text_eq_refl etag)

  answer-match :
      (a b etag content_type body : Text) (r : Request) (answer : Result (Text × Text))
      → is_empty etag ≡ false
      → (elim answer [ err e ↦ error 500 e | ok c ↦ conditional process encode digest true a r c ])
        ≡ success a (some etag) content_type body
      → (elim answer [
        | err e ↦ error 500 e
        | ok c ↦ conditional process encode digest true b (if_none_match etag r) c
      ])
        ≡ not_modified b (some etag)
  answer-match a b etag content_type body r (ok c) given h =
      conditional-match a b etag content_type body r c given h
  answer-match a b etag content_type body r (err e) given h = absurd (cc)

  respond-match :
      (ttl t u : Time) (a b etag content_type body : Text) (r : Request) (f : Feed)
      → is_empty etag ≡ false
      → process t r.query f.items ≡ process u r.query f.items
      → respond process encode digest (route_options ttl) u a r f
        ≡ success a (some etag) content_type body
      → respond process encode digest (route_options ttl) t b (if_none_match etag r) f
        ≡ not_modified b (some etag)
  unfolding respond response_feed
  respond-match ttl t u a b etag content_type body r f given same h =
      rw (same, respond, response_feed) (answer-match a b etag content_type body r _ given h)

  module _ {O : Type 0} (store : Store (Value O)) (ttl : Time)
      (handler : Request → store.State → (Option ℕ × Outcome) × store.State) where
    -- After a request that filled the cache and was answered in full with an ETag, the same request
    -- with that ETag is answered with 304, until the time to live is over, if the items that its
    -- parameters select do not depend on the time.
    pub serve-revalidated :
        (now later t u : Time) (r : Request) (s : store.State) (f : Feed)
        (etag content_type body : Text)
        → IsFilled process encode digest store ttl handler now r s f
        → t ≤ℤ later +ℤ ttl
        → process t r.query f.items ≡ process later r.query f.items
        → is_empty etag ≡ false
        → (serve process encode digest store ttl handler now later r s).0
          ≡ success (codes "MISS") (some etag) content_type body
        → (serve process encode digest store ttl handler t u
            (if_none_match etag r)
            (serve process encode digest store ttl handler now later r s).1).0
          ≡ not_modified (codes "HIT") (some etag)
    serve-revalidated now later t u r s f etag content_type body v h same given answer =
        serve-hit_after_fill process encode digest store ttl handler now later t u r
          (if_none_match etag r) s f v refl h
        ∙ respond-match ttl t later (codes "MISS") (codes "HIT") etag content_type body r f given
            same
            (sym (
                ap (λ x. x.0)
                  (serve-filled process encode digest store ttl handler now later r s f v))
              ∙ answer)
