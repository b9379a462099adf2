-- ===== src/Tests/Serving.antt =====
-- A route behind the cached wrapper (internal/handlercache/handler.go), with the cache of
-- pkg/cache/cache.go.

use syndi.Common.{
  ℕ, ◌≡◌, refl, inr, List, [], Option, none, some, arith, Text, codes, text_eq, pos, ◌+ℤ◌, ok,
  if◌then◌else◌,
}
use syndi.Golang.Strings.{has_prefix}
use syndi.Models.{Feed, Item, Time}
use syndi.Cache.Lru.{list_lru}
use syndi.Cache.Memory
use syndi.Cache.Memory.{CacheValue}
use syndi.Cache.Store.{Store, memory_store}
use syndi.HandlerCache.{
  Request, Value, Outcome, feed, nil, failed, Encoders, error, not_modified, success, panicked,
  default_key_generator, should_bypass_path, default_should_cache, route_should_cache,
  route_options, generate_etag, serialize_feed, response_feed, conditional, respond, after_handler,
  found_feed, cached,
}
use syndi.HandlerCache.Transparent.{
  with_status, serve, IsFilled, serve-hit_after_fill, serve-same_answer,
}
use syndi.HandlerCache.Revalidation.{if_none_match, serve-revalidated}
use syndi.HandlerCache.Unstored.{or_500, serve_without_feed, serve_uncacheable}

abbrev process : Time → (Text → Text) → List Item → List Item
process now query items = items

abbrev encode : Encoders
encode = record { rss = λ f. ok f.title; atom = λ f. ok f.title; json = λ f. ok f.title }

abbrev digest : Text → Text
digest body = body

abbrev store : Store (Value ℕ)
store = memory_store (list_lru (CacheValue (Value ℕ)))

abbrev request : Text → Request
request path = record { path = path; query = λ k. []; header = λ k. [] }

abbrev news : Feed
news = record {
  title = codes "news";
  description = [];
  link = [];
  items = [];
  author = none;
  updated = none;
}

abbrev handler : Request → store.State → (Option ℕ × Outcome) × store.State
handler r s =
    if text_eq r.path (codes "/blog/news")
    then ((none, feed news), s)
    else if text_eq r.path (codes "/blog/down")
    then ((some 503, failed (codes "down")), s)
    else ((none, nil), s)

filled :
    IsFilled process encode digest store
      (pos 60)
      handler
      (pos 10)
      (request (codes "/blog/news"))
      []
      news
unfolding default_key_generator found_feed Memory.get text_eq route_should_cache
    default_should_cache should_bypass_path has_prefix
filled = record { code = none; after = []; missed = refl; returned = refl; cacheable = refl }

serve-hit_after_fill_example :
    (serve process encode digest store
      (pos 60)
      handler
      (pos 20)
      (pos 21)
      (record (request (codes "/blog/news")) { query = λ k. codes "atom" })
      (serve process encode digest store
        (pos 60)
        handler
        (pos 10)
        (pos 11)
        (request (codes "/blog/news"))
        []).1).0
    ≡ respond process encode digest
        (route_options (pos 60))
        (pos 20)
        (codes "HIT")
        (record (request (codes "/blog/news")) { query = λ k. codes "atom" })
        news
unfolding ◌+ℤ◌
serve-hit_after_fill_example =
    serve-hit_after_fill process encode digest store (pos 60) handler (pos 10) (pos 11) (pos 20)
      (pos 21) (request (codes "/blog/news"))
      (record (request (codes "/blog/news")) { query = λ k. codes "atom" }) [] news filled refl
      (omega arith)

serve-same_answer_example :
    (serve process encode digest store
      (pos 60)
      handler
      (pos 20)
      (pos 21)
      (request (codes "/blog/news"))
      (serve process encode digest store
        (pos 60)
        handler
        (pos 10)
        (pos 11)
        (request (codes "/blog/news"))
        []).1).0
    ≡ with_status
        (codes "HIT")
        (serve process encode digest store
          (pos 60)
          handler
          (pos 10)
          (pos 11)
          (request (codes "/blog/news"))
          []).0
unfolding ◌+ℤ◌
serve-same_answer_example =
    serve-same_answer process encode digest store (pos 60) handler (pos 10) (pos 11) (pos 20)
      (pos 21) (request (codes "/blog/news")) [] news filled (omega arith) refl

first_answer :
    (serve process encode digest store
      (pos 60)
      handler
      (pos 10)
      (pos 11)
      (request (codes "/blog/news"))
      []).0
    ≡ success
        (codes "MISS")
        (some (codes "\"news\""))
        (codes "application/rss+xml; charset=utf-8")
        (codes "news")
unfolding cached found_feed Memory.get after_handler text_eq respond serialize_feed conditional
    generate_etag response_feed
first_answer = refl

serve-revalidated_example :
    (serve process encode digest store
      (pos 60)
      handler
      (pos 20)
      (pos 21)
      (if_none_match (codes "\"news\"") (request (codes "/blog/news")))
      (serve process encode digest store
        (pos 60)
        handler
        (pos 10)
        (pos 11)
        (request (codes "/blog/news"))
        []).1).0
    ≡ not_modified (codes "HIT") (some (codes "\"news\""))
unfolding ◌+ℤ◌
serve-revalidated_example =
    serve-revalidated process encode digest store (pos 60) handler (pos 10) (pos 11) (pos 20)
      (pos 21) (request (codes "/blog/news")) [] news (codes "\"news\"")
      (codes "application/rss+xml; charset=utf-8") (codes "news") filled (omega arith) refl refl
      first_answer

missed_down :
    found_feed (store.get (pos 10) (default_key_generator (request (codes "/blog/down"))) []).0
    ≡ none
unfolding found_feed Memory.get
missed_down = refl

serve_without_feed_example :
    ((e : Text)
      → handler
          (request (codes "/blog/down"))
          (store.get (pos 10) (default_key_generator (request (codes "/blog/down"))) []).1
        ≡ ((some 503, failed e), [])
      → cached process encode digest store
          (route_options (pos 60))
          (pos 10)
          (pos 11)
          handler
          (request (codes "/blog/down"))
          []
        ≡ (error (or_500 (some 503)) e, []))
    × (handler
            (request (codes "/blog/down"))
            (store.get (pos 10) (default_key_generator (request (codes "/blog/down"))) []).1
          ≡ ((some 503, nil), [])
        → cached process encode digest store
            (route_options (pos 60))
            (pos 10)
            (pos 11)
            handler
            (request (codes "/blog/down"))
            []
          ≡ (panicked, []))
serve_without_feed_example =
    serve_without_feed process encode digest store (pos 60) handler (pos 10) (pos 11)
      (request (codes "/blog/down")) [] [] (some 503) missed_down

failed_down :
    handler
      (request (codes "/blog/down"))
      (store.get (pos 10) (default_key_generator (request (codes "/blog/down"))) []).1
    ≡ ((some 503, failed (codes "down")), [])
unfolding text_eq Memory.get
failed_down = refl

serve_uncacheable_example :
    (cached process encode digest store
      (route_options (pos 60))
      (pos 10)
      (pos 11)
      handler
      (request (codes "/blog/down"))
      []).1
    ≡ []
serve_uncacheable_example =
    serve_uncacheable process encode digest store (pos 60) handler (pos 10) (pos 11)
      (request (codes "/blog/down")) [] [] (some 503) (failed (codes "down")) missed_down
      failed_down (inr (inr (503, refl, omega arith)))
