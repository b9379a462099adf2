-- ===== src/Tests/Reusing.antt =====
-- A feed kept by a route itself (internal/routeutils/cache.go) in the cache of pkg/cache/cache.go.
use syndi.Common.{ℕ, ◌≡◌, refl, [], ◌∷◌, none, some, arith, codes, ok, err, pos, ◌+ℤ◌}
use syndi.Cache.Lru.{list_lru}
use syndi.Cache.Memory
use syndi.Cache.Memory.{CacheValue}
use syndi.Cache.Store.{Store, memory_store}
use syndi.Routeutils.Caching.{Cached, feed, as_feed, cache_value, key_loop, generate_cache_key}
use syndi.Routeutils.Caching.Reuse.{cache_value-reused}

abbrev store : Store (Cached ℕ)
store = memory_store (list_lru (CacheValue (Cached ℕ)))

key_test :
    generate_cache_key (codes "a" ∷ [] ∷ codes "b" ∷ []) ≡ generate_cache_key (codes "a:b" ∷ [])
unfolding generate_cache_key key_loop
key_test = refl

missed : as_feed {O = ℕ} (store.get (pos 1) (codes "k") []).0 ≡ none
unfolding Memory.get
missed = refl

cache_value-reused_example :
    ((cache_value store as_feed feed (pos 1) (pos 2) (codes "k") (pos 60) (ok none) (some [])).0
      ≡ ok none)
    × ((cache_value store as_feed feed
          (pos 9)
          (pos 9)
          (codes "k")
          (pos 60)
          (err (codes "down"))
          (cache_value store as_feed feed
            (pos 1)
            (pos 2)
            (codes "k")
            (pos 60)
            (ok none)
            (some [])).1).0
        ≡ ok none)
unfolding ◌+ℤ◌
cache_value-reused_example =
    cache_value-reused store as_feed feed (pos 1) (pos 2) (pos 9) (pos 9) (pos 60) (pos 60)
      (codes "k") none (err (codes "down")) [] (λ x. refl) missed (omega arith)
