-- ===== src/Routeutils/Caching/Reuse.antt =====
-- What internal/routeutils/cache.go promises to the routes: a value is computed once and then reused.
use syndi.Common.{◌≡◌, refl, false, Option, none, some, Text, Result, ok, err, ◌≤ℤ◌, ◌+ℤ◌}
use syndi.Models.{Feed, Time}
use syndi.Cache.Store.{Store}
use syndi.Routeutils.Caching.{
  Cached, feed, as_feed, CacheResult, fill, cache_value, cache_feed, fill_result, cache_with_result,
  result_of,
}

module _ {O : Type 0} (store : Store (Cached O)) where
  module _ {A : Type 0} (assertion : Option (Cached O) → Option A) (value : A → Cached O) where
    -- Where the assertion knows a stored value again, a value computed on a miss is returned by every
    -- later call, whatever its function, until the time to live is over.
    pub cache_value-reused :
        (now later t u ttl ttl' : Time) (key : Text) (a : A) (fn : Result A) (s : store.State)
        → ((x : A) → assertion (some (value x)) ≡ some x)
        → assertion (store.get now key s).0 ≡ none
        → t ≤ℤ later +ℤ ttl
        → ((cache_value store assertion value now later key ttl (ok a) (some s)).0 ≡ ok a)
          × ((cache_value store assertion value t u key ttl' fn
                (cache_value store assertion value now later key ttl (ok a) (some s)).1).0
              ≡ ok a)
    unfolding cache_value fill
    cache_value-reused now later t u ttl ttl' key a fn s known missed h =
        let kept = store.get-set later t ttl key (value a) (store.get now key s).1 h in
        (rw (missed, fill), rw (missed, fill, cache_value, kept, known a))

    -- An error is returned and not stored: the cache is as the lookup left it.
    pub cache_value-failed :
        (now later ttl : Time) (key e : Text) (s : store.State)
        → assertion (store.get now key s).0 ≡ none
        → cache_value store assertion value now later key ttl (err e) (some s)
          ≡ (err e, some (store.get now key s).1)
    unfolding cache_value fill
    cache_value-failed now later ttl key e s missed = rw (missed, fill)

  -- The value without its metadata.
  abbrev pub forget : Result CacheResult → Result (Option Feed)
  forget (ok r) = ok r.value
  forget (err e) = err e

  fill_result-fill :
      (start later ttl : Time) (key : Text) (fn : Result (Option Feed))
      (found : Option (Option Feed)) (s : store.State)
      → (forget (fill_result store start later key ttl fn found s).0
          ≡ (fill store as_feed feed later key ttl fn found s).0)
        × ((fill_result store start later key ttl fn found s).1
            ≡ (fill store as_feed feed later key ttl fn found s).1)
  unfolding fill_result fill
  fill_result-fill start later ttl key fn (some f) s = (refl, refl)
  fill_result-fill start later ttl key (ok f) none s = (refl, refl)
  fill_result-fill start later ttl key (err e) none s = (refl, refl)

  forget-result_of :
      (start ttl : Time) (fn : Result (Option Feed))
      → forget (result_of store start ttl false fn) ≡ fn
  forget-result_of start ttl (ok f) = refl
  forget-result_of start ttl (err e) = refl

  -- `CacheWithResult` returns the same feed or error as `CacheFeed` and leaves the same cache.
  pub cache_with_result-cache_feed :
      (start now later ttl : Time) (key : Text) (fn : Result (Option Feed)) (c : Option store.State)
      → (forget (cache_with_result store start now later key ttl fn c).0
          ≡ (cache_feed store now later key ttl fn c).0)
        × ((cache_with_result store start now later key ttl fn c).1
            ≡ (cache_feed store now later key ttl fn c).1)
  unfolding cache_with_result cache_value
  cache_with_result-cache_feed start now later ttl key fn none =
      (forget-result_of start ttl fn, refl)
  cache_with_result-cache_feed start now later ttl key fn (some s) =
      fill_result-fill start later ttl key fn (as_feed (store.get now key s).0)
        (store.get now key s).1
