-- ===== src/Routeutils/Caching.antt =====
-- internal/routeutils/cache.go: a route's own use of the cache. No cache is the nil interface. `fn` is
-- the result of the function that computes a missing value; it does not use the cache itself.
pub mod Reuse
pub mod Keys
use syndi.Common.{
  Bool, true, false, List, [], ◌∷◌, ◌++◌, Option, none, some, Text, codes, is_empty, Result, ok,
  err, ◌+ℤ◌, if◌then◌else◌,
}
use syndi.Models.{Feed, Item, Time}
use syndi.Cache.Store.{Store}

-- What the routes store: a feed or nil, items, or something else.
pub data Cached (O : Type 0) : Type 0 where
  feed : Option Feed → Cached O
  items : List Item → Cached O
  other : O → Cached O

-- The type assertions.
abbrev pub as_feed : {O : Type 0} → Option (Cached O) → Option (Option Feed)
as_feed (some (feed f)) = some f
as_feed _ = none

abbrev pub as_items : {O : Type 0} → Option (Cached O) → Option (List Item)
as_items (some (items xs)) = some xs
as_items _ = none

pub record CacheResult : Type 0 where
  pub value : Option Feed
  pub hit : Bool
  pub ttl : Time
  pub expires_at : Time

abbrev pub cache_result : Time → Time → Bool → Option Feed → CacheResult
cache_result start ttl hit value = record {
  value = value;
  hit = hit;
  ttl = ttl;
  expires_at = start +ℤ ttl;
}

abbrev pub not_available : Text
not_available = codes "cache not available"

-- The loop of `GenerateCacheKey`.
unfoldable pub key_loop : Text → List Text → Text
key_loop key [] = key
key_loop key (part ∷ parts) =
    key_loop
      (if is_empty part then key else if is_empty key then part else key ++ (codes ":" ++ part))
      parts

unfoldable pub generate_cache_key : List Text → Text
generate_cache_key parts = key_loop [] parts

module _ {O : Type 0} (store : Store (Cached O)) where
  abbrev pub Instance : Type 0
  Instance = Option store.State

  module _ {A : Type 0} (assertion : Option (Cached O) → Option A) (value : A → Cached O) where
    -- After the lookup of `CacheFeed`, `CacheItems` and `CacheJSON`.
    unfoldable pub fill :
        Time → Text → Time → Result A → Option A → store.State → Result A × Instance
    fill later key ttl fn (some a) s = (ok a, some s)
    fill later key ttl (err e) none s = (err e, some s)
    fill later key ttl (ok a) none s = (ok a, some (store.set later key (value a) ttl s))

    unfoldable pub cache_value :
        Time → Time → Text → Time → Result A → Instance → Result A × Instance
    cache_value now later key ttl fn none = (fn, none)
    cache_value now later key ttl fn (some s) =
        let (cached, s') = store.get now key s in fill later key ttl fn (assertion cached) s'

    -- `GetFeedFromCache` and `GetItemsFromCache`.
    unfoldable pub get_from_cache : Time → Text → Instance → Option A × Instance
    get_from_cache now key none = (none, none)
    get_from_cache now key (some s) =
        let (cached, s') = store.get now key s in (assertion cached, some s')

    -- `SetFeedInCache` and `SetItemsInCache`.
    unfoldable pub set_in_cache : Time → Text → A → Time → Instance → Result (Unit {0}) × Instance
    set_in_cache now key a ttl none = (err not_available, none)
    set_in_cache now key a ttl (some s) = (ok tt, some (store.set now key (value a) ttl s))

  abbrev pub cache_feed :
      Time → Time → Text → Time → Result (Option Feed) → Instance → Result (Option Feed) × Instance
  cache_feed = cache_value as_feed feed

  abbrev pub cache_items :
      Time → Time → Text → Time → Result (List Item) → Instance → Result (List Item) × Instance
  cache_items = cache_value as_items items

  abbrev pub cache_json :
      Time → Time → Text → Time → Result (Cached O) → Instance → Result (Cached O) × Instance
  cache_json = cache_value (λ cached. cached) (λ v. v)

  unfoldable pub invalidate_cache_entry : Text → Instance → Result (Unit {0}) × Instance
  invalidate_cache_entry key none = (err not_available, none)
  invalidate_cache_entry key (some s) = (ok tt, some (store.delete key s))

  unfoldable pub cache_exists : Time → Text → Instance → Bool × Instance
  cache_exists now key none = (false, none)
  cache_exists now key (some s) = let (found, s') = store.exists now key s in (found, some s')

  unfoldable pub clear_cache : Instance → Result (Unit {0}) × Instance
  clear_cache none = (err not_available, none)
  clear_cache (some s) = (ok tt, some (store.clear s))

  abbrev pub result_of : Time → Time → Bool → Result (Option Feed) → Result CacheResult
  result_of start ttl hit (ok f) = ok (cache_result start ttl hit f)
  result_of start ttl hit (err e) = err e

  unfoldable pub fill_result :
      Time
      → Time
      → Text
      → Time
      → Result (Option Feed)
      → Option (Option Feed)
      → store.State
      → Result CacheResult × Instance
  fill_result start later key ttl fn (some f) s = (ok (cache_result start ttl true f), some s)
  fill_result start later key ttl (err e) none s = (err e, some s)
  fill_result start later key ttl (ok f) none s =
      (ok (cache_result start ttl false f), some (store.set later key (feed f) ttl s))

  -- `start` is the time at which the call begins.
  unfoldable pub cache_with_result :
      Time
      → Time
      → Time
      → Text
      → Time
      → Result (Option Feed)
      → Instance
      → Result CacheResult × Instance
  cache_with_result start now later key ttl fn none = (result_of start ttl false fn, none)
  cache_with_result start now later key ttl fn (some s) =
      let (cached, s') = store.get now key s in
      fill_result start later key ttl fn (as_feed cached) s'
