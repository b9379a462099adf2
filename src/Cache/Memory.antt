-- ===== src/Cache/Memory.antt =====
-- pkg/cache/cache.go: MemoryCache, an LRU map of values with their deadlines. `now` is what
-- time.Now returns in the call; a method returns its result and the new state of the map.
pub mod Live
use syndi.Common.{
  ℕ, Bool, true, false, Option, none, some, Text, Result, ok, err, ℤ, pos, ◌+ℤ◌, ltb_ℤ, pos_part,
  if◌then◌else◌,
}
use syndi.Models.{Time, after}
use syndi.Cache.Lru.{Lru}

pub record CacheValue (V : Type 0) : Type 0 where
  pub value : V
  pub exp : Time

module _ {V : Type 0} (lru : Lru (CacheValue V)) where
  open lru use {State, create, add, remove, purge, count, get as lru_get}

  -- A size that is not positive becomes 1024.
  unfoldable pub new_memory_cache : ℤ → State
  new_memory_cache size = create (if ltb_ℤ (pos 0) size then pos_part size else 1024)

  unfoldable pub delete : Text → State → State
  delete key s = remove key s

  -- The part of `Get` after the lookup, and with it the deletion of what has expired.
  unfoldable pub unless_expired : Time → Text → Option (CacheValue V) → State → Option V × State
  unfolding delete
  unless_expired now key none s = (none, s)
  unless_expired now key (some c) s =
      if after now c.exp then (none, delete key s) else (some c.value, s)

  unfoldable pub get : Time → Text → State → Option V × State
  unfolding unless_expired
  get now key s = let (found, s') = lru_get key s in unless_expired now key found s'

  unfoldable pub set : Time → Text → V → Time → State → State
  set now key value ttl s = add key (record { value = value; exp = now +ℤ ttl }) s

  unfoldable pub exists_unless_expired : Time → Text → Option (CacheValue V) → State → Bool × State
  unfolding delete
  exists_unless_expired now key none s = (false, s)
  exists_unless_expired now key (some c) s =
      if after now c.exp then (false, delete key s) else (true, s)

  unfoldable pub exists : Time → Text → State → Bool × State
  unfolding exists_unless_expired
  exists now key s = let (found, s') = lru_get key s in exists_unless_expired now key found s'

  unfoldable pub clear : State → State
  clear s = purge s

  unfoldable pub len : State → ℕ
  len s = count s

  -- `TryGet`: `fn` is the result of the function that computes a missing value, `later` the time at
  -- which it has returned.
  unfoldable pub try_get : Time → Time → Text → Time → Result V → State → Result V × State
  unfolding get set
  try_get now later key ttl fn s =
      let (found, s') = get now key s in
      elim found [
        | some v ↦ (ok v, s')
        | none ↦ elim fn [ err e ↦ (err e, s') | ok v ↦ (ok v, set later key v ttl s') ]
      ]
