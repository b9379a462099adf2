-- ===== src/Routes/Bilibili/Wbi/Kept.antt =====
-- The cache of the keys in routes/bilibili/wbi.go.
use syndi.Common.{Option, none, some, Text, codes, Result, ok, err, ◌+ℤ◌, ◌≤ℤ◌, pos, ◌≡◌, refl}
use syndi.Models.{Time}
use syndi.Cache.Store.{Store}
use syndi.Context.{cache_try_get, found_or_computed}

-- What the routes store: a pair of keys, or something else.
pub data Stored (O : Type 0) : Type 0 where
  keys : Text × Text → Stored O
  other : O → Stored O

abbrev pub six_hours : Time
six_hours = pos 21_600_000_000_000

abbrev pub stored_keys : {O : Type 0} → Result (Text × Text) → Result (Stored O)
stored_keys (err message) = err message
stored_keys (ok pair) = ok (keys pair)

-- The type assertion.
abbrev pub as_keys : {O : Type 0} → Result (Stored O) → Result (Text × Text)
as_keys (err message) = err message
as_keys (ok (keys pair)) = ok pair
as_keys (ok (other o)) = err (codes "bilibili: invalid cached wbi keys")

module _ {V : Type 0} (store : Store V) where
  found_or_computed-missing :
      (later ttl : Time) (key : Text) (v : V) (p : Option V × store.State)
      → p.0 ≡ none
      → found_or_computed store later key ttl (ok v) p ≡ (ok v, store.set later key v ttl p.1)
  found_or_computed-missing later ttl key v (none, s) h = refl
  found_or_computed-missing later ttl key v (some w, s) h = absurd cc

  found_or_computed-found :
      (later ttl : Time) (key : Text) (fn : Result V) (v : V) (p : Option V × store.State)
      → p.0 ≡ some v
      → (found_or_computed store later key ttl fn p).0 ≡ ok v
  found_or_computed-found later ttl key (ok w) v (none, s) h = absurd cc
  found_or_computed-found later ttl key (err message) v (none, s) h = absurd cc
  found_or_computed-found later ttl key fn v (some w, s) h = cc

module _ {O : Type 0} (store : Store (Stored O)) where
  abbrev pub with_keys :
      Result (Text × Text)
      → Option (Result (Stored O) × store.State)
      → Result (Text × Text) × Option store.State
  with_keys fetched none = (fetched, none)
  with_keys fetched (some (value, s)) = (as_keys value, some s)

  -- Without a cache the keys are fetched; `fetched` is the result of that.
  unfoldable pub wbi_keys :
      Time
      → Time
      → Result (Text × Text)
      → Option store.State
      → Result (Text × Text) × Option store.State
  wbi_keys now later fetched cache = with_keys fetched (
      cache_try_get store now later (codes "bilibili-wbi-keys") six_hours (stored_keys fetched)
        cache)

  -- Keys that were fetched and stored are those of every call within six hours, whatever the interface says.
  wbi_keys-kept :
      (now stored_at again later : Time) (pair : Text × Text) (fetched : Result (Text × Text))
      (s : store.State)
      → (store.get now (codes "bilibili-wbi-keys") s).0 ≡ none
      → again ≤ℤ stored_at +ℤ six_hours
      → (wbi_keys again later fetched (wbi_keys now stored_at (ok pair) (some s)).1).0 ≡ ok pair
  unfolding wbi_keys cache_try_get
  wbi_keys-kept now stored_at again later pair fetched s missing soon =
      let key = codes "bilibili-wbi-keys" in
      let first = store.get now key s in
      let second = store.get again key (store.set stored_at key (keys pair) six_hours first.1) in
      let law = store.get-set stored_at again six_hours key (keys pair) first.1 soon in
      let filled =
        found_or_computed-missing store stored_at six_hours key (keys pair) first missing in
      let found =
        found_or_computed-found store later six_hours key (stored_keys fetched) (keys pair) second
          law in
      rw (filled, found) refl
