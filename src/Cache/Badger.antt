-- ===== src/Cache/Badger.antt =====
-- pkg/cache/badger.go: BadgerCache, an LRU map in front of a Badger database. `now` is what time.Now
-- returns; the goroutine that promotes a value to memory is an entry of `pending` until it runs.
pub mod World
pub mod Fresh
pub mod Stale
use syndi.Common.{
  Bool, true, false, List, [], ◌∷◌, Option, none, some, Text, ℤ, pos, ◌+ℤ◌, ◌-ℤ◌, ltb_ℤ,
  if◌then◌else◌,
}
use syndi.Models.{Time}
use syndi.Cache.Lru.{Lru}
use syndi.Cache.Disk.{Disk, Lookup, missing, expired, found}
use syndi.Cache.Memory
use syndi.Cache.Memory.{CacheValue}

pub record Promotion (V : Type 0) : Type 0 where
  pub key : Text
  pub value : V
  pub remaining : Time
  pub started : Time

pub record Tiers (V M D : Type 0) : Type 0 where
  pub memory : M
  pub disk : D
  pub pending : List (Promotion V)

module _ {V : Type 0} (lru : Lru (CacheValue V)) (db : Disk V) where
  abbrev pub BadgerCache : Type 0
  BadgerCache = Tiers V lru.State db.State

  -- The read of the cold tier in `Get`: what it returns, and the cache after it.
  unfoldable pub load : Time → Text → Lookup db.Bytes → BadgerCache → Option V × BadgerCache
  load now key missing c = (none, c)
  load now key expired c = (none, record c { disk = db.delete key c.disk })
  load now key (found b) c = elim (db.decode b) [
    | none ↦ (none, c)
    | some (v, exp) ↦ if db.is_nil v then (none, c) else (
      some v,
      record c {
        pending =
            record { key = key; value = v; remaining = exp -ℤ now; started = now } ∷ c.pending;
      },
    )
  ]

  unfoldable pub cold_get : Time → Text → BadgerCache → Option V × BadgerCache
  cold_get now key c = load now key (db.read now key c.disk) c

  unfoldable pub get : Time → Text → BadgerCache → Option V × BadgerCache
  get now key c =
      let (hit, m) = Memory.get lru now key c.memory in
      elim hit [
        | some v ↦ (some v, record c { memory = m })
        | none ↦ cold_get now key (record c { memory = m })
      ]

  -- `promoteToMemory`, when its goroutine runs.
  unfoldable pub promote_to_memory : Time → Promotion V → lru.State → lru.State
  promote_to_memory now p m =
      if ltb_ℤ (pos 0) p.remaining then Memory.set lru now p.key p.value p.remaining m else m

  unfoldable pub set_in_badger : Time → Text → V → Time → db.State → db.State
  set_in_badger now key value ttl d = elim (db.encode value (now +ℤ ttl)) [
    | none ↦ d
    | some b ↦ db.set_entry now key b ttl d
  ]

  unfoldable pub set : Time → Text → V → Time → BadgerCache → BadgerCache
  set now key value ttl c = record c {
    memory = Memory.set lru now key value ttl c.memory;
    disk = set_in_badger now key value ttl c.disk;
  }

  unfoldable pub delete : Text → BadgerCache → BadgerCache
  delete key c = record c { memory = Memory.delete lru key c.memory; disk = db.delete key c.disk }

  unfoldable pub found_on_disk : Text → Lookup db.Bytes → BadgerCache → Bool × BadgerCache
  found_on_disk key missing c = (false, c)
  found_on_disk key expired c = (false, record c { disk = db.delete key c.disk })
  found_on_disk key (found b) c = (true, c)

  unfoldable pub exists : Time → Text → BadgerCache → Bool × BadgerCache
  exists now key c =
      let (hit, m) = Memory.exists lru now key c.memory in
      if hit
      then (true, record c { memory = m })
      else found_on_disk key (db.read now key c.disk) (record c { memory = m })

  unfoldable pub delete_keys : List Text → db.State → db.State
  delete_keys [] d = d
  delete_keys (k ∷ ks) d = delete_keys ks (db.delete k d)

  -- `cleanupBadger`, of a tick of the cleanup loop.
  unfoldable pub cleanup_badger : Time → db.State → db.State
  cleanup_badger now d = delete_keys (db.expired_keys now d) d
