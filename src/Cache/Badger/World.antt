-- ===== src/Cache/Badger/World.antt =====
-- pkg/cache/badger.go under concurrency: the atomic sections of the operations and goroutines as
-- steps that interleave in any order. `log` remembers every value that `Set` stored, with its
-- deadline; a promotion's goroutine runs at most `delay` after it was started.
use syndi.Common.{◌≡◌, List, [], ◌∷◌, ◌++◌, Option, Text, ◌+ℤ◌, ◌≤ℤ◌}
use syndi.Models.{Time}
use syndi.Cache.Lru.{Lru}
use syndi.Cache.Disk.{Disk, Lookup}
use syndi.Cache.Memory
use syndi.Cache.Memory.{CacheValue}
use syndi.Cache.Badger.{
  Promotion, BadgerCache, cold_get, promote_to_memory, set_in_badger, cleanup_badger,
}

pub record Stored (V : Type 0) : Type 0 where
  pub key : Text
  pub value : V
  pub deadline : Time

module _ {V : Type 0} (lru : Lru (CacheValue V)) (db : Disk V) (delay : Time) where
  pub record World : Type 0 where
    pub now : Time
    pub cache : BadgerCache lru db
    pub log : List (Stored V)

  pub data Step : World → World → Type 0 where
    tick : (w : World) (t : Time) → w.now ≤ℤ t → Step w (record w { now = t })
    -- `memory.Get`, with its deletion of an expired entry.
    read_memory :
        (w : World) (k : Text)
        → Step w (record w {
          cache = record w.cache { memory = (Memory.get lru w.now k w.cache.memory).1 };
        })
    -- The deletion in `memory.Get`, made after other goroutines ran.
    drop_memory :
        (w : World) (k : Text)
        → Step w
            (record w { cache = record w.cache { memory = Memory.delete lru k w.cache.memory } })
    read_disk :
        (w : World) (k : Text) → Step w (record w { cache = (cold_get lru db w.now k w.cache).1 })
    drop_disk :
        (w : World) (k : Text)
        → Step w (record w { cache = record w.cache { disk = db.delete k w.cache.disk } })
    -- The two halves of `Set`.
    store_memory :
        (w : World) (k : Text) (v : V) (ttl : Time)
        → Step w (record w {
          cache = record w.cache { memory = Memory.set lru w.now k v ttl w.cache.memory };
          log = record { key = k; value = v; deadline = w.now +ℤ ttl } ∷ w.log;
        })
    store_disk :
        (w : World) (k : Text) (v : V) (ttl : Time)
        → Step w (record w {
          cache = record w.cache { disk = set_in_badger lru db w.now k v ttl w.cache.disk };
          log = record { key = k; value = v; deadline = w.now +ℤ ttl } ∷ w.log;
        })
    -- A promotion's goroutine.
    promote :
        (w : World) (before after : List (Promotion V)) (p : Promotion V)
        → w.cache.pending ≡ before ++ p ∷ after
        → w.now ≤ℤ p.started +ℤ delay
        → Step w (record w {
          cache = record w.cache {
            memory = promote_to_memory lru db w.now p w.cache.memory;
            pending = before ++ after;
          };
        })
    clean :
        (w : World)
        → Step w (record w {
          cache = record w.cache { disk = cleanup_badger lru db w.now w.cache.disk };
        })

  pub data Reach (w : World) : World → Type 0 where
    here : Reach w w
    next : {u v : World} → Reach w u → Step u v → Reach w v

  -- Nothing cached and nothing pending.
  pub record IsEmpty (w : World) : Type 0 where
    pub memory_empty : (k : Text) → lru.peek k w.cache.memory ≡ Option.none
    pub disk_empty : (t : Time) (k : Text) → db.read t k w.cache.disk ≡ Lookup.missing
    pub none_pending : w.cache.pending ≡ []
