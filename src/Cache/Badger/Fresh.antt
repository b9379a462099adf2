-- ===== src/Cache/Badger/Fresh.antt =====
-- No stale reads from the cache of pkg/cache/badger.go: whatever the goroutines' order, a value is
-- served only if it was stored under that key and its deadline has not passed, or has passed by no
-- more than a promotion's goroutine may be late.
pub mod Support
mod Hot
mod Cold
mod Log
use mathlib.Core.List.{Memᴰ}
use mathlib.Core.Path.{subst}
use syndi.Common.{
  ◌≡◌, refl, ◌+◌, ◌≤◌, ◌≤ℤ◌, List, [], ◌∷◌, Option, some, Text, ℤ, pos, arith, ◌+ℤ◌, +ℤ_parts, All,
  All-imp, All-append, All-split, sym, ◌++◌,
}
use syndi.Models.{Time}
use syndi.Cache.Lru.{Lru}
use syndi.Cache.Disk.{Disk, Lookup, missing, expired, found}
use syndi.Cache.Memory
use syndi.Cache.Memory.{CacheValue}
use syndi.Cache.Badger.{Promotion, BadgerCache, cold_get}
use syndi.Cache.Badger.World.{Stored, World, Step, Reach, here, next, IsEmpty}
use Support.{Backed}
use Hot.{
  MemoryFresh, set-MemoryFresh, remove-MemoryFresh, get-MemoryFresh, promote-MemoryFresh,
  get-Backed,
}
use Cold.{
  DiskFresh, PendingFresh, delete-DiskFresh, cleanup-DiskFresh, set-DiskFresh, load-DiskFresh,
  load-PendingFresh, load-Backed, cold_get-memory,
}
use Log.{MemoryFresh-grow, DiskFresh-grow, PendingFresh-grow, Backed-now}

module _ {V : Type 0} (lru : Lru (CacheValue V)) (db : Disk V) (delay : Time) where
  record IsFresh (w : World lru db delay) : Type 0 where
    memory_fresh : MemoryFresh lru delay w.log w.cache.memory
    disk_fresh : DiskFresh lru db w.log w.cache.disk
    pending_fresh : PendingFresh lru db w.log w.cache.pending

  Step-IsFresh :
      {w u : World lru db delay} → pos 0 ≤ℤ delay → Step lru db delay w u → IsFresh w → IsFresh u
  Step-IsFresh d (Step.tick w t h) f = record {
    memory_fresh = f.memory_fresh;
    disk_fresh = f.disk_fresh;
    pending_fresh = f.pending_fresh;
  }
  Step-IsFresh d (Step.read_memory w k) f = record {
    memory_fresh = get-MemoryFresh lru delay w.log w.cache.memory w.now k f.memory_fresh;
    disk_fresh = f.disk_fresh;
    pending_fresh = f.pending_fresh;
  }
  Step-IsFresh d (Step.drop_memory w k) f = record {
    memory_fresh = remove-MemoryFresh lru delay w.log w.cache.memory k f.memory_fresh;
    disk_fresh = f.disk_fresh;
    pending_fresh = f.pending_fresh;
  }
  Step-IsFresh d (Step.read_disk w k) f = record {
    memory_fresh =
        subst (MemoryFresh lru delay w.log) (sym (cold_get-memory lru db w.now k w.cache))
          f.memory_fresh;
    disk_fresh = load-DiskFresh lru db w.log w.cache w.now k f.disk_fresh;
    pending_fresh = load-PendingFresh lru db w.log w.cache w.now k f.disk_fresh f.pending_fresh;
  }
  Step-IsFresh d (Step.drop_disk w k) f = record {
    memory_fresh = f.memory_fresh;
    disk_fresh = delete-DiskFresh lru db w.log w.cache.disk k f.disk_fresh;
    pending_fresh = f.pending_fresh;
  }
  Step-IsFresh d (Step.store_memory w k v ttl) f =
      let x : Stored V = record { key = k; value = v; deadline = w.now +ℤ ttl } in
      record {
        memory_fresh =
            set-MemoryFresh lru delay (x ∷ w.log) w.cache.memory w.now k v ttl
              (MemoryFresh-grow lru db x w.log delay w.cache.memory f.memory_fresh)
              (Backed-now lru db x w.log delay d);
        disk_fresh = DiskFresh-grow lru db x w.log w.cache.disk f.disk_fresh;
        pending_fresh = PendingFresh-grow lru db x w.log w.cache.pending f.pending_fresh;
      }
  Step-IsFresh d (Step.store_disk w k v ttl) f =
      let x : Stored V = record { key = k; value = v; deadline = w.now +ℤ ttl } in
      record {
        memory_fresh = MemoryFresh-grow lru db x w.log delay w.cache.memory f.memory_fresh;
        disk_fresh =
            set-DiskFresh lru db (x ∷ w.log) w.cache.disk w.now k v ttl
              (DiskFresh-grow lru db x w.log w.cache.disk f.disk_fresh)
              (Backed-now lru db x w.log (pos 0) (omega arith));
        pending_fresh = PendingFresh-grow lru db x w.log w.cache.pending f.pending_fresh;
      }
  Step-IsFresh d (Step.promote w before after p e h) f =
      let parts =
        All-split _ before p after (subst (PendingFresh lru db w.log) e f.pending_fresh) in
      record {
        memory_fresh =
            promote-MemoryFresh lru delay w.log db w.cache.memory w.now p f.memory_fresh parts.1 h;
        disk_fresh = f.disk_fresh;
        pending_fresh = All-append _ before after parts.0 parts.2;
      }
  Step-IsFresh d (Step.clean w) f = record {
    memory_fresh = f.memory_fresh;
    disk_fresh = cleanup-DiskFresh lru db w.log w.cache.disk w.now f.disk_fresh;
    pending_fresh = f.pending_fresh;
  }

  Reach-IsFresh :
      {w u : World lru db delay} → pos 0 ≤ℤ delay → IsFresh w → Reach lru db delay w u → IsFresh u
  Reach-IsFresh d f here = f
  Reach-IsFresh d f (next r st) = Step-IsFresh d st (Reach-IsFresh d f r)

  IsEmpty-IsFresh : {w : World lru db delay} → IsEmpty lru db delay w → IsFresh w
  IsEmpty-IsFresh {w} e = record {
    memory_fresh = λ k c h. absurd (cc (e.memory_empty k));
    disk_fresh = λ t k b v x h r. absurd (cc (e.disk_empty t k));
    pending_fresh = subst (PendingFresh lru db w.log) (sym e.none_pending) tt;
  }

  -- From an empty cache, after any interleaving of the operations' and the goroutines' atomic
  -- sections: a value that memory serves was stored under its key with a deadline that has passed by
  -- `delay` at most, and one that the disk serves with a deadline that has not passed.
  pub served_values-Backed :
      {start w : World lru db delay} (k : Text) (v : V)
      → pos 0 ≤ℤ delay
      → IsEmpty lru db delay start
      → Reach lru db delay start w
      → ((Memory.get lru w.now k w.cache.memory).0 ≡ some v → Backed w.log k v w.now delay)
        × ((cold_get lru db w.now k w.cache).0 ≡ some v → Backed w.log k v w.now (pos 0))
  served_values-Backed {w} k v d e r =
      let f = Reach-IsFresh d (IsEmpty-IsFresh e) r in
      (
        get-Backed lru delay w.log w.cache.memory w.now k v f.memory_fresh,
        load-Backed lru db w.log w.cache w.now k f.disk_fresh v,
      )
