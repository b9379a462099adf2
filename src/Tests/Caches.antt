-- ===== src/Tests/Caches.antt =====
-- The two caches of pkg/cache on concrete values.
use syndi.Common.{
  ℕ, ◌≡◌, refl, ◌⊎◌, List, [], ◌∷◌, none, some, arith, Text, codes, text_eq, Result, ok, err, pos,
  ◌+ℤ◌,
}
use syndi.Models.{Time}
use syndi.Cache.Lru.{list_lru}
use syndi.Cache.Disk.{list_disk, found}
use syndi.Cache.Memory
use syndi.Cache.Memory.{CacheValue, try_get}
use syndi.Cache.Memory.Live.{live, try_get-live}
use syndi.Cache.Badger
use syndi.Cache.Badger.{BadgerCache, cold_get}
use syndi.Cache.Badger.World.{World, Step, Reach, here, next, IsEmpty}
use syndi.Cache.Badger.Fresh.{served_values-Backed}
use syndi.Cache.Badger.Fresh.Support.{Backed}
use syndi.Cache.Badger.Stale.{run_last_promotion, overwritten_value_returns}

abbrev entry : CacheValue ℕ
entry = record { value = 7; exp = pos 20 }

abbrev stored : List (Text × CacheValue ℕ)
stored = (codes "a", entry) ∷ []

abbrev computed : Result ℕ × List (Text × CacheValue ℕ)
computed = try_get (list_lru (CacheValue ℕ)) (pos 30) (pos 31) (codes "a") (pos 5) (ok 9) stored

try_get-live_example :
    ((v : ℕ)
      → computed.0 ≡ ok v
      → (live (list_lru (CacheValue ℕ)) (pos 30) (codes "a") stored ≡ some v)
        ⊎ ((live (list_lru (CacheValue ℕ)) (pos 30) (codes "a") stored ≡ none)
            × (◌≡◌ {A = Result ℕ} (ok 9) (ok v))
            × (live (list_lru (CacheValue ℕ)) (pos 31) (codes "a") computed.1 ≡ some v)))
    × ((e : Text)
        → computed.0 ≡ err e
        → (live (list_lru (CacheValue ℕ)) (pos 30) (codes "a") stored ≡ none)
          × (◌≡◌ {A = Result ℕ} (ok 9) (err e))
          × ((j : Text)
              → live (list_lru (CacheValue ℕ)) (pos 31) j computed.1
                ≡ live (list_lru (CacheValue ℕ)) (pos 31) j stored))
try_get-live_example =
    try_get-live (list_lru (CacheValue ℕ)) (pos 30) (pos 31) (codes "a") (pos 5) (ok 9) stored
      (omega arith) (omega arith)

abbrev Tiered : Type 0
Tiered = BadgerCache (list_lru (CacheValue ℕ)) (list_disk ℕ)

abbrev empty : Tiered
empty = record { memory = []; disk = []; pending = [] }

-- A value on the disk until the time 20, and not in memory.
abbrev cold : Tiered
cold = record { memory = []; disk = (codes "a", ((7, pos 20), pos 20)) ∷ []; pending = [] }

not_hot : (Memory.get (list_lru (CacheValue ℕ)) (pos 10) (codes "a") cold.memory).0 ≡ none
unfolding Memory.get
not_hot = refl

on_disk : (list_disk ℕ).read (pos 10) (codes "a") cold.disk ≡ found (7, pos 20)
unfolding text_eq
on_disk = refl

abbrev read_cold : Tiered
read_cold = (Badger.get (list_lru (CacheValue ℕ)) (list_disk ℕ) (pos 10) (codes "a") cold).1

overwritten_value_returns_example :
    ((Badger.get (list_lru (CacheValue ℕ)) (list_disk ℕ) (pos 11) (codes "a") (
        run_last_promotion
          (list_lru (CacheValue ℕ))
          (list_disk ℕ)
          (pos 11)
          (Badger.delete (list_lru (CacheValue ℕ)) (list_disk ℕ) (codes "a") read_cold))).0
      ≡ some 7)
    × ((w : ℕ) (ttl : Time)
        → (Badger.get (list_lru (CacheValue ℕ)) (list_disk ℕ) (pos 11) (codes "a") (
            run_last_promotion (list_lru (CacheValue ℕ)) (list_disk ℕ) (pos 11) (
              Badger.set
                (list_lru (CacheValue ℕ))
                (list_disk ℕ)
                (pos 11)
                (codes "a")
                w
                ttl
                read_cold))).0
          ≡ some 7)
overwritten_value_returns_example =
    overwritten_value_returns (list_lru (CacheValue ℕ)) (list_disk ℕ) (pos 10) (pos 11) (codes "a")
      7 (pos 20) (7, pos 20) cold not_hot on_disk refl refl (omega arith)

abbrev start : World (list_lru (CacheValue ℕ)) (list_disk ℕ) (pos 3)
start = record { now = pos 10; cache = empty; log = [] }

start-IsEmpty : IsEmpty (list_lru (CacheValue ℕ)) (list_disk ℕ) (pos 3) start
start-IsEmpty = record { memory_empty = λ k. refl; disk_empty = λ t k. refl; none_pending = refl }

abbrev after_set : World (list_lru (CacheValue ℕ)) (list_disk ℕ) (pos 3)
after_set = record {
  now = pos 10;
  cache = record empty {
    memory = Memory.set (list_lru (CacheValue ℕ)) (pos 10) (codes "a") 7 (pos 5) [];
  };
  log = record { key = codes "a"; value = 7; deadline = pos 10 +ℤ pos 5 } ∷ [];
}

abbrev later : World (list_lru (CacheValue ℕ)) (list_disk ℕ) (pos 3)
later = record after_set { now = pos 12 }

reached : Reach (list_lru (CacheValue ℕ)) (list_disk ℕ) (pos 3) start later
reached =
    next (next here (Step.store_memory start (codes "a") 7 (pos 5)))
      (Step.tick after_set (pos 12) (omega arith))

served_values-Backed_example :
    ((Memory.get (list_lru (CacheValue ℕ)) later.now (codes "a") later.cache.memory).0 ≡ some 7
      → Backed later.log (codes "a") 7 later.now (pos 3))
    × ((cold_get (list_lru (CacheValue ℕ)) (list_disk ℕ) later.now (codes "a") later.cache).0
          ≡ some 7
        → Backed later.log (codes "a") 7 later.now (pos 0))
served_values-Backed_example =
    served_values-Backed (list_lru (CacheValue ℕ)) (list_disk ℕ) (pos 3) (codes "a") 7 (omega arith)
      start-IsEmpty reached
