-- ===== src/Cache/Badger/Fresh/Log.antt =====
-- Storing a value in pkg/cache/badger.go keeps what was backed before it, and backs the value.
use mathlib.Core.List.{Memᴰ}
use syndi.Common.{refl, ◌≤ℤ◌, List, ◌∷◌, pos, arith, ◌+ℤ◌, +ℤ_parts, All-imp}
use syndi.Models.{Time}
use syndi.Cache.Lru.{Lru}
use syndi.Cache.Disk.{Disk}
use syndi.Cache.Memory.{CacheValue}
use syndi.Cache.Badger.{Promotion}
use syndi.Cache.Badger.World.{Stored}
use syndi.Cache.Badger.Fresh.Support.{Backed, Backed-grow}
use syndi.Cache.Badger.Fresh.Hot.{MemoryFresh}
use syndi.Cache.Badger.Fresh.Cold.{DiskFresh, PendingFresh}

module _ {V : Type 0} (lru : Lru (CacheValue V)) (db : Disk V) (x : Stored V)
    (log : List (Stored V)) where
  pub MemoryFresh-grow :
      (delay : Time) (m : lru.State)
      → MemoryFresh lru delay log m
      → MemoryFresh lru delay (x ∷ log) m
  MemoryFresh-grow delay m f k c h = Backed-grow x log k c.value c.exp delay (f k c h)

  pub DiskFresh-grow : (d : db.State) → DiskFresh lru db log d → DiskFresh lru db (x ∷ log) d
  DiskFresh-grow d f t k b v e h r =
      let (now, expiry) = f t k b v e h r in
      (Backed-grow x log k v t (pos 0) now, Backed-grow x log k v e (pos 0) expiry)

  pub PendingFresh-grow :
      (ps : List (Promotion V)) → PendingFresh lru db log ps → PendingFresh lru db (x ∷ log) ps
  PendingFresh-grow ps f =
      All-imp (λ p. Backed-grow x log p.key p.value (p.started +ℤ p.remaining) (pos 0)) ps f

  -- What is stored now backs itself.
  pub Backed-now : (late : Time) → pos 0 ≤ℤ late → Backed (x ∷ log) x.key x.value x.deadline late
  Backed-now late h = (x, Memᴰ.head refl, refl, refl, omega (arith, +ℤ_parts x.deadline late))
