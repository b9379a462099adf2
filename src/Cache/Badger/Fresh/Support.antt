-- ===== src/Cache/Badger/Fresh/Support.antt =====
-- What it means that a value which pkg/cache/badger.go serves was stored in time.
use mathlib.Core.List.{Memᴰ}
use syndi.Common.{◌≡◌, ◌≤ℤ◌, List, ◌∷◌, Text, pos, arith, ◌+ℤ◌, +ℤ_parts}
use syndi.Models.{Time}
use syndi.Cache.Badger.World.{Stored}

module _ {V : Type 0} where
  -- The value was stored under the key with a deadline that `t` passes by `late` at most.
  abbrev pub Backed : List (Stored V) → Text → V → Time → Time → Type 0
  Backed log k v t late =
      (e : Stored V) × Memᴰ e log × (e.key ≡ k) × (e.value ≡ v) × (t ≤ℤ e.deadline +ℤ late)

  pub Backed-grow :
      (x : Stored V) (log : List (Stored V)) (k : Text) (v : V) (t late : Time)
      → Backed log k v t late
      → Backed (x ∷ log) k v t late
  Backed-grow x log k v t late b = (b.0, Memᴰ.tail b.1, b.2, b.3, b.4)

  pub Backed-earlier :
      (log : List (Stored V)) (k : Text) (v : V) (t u late : Time)
      → Backed log k v u late
      → t ≤ℤ u
      → Backed log k v t late
  Backed-earlier log k v t u late b h = (b.0, b.1, b.2, b.3, omega arith)

  pub Backed-late :
      (log : List (Stored V)) (k : Text) (v : V) (t u late : Time)
      → Backed log k v u (pos 0)
      → t ≤ℤ u +ℤ late
      → Backed log k v t late
  Backed-late log k v t u late b h = (
    b.0,
    b.1,
    b.2,
    b.3,
    omega (arith, +ℤ_parts u late, +ℤ_parts b.0.deadline late, +ℤ_parts b.0.deadline (pos 0)),
  )
