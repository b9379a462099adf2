-- ===== src/Cache/Badger/Fresh/Hot.antt =====
-- The memory tier of pkg/cache/badger.go: what every atomic section leaves in it is backed by a
-- stored value.
use mathlib.Core.Path.{subst}
use syndi.Common.{
  ◌≡◌, refl, sym, ap, ◌∙◌, ◌≤ℤ◌, List, Option, none, some, Text, pos, arith, ◌+ℤ◌, +ℤ_parts, inl,
  inr, text_eq, text_eq→≡, Bool-cases, ltb_ℤ,
}
use syndi.Models.{Time, after}
use syndi.Cache.Lru.{Lru}
use syndi.Cache.Disk.{Disk}
use syndi.Cache.Memory
use syndi.Cache.Memory.{CacheValue, unless_expired}
use syndi.Cache.Badger.{Promotion, promote_to_memory}
use syndi.Cache.Badger.World.{Stored}
use syndi.Cache.Badger.Fresh.Support.{Backed, Backed-earlier, Backed-late}

module _ {V : Type 0} (lru : Lru (CacheValue V)) (delay : Time) (log : List (Stored V)) where
  -- Every entry in memory expires at most `delay` after the deadline of a stored value.
  abbrev pub MemoryFresh : lru.State → Type 0
  MemoryFresh m =
      (k : Text) (c : CacheValue V) → lru.peek k m ≡ some c → Backed log k c.value c.exp delay

  pub set-MemoryFresh :
      (m : lru.State) (now : Time) (key : Text) (v : V) (ttl : Time)
      → MemoryFresh m
      → Backed log key v (now +ℤ ttl) delay
      → MemoryFresh (Memory.set lru now key v ttl m)
  unfolding Memory.set
  set-MemoryFresh m now key v ttl f b k c h =
      let entry : CacheValue V = record { value = v; exp = now +ℤ ttl } in
      elim (Bool-cases (text_eq key k)) [
        | inl same ↦
            let at : key ≡ k = text_eq→≡ key k same in
            let reads : some entry ≡ some c =
              sym (lru.peek-add_self key entry m)
              ∙ ap (λ j. lru.peek j (lru.add key entry m)) at
              ∙ h in
            let stored : entry ≡ c = cc in
            subst (λ j. Backed log j c.value c.exp delay) at
              (subst (λ (d : CacheValue V). Backed log key d.value d.exp delay) stored b)
        | inr other ↦ elim (lru.peek-add_ne k key entry m other) [
          | inl kept ↦ f k c (sym kept ∙ h)
          | inr evicted ↦ absurd (cc)
        ]
      ]

  pub remove-MemoryFresh :
      (m : lru.State) (key : Text) → MemoryFresh m → MemoryFresh (Memory.delete lru key m)
  unfolding Memory.delete
  remove-MemoryFresh m key f k c h = f k c (ground (arith, lru.peek-remove k key m))

  unless_expired-MemoryFresh :
      (m : lru.State) (now : Time) (key : Text) (cached : Option (CacheValue V))
      → MemoryFresh m
      → MemoryFresh (unless_expired lru now key cached m).1
  unfolding unless_expired
  unless_expired-MemoryFresh m now key none f = f
  unless_expired-MemoryFresh m now key (some c) f = elim (Bool-cases (after now c.exp)) [
    | inl late ↦ rw late (remove-MemoryFresh m key f)
    | inr early ↦ rw early f
  ]

  pub get-MemoryFresh :
      (m : lru.State) (now : Time) (key : Text)
      → MemoryFresh m
      → MemoryFresh (Memory.get lru now key m).1
  unfolding Memory.get
  get-MemoryFresh m now key f =
      unless_expired-MemoryFresh (lru.get key m).1 now key (lru.get key m).0
        (λ k c h. f k c (sym (lru.peek-get k key m) ∙ h))

  unless_expired-Backed :
      (m : lru.State) (now : Time) (key : Text) (v : V) (cached : Option (CacheValue V))
      → ((c : CacheValue V) → cached ≡ some c → Backed log key c.value c.exp delay)
      → (unless_expired lru now key cached m).0 ≡ some v
      → Backed log key v now delay
  unfolding unless_expired
  unless_expired-Backed m now key v none f h = absurd (cc)
  unless_expired-Backed m now key v (some c) f h =
      let same : c.value ≡ v = ground arith in
      subst (λ u. Backed log key u now delay) same
        (Backed-earlier log key c.value now c.exp delay (f c refl) (ground arith))

  -- A value that memory serves is backed, at the time of the read.
  pub get-Backed :
      (m : lru.State) (now : Time) (key : Text) (v : V)
      → MemoryFresh m
      → (Memory.get lru now key m).0 ≡ some v
      → Backed log key v now delay
  unfolding Memory.get
  get-Backed m now key v f h =
      unless_expired-Backed (lru.get key m).1 now key v (lru.get key m).0
        (λ c e. f key c (sym (lru.get-peek key m) ∙ e)) h

module _ {V : Type 0} (lru : Lru (CacheValue V)) (delay : Time) (log : List (Stored V)) where
  -- A promotion that is late by `delay` at most stores an entry that expires that much late.
  pub promote-MemoryFresh :
      (db : Disk V) (m : lru.State) (now : Time) (p : Promotion V)
      → MemoryFresh lru delay log m
      → Backed log p.key p.value (p.started +ℤ p.remaining) (pos 0)
      → now ≤ℤ p.started +ℤ delay
      → MemoryFresh lru delay log (promote_to_memory lru db now p m)
  unfolding promote_to_memory
  promote-MemoryFresh db m now p f b h = elim (Bool-cases (ltb_ℤ (pos 0) p.remaining)) [
    | inl left ↦ rw left (
        set-MemoryFresh lru delay log m now p.key p.value p.remaining f (
          Backed-late log p.key p.value (now +ℤ p.remaining) (p.started +ℤ p.remaining) delay b (
            omega (
              arith,
              +ℤ_parts now p.remaining,
              +ℤ_parts p.started p.remaining,
              +ℤ_parts p.started delay,
              +ℤ_parts (p.started +ℤ p.remaining) delay,
            ))))
    | inr over ↦ rw over f
  ]
