-- ===== src/Cache/Store.antt =====
-- The interface Cache of pkg/cache/cache.go for its clients, with the one promise that they use: a
-- value that was set is found until its time to live is over. Both caches keep it.
use syndi.Common.{
  ◌≡◌, ◌∙◌, ap, Bool, Option, none, some, Text, arith, ◌+ℤ◌, ◌≤ℤ◌, false, if◌then◌else◌,
}
use syndi.Models.{Time, after}
use syndi.Cache.Lru.{Lru}
use syndi.Cache.Disk.{Disk}
use syndi.Cache.Memory
use syndi.Cache.Memory.{CacheValue}
use syndi.Cache.Memory.Live.{get-live, live-set}
use syndi.Cache.Badger

pub record Store (V : Type 0) : Type 1 where
  pub State : Type 0
  pub get : Time → Text → State → Option V × State
  pub set : Time → Text → V → Time → State → State
  pub exists : Time → Text → State → Bool × State
  pub delete : Text → State → State
  pub clear : State → State
  pub get-set :
      (now later ttl : Time) (key : Text) (v : V) (s : State)
      → later ≤ℤ now +ℤ ttl
      → (get later key (set now key v ttl s)).0 ≡ some v

not_after : (t u : Time) → t ≤ℤ u → after t u ≡ false
not_after t u h = ground arith

module _ {V : Type 0} (lru : Lru (CacheValue V)) where
  pub memory-get-set :
      (now later ttl : Time) (key : Text) (v : V) (s : lru.State)
      → later ≤ℤ now +ℤ ttl
      → (Memory.get lru later key (Memory.set lru now key v ttl s)).0 ≡ some v
  memory-get-set now later ttl key v s h =
      (get-live lru later later key key (Memory.set lru now key v ttl s) (omega arith)).0
      ∙ (live-set lru now later ttl key key v s).0
      ∙ ap (λ b. if b then none else some v) (not_after later (now +ℤ ttl) h)

  -- A value set in the two-tier cache is found, since it is written to memory too.
  badger-get-set_hot :
      (db : Disk V) (now later ttl : Time) (key : Text) (v : V) (c : Badger.BadgerCache lru db)
      → later ≤ℤ now +ℤ ttl
      → (Badger.get lru db later key (Badger.set lru db now key v ttl c)).0 ≡ some v
  unfolding Badger.get Badger.set
  badger-get-set_hot db now later ttl key v c h =
      rw (memory-get-set now later ttl key v c.memory h, Badger.get)

  abbrev pub memory_store : Store V
  memory_store = record {
    State = lru.State;
    get = Memory.get lru;
    set = Memory.set lru;
    exists = Memory.exists lru;
    delete = Memory.delete lru;
    clear = Memory.clear lru;
    get-set = memory-get-set;
  }
