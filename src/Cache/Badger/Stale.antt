-- ===== src/Cache/Badger/Stale.antt =====
-- pkg/cache/badger.go: a promotion's goroutine that runs after a Delete or a Set of its key puts the
-- value that it read before back into memory.
use syndi.Common.{
  ◌≡◌, ap, ◌∙◌, ◌<ℤ◌, true, false, List, [], ◌∷◌, none, some, Text, pos, arith, ◌+ℤ◌, ◌-ℤ◌,
  +ℤ_parts, -ℤ_parts, ltb_ℤ, if◌then◌else◌,
}
use syndi.Models.{Time, after}
use syndi.Cache.Lru.{Lru}
use syndi.Cache.Disk.{Disk, found}
use syndi.Cache.Memory
use syndi.Cache.Memory.{CacheValue}
use syndi.Cache.Memory.Live.{get-live, live-set, live}
use syndi.Cache.Badger.{Promotion, BadgerCache, load, cold_get, get, set, delete, promote_to_memory}

lt_test : (t : Time) → pos 0 <ℤ t → ltb_ℤ (pos 0) t ≡ true
lt_test t h = ground arith

not_after : (now t : Time) → pos 0 <ℤ t → after now (now +ℤ t) ≡ false
not_after now t h = ground (arith, +ℤ_parts now t)

module _ {V : Type 0} (lru : Lru (CacheValue V)) (db : Disk V) where
  -- The goroutine of the promotion that was started last, of those pending.
  unfoldable pub run_last : Time → List (Promotion V) → BadgerCache lru db → BadgerCache lru db
  run_last now [] c = c
  run_last now (p ∷ ps) c = record c {
    memory = promote_to_memory lru db now p c.memory;
    pending = ps;
  }

  abbrev pub run_last_promotion : Time → BadgerCache lru db → BadgerCache lru db
  run_last_promotion now c = run_last now c.pending c

  -- A get that hits in memory returns that value.
  get_of_live :
      (now : Time) (key : Text) (v : V) (c : BadgerCache lru db)
      → live lru now key c.memory ≡ some v
      → (get lru db now key c).0 ≡ some v
  unfolding get
  get_of_live now key v c h =
      let hit = (get-live lru now now key key c.memory (omega arith)).0 ∙ h in rw (hit, get)

  promoted_served :
      (now : Time) (p : Promotion V) (ps : List (Promotion V)) (c : BadgerCache lru db)
      → pos 0 <ℤ p.remaining
      → c.pending ≡ p ∷ ps
      → (get lru db now p.key (run_last_promotion now c)).0 ≡ some p.value
  unfolding run_last promote_to_memory
  promoted_served now p ps c left e =
      rw (e, run_last)
        (get_of_live now p.key p.value _ (
          rw (lt_test p.remaining left) (
            (live-set lru now now p.remaining p.key p.key p.value c.memory).0
            ∙ ap (λ x. if x then none else some p.value) (not_after now p.remaining left))))

  -- A read from the disk starts a promotion with the time that its value has left.
  get-pending :
      (now : Time) (key : Text) (v : V) (exp : Time) (b : db.Bytes) (c : BadgerCache lru db)
      → (Memory.get lru now key c.memory).0 ≡ none
      → db.read now key c.disk ≡ found b
      → db.decode b ≡ some (v, exp)
      → db.is_nil v ≡ false
      → (get lru db now key c).1.pending
        ≡ record { key = key; value = v; remaining = exp -ℤ now; started = now } ∷ c.pending
  unfolding get cold_get load
  get-pending now key v exp b c miss read dec value = ground (arith, miss, read, dec, value)

  -- A value is read from the disk before its deadline, its key is then deleted, or given another
  -- value, and the promotion's goroutine runs after that: a read of the key, at that time, returns
  -- the old value, which is then past neither a Delete nor a Set.
  pub overwritten_value_returns :
      (now t : Time) (key : Text) (v : V) (exp : Time) (b : db.Bytes) (c : BadgerCache lru db)
      → (Memory.get lru now key c.memory).0 ≡ none
      → db.read now key c.disk ≡ found b
      → db.decode b ≡ some (v, exp)
      → db.is_nil v ≡ false
      → now <ℤ exp
      → ((get lru db t key (run_last_promotion t (delete lru db key (get lru db now key c).1))).0
          ≡ some v)
        × ((w : V) (ttl : Time)
            → (get lru db t key
                (run_last_promotion t (set lru db t key w ttl (get lru db now key c).1))).0
              ≡ some v)
  unfolding delete set
  overwritten_value_returns now t key v exp b c miss read dec value before =
      let p : Promotion V = record {
        key = key;
        value = v;
        remaining = exp -ℤ now;
        started = now;
      } in
      let left : pos 0 <ℤ (exp -ℤ now) = omega (arith, -ℤ_parts exp now) in
      let started = get-pending now key v exp b c miss read dec value in
      (
        promoted_served t p c.pending (delete lru db key (get lru db now key c).1) left started,
        λ w ttl.
            promoted_served t p c.pending (set lru db t key w ttl (get lru db now key c).1) left
              started,
      )
