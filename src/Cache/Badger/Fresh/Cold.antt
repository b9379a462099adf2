-- ===== src/Cache/Badger/Fresh/Cold.antt =====
-- The Badger tier of pkg/cache/badger.go, and the promotions that its reads start: what every
-- atomic section leaves in them is backed by a stored value.
use mathlib.Core.Path.{subst}
use syndi.Common.{
  ◌≡◌, refl, sym, ap, ◌∙◌, List, [], ◌∷◌, Option, some, Text, pos, arith, ◌+ℤ◌, ◌-ℤ◌, +ℤ_parts,
  -ℤ_parts, All, inl, inr, text_eq→≡, Bool-cases, Option-cases,
}
use syndi.Models.{Time}
use syndi.Cache.Lru.{Lru}
use syndi.Cache.Disk.{Disk, Lookup, missing, expired, found}
use syndi.Cache.Memory.{CacheValue}
use syndi.Cache.Badger.{
  Promotion, BadgerCache, load, cold_get, set_in_badger, delete_keys, cleanup_badger,
}
use syndi.Cache.Badger.World.{Stored}
use syndi.Cache.Badger.Fresh.Support.{Backed, Backed-earlier}

module _ {V : Type 0} (lru : Lru (CacheValue V)) (db : Disk V) (log : List (Stored V)) where
  -- What the disk shows at a time was stored with a deadline no earlier than that time and than the
  -- expiry that it carries.
  abbrev pub DiskFresh : db.State → Type 0
  DiskFresh d =
      (t : Time) (k : Text) (b : db.Bytes) (v : V) (e : Time)
      → db.read t k d ≡ found b
      → db.decode b ≡ some (v, e)
      → Backed log k v t (pos 0) × Backed log k v e (pos 0)

  abbrev pub PendingFresh : List (Promotion V) → Type 0
  PendingFresh = All (λ p. Backed log p.key p.value (p.started +ℤ p.remaining) (pos 0))

  pub delete-DiskFresh : (d : db.State) (key : Text) → DiskFresh d → DiskFresh (db.delete key d)
  delete-DiskFresh d key f t k b v e h = f t k b v e (db.read-delete t key k b d h)

  delete_keys-DiskFresh :
      (ks : List Text) (d : db.State) → DiskFresh d → DiskFresh (delete_keys lru db ks d)
  unfolding delete_keys
  delete_keys-DiskFresh [] d f = f
  delete_keys-DiskFresh (k ∷ ks) d f =
      delete_keys-DiskFresh ks (db.delete k d) (delete-DiskFresh d k f)

  pub cleanup-DiskFresh :
      (d : db.State) (now : Time) → DiskFresh d → DiskFresh (cleanup_badger lru db now d)
  unfolding cleanup_badger
  cleanup-DiskFresh d now f = delete_keys-DiskFresh (db.expired_keys now d) d f

  entry-DiskFresh :
      (d : db.State) (now : Time) (key : Text) (v : V) (ttl : Time) (b : db.Bytes)
      → DiskFresh d
      → db.encode v (now +ℤ ttl) ≡ some b
      → Backed log key v (now +ℤ ttl) (pos 0)
      → DiskFresh (db.set_entry now key b ttl d)
  entry-DiskFresh d now key v ttl b f coded w t k b' v' e h dec =
      elim (db.read-set_entry now t key k b b' ttl d h) [
        | inl old ↦ f t k b' v' e old dec
        | inr (same, bytes, early) ↦
            let reads : ◌≡◌ {A = Option (V × Time)} (some (v', e)) (some (v, now +ℤ ttl)) =
              sym dec ∙ ap db.decode bytes ∙ db.decode-encode v (now +ℤ ttl) b coded in
            let value : v ≡ v' = cc in
            let expiry : e ≡ now +ℤ ttl = cc in
            let here =
              subst (λ u. Backed log k u (now +ℤ ttl) (pos 0)) value
                (subst (λ j. Backed log j v (now +ℤ ttl) (pos 0)) (text_eq→≡ key k same) w) in
            (
              Backed-earlier log k v' t (now +ℤ ttl) (pos 0) here early,
              subst (λ x. Backed log k v' x (pos 0)) (sym expiry) here,
            )
      ]

  pub set-DiskFresh :
      (d : db.State) (now : Time) (key : Text) (v : V) (ttl : Time)
      → DiskFresh d
      → Backed log key v (now +ℤ ttl) (pos 0)
      → DiskFresh (set_in_badger lru db now key v ttl d)
  unfolding set_in_badger
  set-DiskFresh d now key v ttl f w = elim (Option-cases (db.encode v (now +ℤ ttl))) [
    | inl fails ↦ rw (fails, set_in_badger) f
    | inr (b, coded) ↦ rw (coded, set_in_badger) (entry-DiskFresh d now key v ttl b f coded w)
  ]

  -- The three outcomes of a read, when it is known what was read.
  module _ (c : BadgerCache lru db) (now : Time) (key : Text) (f : DiskFresh c.disk) where
    at-DiskFresh : (l : Lookup db.Bytes) → DiskFresh (load lru db now key l c).1.disk
    unfolding load
    at-DiskFresh missing = f
    at-DiskFresh expired = delete-DiskFresh c.disk key f
    at-DiskFresh (found b) = elim (Option-cases (db.decode b)) [
      | inl garbled ↦ rw (garbled, load) f
      | inr (e, read) ↦ elim (Bool-cases (db.is_nil e.0)) [
        | inl null ↦ rw (read, load, null) f
        | inr value ↦ rw (read, load, value) f
      ]
    ]

    at-PendingFresh :
        (l : Lookup db.Bytes)
        → db.read now key c.disk ≡ l
        → PendingFresh c.pending
        → PendingFresh (load lru db now key l c).1.pending
    unfolding load
    at-PendingFresh missing h g = g
    at-PendingFresh expired h g = g
    at-PendingFresh (found b) h g = elim (Option-cases (db.decode b)) [
      | inl garbled ↦ rw (garbled, load) g
      | inr (e, read) ↦ elim (Bool-cases (db.is_nil e.0)) [
        | inl null ↦ rw (read, load, null) g
        | inr value ↦
            rw (read, load, value)
              (
                Backed-earlier log key e.0 (now +ℤ (e.1 -ℤ now)) e.1 (pos 0)
                    (f now key b e.0 e.1 h read).1
                    (omega (arith, +ℤ_parts now (e.1 -ℤ now), -ℤ_parts e.1 now)),
                g,
              )
      ]
    ]

    at-Backed :
        (l : Lookup db.Bytes) (v : V)
        → db.read now key c.disk ≡ l
        → (load lru db now key l c).0 ≡ some v
        → Backed log key v now (pos 0)
    unfolding load
    at-Backed missing v h r = absurd (cc)
    at-Backed expired v h r = absurd (cc)
    at-Backed (found b) v h r = elim (Option-cases (db.decode b)) [
      | inl garbled ↦ absurd (ground (arith, garbled))
      | inr (e, read) ↦
          let same : e.0 ≡ v = ground (arith, read) in
          subst (λ u. Backed log key u now (pos 0)) same (f now key b e.0 e.1 h read).0
    ]

    pub load-DiskFresh : DiskFresh (cold_get lru db now key c).1.disk
    unfolding cold_get
    load-DiskFresh = at-DiskFresh (db.read now key c.disk)

    pub load-PendingFresh :
        PendingFresh c.pending → PendingFresh (cold_get lru db now key c).1.pending
    unfolding cold_get
    load-PendingFresh g = at-PendingFresh (db.read now key c.disk) refl g

    -- A value that the disk serves is backed, at the time of the read.
    pub load-Backed :
        (v : V) → (cold_get lru db now key c).0 ≡ some v → Backed log key v now (pos 0)
    unfolding cold_get
    load-Backed v r = at-Backed (db.read now key c.disk) v refl r

module _ {V : Type 0} (lru : Lru (CacheValue V)) (db : Disk V) where
  load-memory :
      (now : Time) (key : Text) (l : Lookup db.Bytes) (c : BadgerCache lru db)
      → (load lru db now key l c).1.memory ≡ c.memory
  unfolding load
  load-memory now key missing c = refl
  load-memory now key expired c = refl
  load-memory now key (found b) c = ground arith

  -- A read of the disk leaves memory to the promotion that it starts.
  pub cold_get-memory :
      (now : Time) (key : Text) (c : BadgerCache lru db)
      → (cold_get lru db now key c).1.memory ≡ c.memory
  unfolding cold_get
  cold_get-memory now key c = load-memory now key (db.read now key c.disk) c
