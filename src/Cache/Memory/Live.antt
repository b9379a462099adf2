-- ===== src/Cache/Memory/Live.antt =====
-- MemoryCache (pkg/cache/cache.go) seen as a map from keys to the values that have not expired.
use syndi.Common.{
  ◌≡◌, refl, sym, ap, ◌∙◌, ◌⊎◌, inl, inr, Bool, true, false, Option, none, some, arith, Text,
  Result, ok, err, pos, ◌+ℤ◌, ◌≤ℤ◌, +ℤ_parts, text_eq, text_eq_iff, if◌then◌else◌,
}
use syndi.Models.{Time, after}
use syndi.Cache.Lru.{Lru}
use syndi.Cache.Memory.{
  CacheValue, get, set, delete, exists, clear, try_get, unless_expired, exists_unless_expired,
}

module _ {V : Type 0} where
  -- The value of an entry, if its deadline has not passed.
  unfoldable pub in_time : Time → Option (CacheValue V) → Option V
  in_time now none = none
  in_time now (some c) = if after now c.exp then none else some c.value

  abbrev pub is_some : Option V → Bool
  is_some none = false
  is_some (some v) = true

  in_time_later :
      (now later : Time) (found : Option (CacheValue V))
      → now ≤ℤ later
      → in_time now found ≡ none
      → in_time later found ≡ none
  unfolding in_time
  in_time_later now later none h e = refl
  in_time_later now later (some c) h e = ground arith

module _ {V : Type 0} (lru : Lru (CacheValue V)) where
  open lru use {State, peek, get as lru_get, remove}

  -- The value that the cache holds for a key and that has not expired.
  unfoldable pub live : Time → Text → State → Option V
  live now key s = in_time now (peek key s)

  unless_expired-value :
      (now : Time) (key : Text) (found : Option (CacheValue V)) (s : State)
      → (unless_expired lru now key found s).0 ≡ in_time now found
  unfolding unless_expired in_time
  unless_expired-value now key none s = refl
  unless_expired-value now key (some c) s = ground arith

  -- Deleting what has expired hides nothing at any later time.
  unless_expired-live :
      (now later : Time) (key j : Text) (found : Option (CacheValue V)) (s : State)
      → now ≤ℤ later
      → peek key s ≡ found
      → in_time later (peek j (unless_expired lru now key found s).1) ≡ in_time later (peek j s)
  unfolding unless_expired in_time delete
  unless_expired-live now later key j none s h e = refl
  unless_expired-live now later key j (some c) s h e =
      ground (arith, lru.peek-remove j key s, text_eq_iff key j)

  -- `Get` answers with the live value of its key and leaves every key's live value, at its own time
  -- and later, as it was.
  pub get-live :
      (now later : Time) (key j : Text) (s : State)
      → now ≤ℤ later
      → ((get lru now key s).0 ≡ live now key s)
        × (live later j (get lru now key s).1 ≡ live later j s)
  unfolding get live
  get-live now later key j s h =
      let kept = lru.peek-get key key s in
      (
        unless_expired-value now key (lru_get key s).0 (lru_get key s).1
            ∙ ap (in_time now) (lru.get-peek key s),
        unless_expired-live now later key j (lru_get key s).0 (lru_get key s).1 h
              (kept ∙ sym (lru.get-peek key s))
            ∙ ap (in_time later) (lru.peek-get j key s),
      )

  exists_unless_expired-lem :
      (now : Time) (key : Text) (found : Option (CacheValue V)) (s : State)
      → (exists_unless_expired lru now key found s)
        ≡ (is_some (unless_expired lru now key found s).0, (unless_expired lru now key found s).1)
  unfolding exists_unless_expired unless_expired
  exists_unless_expired-lem now key none s = refl
  exists_unless_expired-lem now key (some c) s = ground arith

  -- `Exists` tells whether there is a live value of its key, and leaves every key's live value, at its
  -- own time and later, as it was.
  pub exists-live :
      (now later : Time) (key j : Text) (s : State)
      → now ≤ℤ later
      → ((exists lru now key s).0 ≡ is_some (live now key s))
        × (live later j (exists lru now key s).1 ≡ live later j s)
  unfolding exists get
  exists-live now later key j s h =
      let (same, kept) = get-live now later key j s h in
      let e = exists_unless_expired-lem now key (lru_get key s).0 (lru_get key s).1 in
      (ap (λ r. r.0) e ∙ ap is_some same, ap (λ r. live later j r.1) e ∙ kept)

  -- A value set is live until its deadline; another key keeps its live value or is evicted.
  pub live-set :
      (now later ttl : Time) (key j : Text) (v : V) (s : State)
      → (live later key (set lru now key v ttl s)
          ≡ (if after later (now +ℤ ttl) then none else some v))
        × (text_eq key j ≡ false
            → (live later j (set lru now key v ttl s) ≡ live later j s)
              ⊎ (live later j (set lru now key v ttl s) ≡ none))
  unfolding live set in_time
  live-set now later ttl key j v s =
      let entry : CacheValue V = record { value = v; exp = now +ℤ ttl } in
      (
        ap (in_time later) (lru.peek-add_self key entry s),
        λ h. elim (lru.peek-add_ne j key entry s h) [
          | inl kept ↦ inl (ap (in_time later) kept)
          | inr evicted ↦ inr (ap (in_time later) evicted)
        ],
      )

  -- A deleted key has no live value, and the other keys keep theirs.
  live-delete :
      (later : Time) (key j : Text) (s : State)
      → live later j (delete lru key s) ≡ (if text_eq key j then none else live later j s)
  unfolding live delete in_time
  live-delete later key j s = ground (arith, lru.peek-remove j key s)

  pub live-clear : (later : Time) (j : Text) (s : State) → live later j (clear lru s) ≡ none
  unfolding live clear in_time
  live-clear later j s = rw (lru.peek-purge j s)

  stored-live :
      (now ttl : Time) (key : Text) (v : V) (s : State)
      → pos 0 ≤ℤ ttl
      → live now key (set lru now key v ttl s) ≡ some v
  stored-live now ttl key v s h =
      let past : after now (now +ℤ ttl) ≡ false = ground (arith, +ℤ_parts now ttl) in
      (live-set now now ttl key key v s).0 ∙ ap (λ b. if b then none else some v) past

  -- `TryGet` returns the live value of its key; without one it returns what the function computes
  -- and stores it for the time to live, or returns the function's error and stores nothing.
  pub try_get-live :
      (now later : Time) (key : Text) (ttl : Time) (fn : Result V) (s : State)
      → now ≤ℤ later
      → pos 0 ≤ℤ ttl
      → ((v : V)
          → (try_get lru now later key ttl fn s).0 ≡ ok v
          → (live now key s ≡ some v)
            ⊎ ((live now key s ≡ none)
                × (fn ≡ ok v)
                × (live later key (try_get lru now later key ttl fn s).1 ≡ some v)))
        × ((e : Text)
            → (try_get lru now later key ttl fn s).0 ≡ err e
            → (live now key s ≡ none)
              × (fn ≡ err e)
              × ((j : Text) → live later j (try_get lru now later key ttl fn s).1 ≡ live later j s))
  unfolding try_get
  try_get-live now later key ttl fn s h k =
      let same = (get-live now later key key s h).0 in
      (
        λ v p. ground (arith, same, stored-live later ttl key v (get lru now key s).1 k),
        λ e p. (
          ground (arith, same),
          ground (arith, same),
          λ j. ground (arith, same, (get-live now later key j s h).1),
        ),
      )
