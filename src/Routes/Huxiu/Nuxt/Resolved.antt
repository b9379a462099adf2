-- ===== src/Routes/Huxiu/Nuxt/Resolved.antt =====
-- The resolution of references ends, and panics at negative ones only.
use syndi.Common.{
  ℕ, zero, suc, ◌+◌, ◌≤◌, ◌<◌, true, false, List, [], ◌∷◌, any, Option, none, some, length,
  get_elem?, ℤ, pos, negsuc, eq_ℤ, ◌≡◌, inl, inr, refl, arith, Bool-cases, Option-cases,
  if◌then◌else◌,
}
use syndi.Routes.Huxiu.Nuxt.{
  Json, null, bool, number, string, array, object, Items, nil, cons, Fields, end, field, Resolution,
  value, panicked, exhausted, ◌>>=◌, at, of_entry, is_reference, resolve_value, resolve_items,
  resolve_fields, Tagged, reactive, empty_set, plain, tag_of, resolve_item, resolve, int_of,
}

-- The number of indices below `k` that are not visited.
unfoldable pub unvisited : ℕ → List ℤ → ℕ
unvisited zero v = 0
unvisited (suc k) v = (if any (eq_ℤ (pos k)) v then 0 else 1) + unvisited k v

unvisited-cons-le : (k : ℕ) (idx : ℤ) (v : List ℤ) → unvisited k (idx ∷ v) ≤ unvisited k v
unfolding unvisited
unvisited-cons-le zero idx v = omega arith
unvisited-cons-le (suc k) idx v = ground (arith, unvisited-cons-le k idx v)

unvisited-cons :
    (k i : ℕ) (v : List ℤ)
    → i < k
    → any (eq_ℤ (pos i)) v ≡ false
    → unvisited k (pos i ∷ v) < unvisited k v
unfolding unvisited
unvisited-cons zero i v h e = elim h [ ]
unvisited-cons (suc k) i v h e = ground (arith, unvisited-cons k i v, unvisited-cons-le k (pos i) v)

unvisited-none : (k : ℕ) → unvisited k [] ≡ k
unfolding unvisited
unvisited-none zero = refl
unvisited-none (suc k) = omega (arith, unvisited-none k)

pub at-some :
    (arr : List Json) (idx : ℤ) (item : Json)
    → at arr idx ≡ some item
    → (i : ℕ) × (idx ≡ pos i) × (i < length arr)
at-some arr (pos i) item h = (i, refl, below arr i h)
  where
    below : (xs : List Json) (i : ℕ) → get_elem? xs i ≡ some item → i < length xs
    below [] i e = cc
    below (x ∷ xs) zero e = omega arith
    below (x ∷ xs) (suc i) e = omega (arith, below xs i e)
at-some arr (negsuc i) item h = cc

-- A resolution that has not used its fuel up.
abbrev pub Ends {ℓ} : {X : Type ℓ} → Resolution X → Type 0
Ends (value x) = Unit
Ends panicked = Unit
Ends exhausted = ⊥

>>=-Ends {ℓ κ} :
    {X : Type ℓ} {Y : Type κ} (m : Resolution X) (next : X → Resolution Y)
    → Ends m
    → ((x : X) → Ends (next x))
    → Ends (m >>= next)
>>=-Ends (value x) next h k = k x
>>=-Ends panicked next h k = tt
>>=-Ends exhausted next h k = elim h [ ]

module _ (arr : List Json) (visit : ℤ → Resolution Json) (ends : (num : ℤ) → Ends (visit num)) where
  resolve_value-Ends : (val : Json) → Ends (resolve_value arr visit val)
  unfolding resolve_value
  resolve_value-Ends (number num) =
      elim (is_reference arr num)
        as (λ b. Ends (elim b [ true ↦ visit (int_of num) | false ↦ value (number num) ])) [
          | true ↦ ends (int_of num)
          | false ↦ tt
        ]
  resolve_value-Ends null = tt
  resolve_value-Ends (bool b) = tt
  resolve_value-Ends (string s) = tt
  resolve_value-Ends (array items) = tt
  resolve_value-Ends (object fields) = tt

  resolve_items-Ends : (items : Items) → Ends (resolve_items arr visit items)
  unfolding resolve_items
  resolve_items-Ends nil = tt
  resolve_items-Ends (cons val items) =
      >>=-Ends _ _ (resolve_value-Ends val)
        (λ v. >>=-Ends _ _ (resolve_items-Ends items) (λ vs. tt))

  resolve_fields-Ends : (fields : Fields) → Ends (resolve_fields arr visit fields)
  unfolding resolve_fields
  resolve_fields-Ends end = tt
  resolve_fields-Ends (field k val fields) =
      >>=-Ends _ _ (resolve_value-Ends val)
        (λ v. >>=-Ends _ _ (resolve_fields-Ends fields) (λ vs. tt))

  tagged-Ends :
      (t : Tagged) (items : Items)
      → Ends (elim t [
        | reactive r ↦ visit r
        | empty_set ↦ value (array nil)
        | plain ↦ resolve_items arr visit items >>= λ out. value (array out)
      ])
  tagged-Ends (reactive r) items = ends r
  tagged-Ends empty_set items = tt
  tagged-Ends plain items = >>=-Ends _ _ (resolve_items-Ends items) (λ out. tt)

  resolve_item-Ends : (item : Json) → Ends (resolve_item arr visit item)
  unfolding resolve_item
  resolve_item-Ends (array items) = tagged-Ends (tag_of items) items
  resolve_item-Ends (object fields) = >>=-Ends _ _ (resolve_fields-Ends fields) (λ out. tt)
  resolve_item-Ends null = tt
  resolve_item-Ends (bool b) = tt
  resolve_item-Ends (number num) = tt
  resolve_item-Ends (string s) = tt

of_entry-Ends : (o : Option Json) → Ends (of_entry o)
of_entry-Ends none = tt
of_entry-Ends (some item) = tt

module _ (arr : List Json) (fuel : ℕ) (idx : ℤ) (visited : List ℤ) where
  pub resolve-seen :
      any (eq_ℤ idx) visited ≡ true → resolve arr (suc fuel) idx visited ≡ of_entry (at arr idx)
  unfolding resolve
  resolve-seen e = rw (resolve, e) refl

  pub resolve-outside :
      any (eq_ℤ idx) visited ≡ false
      → at arr idx ≡ none
      → resolve arr (suc fuel) idx visited ≡ panicked
  unfolding resolve
  resolve-outside e g = rw (resolve, e, g) refl

  pub resolve-entry :
      (item : Json)
      → any (eq_ℤ idx) visited ≡ false
      → at arr idx ≡ some item
      → resolve arr (suc fuel) idx visited
        ≡ resolve_item arr (λ num. resolve arr fuel num (idx ∷ visited)) item
  unfolding resolve
  resolve-entry item e g = rw (resolve, e, g) refl

resolve-Ends_fuel :
    (arr : List Json) (fuel : ℕ) (idx : ℤ) (visited : List ℤ)
    → unvisited (length arr) visited < fuel
    → Ends (resolve arr fuel idx visited)
resolve-Ends_fuel arr zero idx visited h = elim h [ ]
resolve-Ends_fuel arr (suc fuel) idx visited h = elim (Bool-cases (any (eq_ℤ idx) visited)) [
  | inl e ↦ rw (resolve-seen arr fuel idx visited e) (of_entry-Ends (at arr idx))
  | inr e ↦ elim (Option-cases (at arr idx)) [
    | inl g ↦ rw (resolve-outside arr fuel idx visited e g) tt
    | inr (item, g) ↦
        let (i, same, small) = at-some arr idx item g in
        let fewer : unvisited (length arr) (idx ∷ visited) < fuel =
          rw same (omega (arith, unvisited-cons (length arr) i visited small (rw (← same) e))) in
        rw (resolve-entry arr fuel idx visited item e g) (
          resolve_item-Ends arr (λ num. resolve arr fuel num (idx ∷ visited))
            (λ num. resolve-Ends_fuel arr fuel num (idx ∷ visited) fewer) item)
  ]
]

-- Resolving ends, however the references of a document form cycles: one call for each entry, and one
-- more, suffice.
pub resolve-Ends :
    (arr : List Json) (idx : ℤ) (fuel : ℕ) → length arr < fuel → Ends (resolve arr fuel idx [])
resolve-Ends arr idx fuel h =
    resolve-Ends_fuel arr fuel idx [] (omega (arith, unvisited-none (length arr)))
