-- ===== src/Routes/Huxiu/Nuxt/Sound.antt =====
-- Documents whose numbers do not convert to negative indices.
use syndi.Common.{
  ℕ, zero, suc, ◌<◌, Bool, true, false, List, [], ◌∷◌, any, some, length, get_elem?, ℤ, pos, negsuc,
  eq_ℤ, ltb_ℤ, ◌≡◌, inl, inr, refl, arith, Bool-cases, All,
}
use syndi.Routes.Huxiu.Nuxt.{
  Json, null, bool, number, string, array, object, Items, nil, cons, Fields, end, field, Resolution,
  value, panicked, exhausted, ◌>>=◌, is_reference, resolve_value, resolve_items, resolve_fields,
  Tagged, reactive, empty_set, plain, tag_of, resolve_item, resolve, Number, int_of,
}
use syndi.Routes.Huxiu.Nuxt.Resolved.{Ends, resolve-seen, resolve-entry, resolve-Ends}

abbrev pub IsIndex : ℕ → ℤ → Type 0
IsIndex size (pos i) = i < size
IsIndex size (negsuc i) = ⊥

abbrev pub IsNatural : ℤ → Type 0
IsNatural (pos n) = Unit
IsNatural (negsuc n) = ⊥

-- A number does not convert to a negative index, as a negative one and one of 2^63 or more do.
abbrev pub IsSoundValue : Json → Type 0
IsSoundValue (number num) = IsNatural (int_of num)
IsSoundValue _ = Unit

abbrev pub AreSoundItems : Items → Type 0
AreSoundItems nil = Unit
AreSoundItems (cons v items) = IsSoundValue v × AreSoundItems items

abbrev pub AreSoundFields : Fields → Type 0
AreSoundFields end = Unit
AreSoundFields (field k v fields) = IsSoundValue v × AreSoundFields fields

abbrev pub IsSoundArray : ℕ → Tagged → Items → Type 0
IsSoundArray size (reactive r) items = IsIndex size r
IsSoundArray size empty_set items = Unit
IsSoundArray size plain items = AreSoundItems items

-- An entry of an array of `size` entries whose numbers do not convert to negative indices, and which
-- refers to an entry if it is reactive.
abbrev pub IsSound : ℕ → Json → Type 0
IsSound size (array items) = IsSoundArray size (tag_of items) items
IsSound size (object fields) = AreSoundFields fields
IsSound size _ = Unit

abbrev Safe {ℓ} : {X : Type ℓ} → Resolution X → Type 0
Safe (value x) = Unit
Safe panicked = ⊥
Safe exhausted = Unit

>>=-Safe {ℓ κ} :
    {X : Type ℓ} {Y : Type κ} (m : Resolution X) (next : X → Resolution Y)
    → Safe m
    → ((x : X) → Safe (next x))
    → Safe (m >>= next)
>>=-Safe (value x) next h k = k x
>>=-Safe panicked next h k = elim h [ ]
>>=-Safe exhausted next h k = tt

module _ (arr : List Json) (visit : ℤ → Resolution Json)
    (safe : (i : ℕ) → i < length arr → Safe (visit (pos i))) where
  reference-Safe :
      (b : Bool) (num : Number) (idx : ℤ)
      → idx ≡ int_of num
      → ltb_ℤ idx (pos (length arr)) ≡ b
      → IsNatural idx
      → Safe (elim b as (λ _. Resolution Json) [ true ↦ visit idx | false ↦ value (number num) ])
  reference-Safe true num (pos n) same e h = safe n (ground (arith, e))
  reference-Safe true num (negsuc n) same e h = elim h [ ]
  reference-Safe false num idx same e h = tt

  resolve_value-Safe : (val : Json) → IsSoundValue val → Safe (resolve_value arr visit val)
  unfolding resolve_value
  resolve_value-Safe (number num) h =
      reference-Safe (is_reference arr num) num (int_of num) refl refl h
  resolve_value-Safe null h = tt
  resolve_value-Safe (bool b) h = tt
  resolve_value-Safe (string s) h = tt
  resolve_value-Safe (array items) h = tt
  resolve_value-Safe (object fields) h = tt

  resolve_items-Safe : (items : Items) → AreSoundItems items → Safe (resolve_items arr visit items)
  unfolding resolve_items
  resolve_items-Safe nil h = tt
  resolve_items-Safe (cons val items) h =
      >>=-Safe _ _ (resolve_value-Safe val h.0)
        (λ v. >>=-Safe _ _ (resolve_items-Safe items h.1) (λ vs. tt))

  resolve_fields-Safe :
      (fields : Fields) → AreSoundFields fields → Safe (resolve_fields arr visit fields)
  unfolding resolve_fields
  resolve_fields-Safe end h = tt
  resolve_fields-Safe (field k val fields) h =
      >>=-Safe _ _ (resolve_value-Safe val h.0)
        (λ v. >>=-Safe _ _ (resolve_fields-Safe fields h.1) (λ vs. tt))

  tagged-Safe :
      (t : Tagged) (items : Items)
      → IsSoundArray (length arr) t items
      → Safe (elim t [
        | reactive r ↦ visit r
        | empty_set ↦ value (array nil)
        | plain ↦ resolve_items arr visit items >>= λ out. value (array out)
      ])
  tagged-Safe (reactive (pos i)) items h = safe i h
  tagged-Safe (reactive (negsuc i)) items h = elim h [ ]
  tagged-Safe empty_set items h = tt
  tagged-Safe plain items h = >>=-Safe _ _ (resolve_items-Safe items h) (λ out. tt)

  resolve_item-Safe : (item : Json) → IsSound (length arr) item → Safe (resolve_item arr visit item)
  unfolding resolve_item
  resolve_item-Safe (array items) h = tagged-Safe (tag_of items) items h
  resolve_item-Safe (object fields) h = >>=-Safe _ _ (resolve_fields-Safe fields h) (λ out. tt)
  resolve_item-Safe null h = tt
  resolve_item-Safe (bool b) h = tt
  resolve_item-Safe (number num) h = tt
  resolve_item-Safe (string s) h = tt

get_elem?-within : (xs : List Json) (i : ℕ) → i < length xs → (x : Json) × (get_elem? xs i ≡ some x)
get_elem?-within [] i h = absurd (omega arith)
get_elem?-within (x ∷ xs) zero h = (x, refl)
get_elem?-within (x ∷ xs) (suc i) h = get_elem?-within xs i (omega arith)

get_elem?-All :
    (P : Json → Type 0) (xs : List Json) (i : ℕ) (x : Json)
    → All P xs
    → get_elem? xs i ≡ some x
    → P x
get_elem?-All P [] i x h e = cc
get_elem?-All P (y ∷ xs) zero x h e = let same : y ≡ x = cc in rw (← same) h.0
get_elem?-All P (y ∷ xs) (suc i) x h e = get_elem?-All P xs i x h.1 e

resolve-Safe :
    (arr : List Json) (fuel i : ℕ) (visited : List ℤ)
    → All (IsSound (length arr)) arr
    → i < length arr
    → Safe (resolve arr fuel (pos i) visited)
unfolding resolve
resolve-Safe arr zero i visited sound h = tt
resolve-Safe arr (suc fuel) i visited sound h =
    let (item, g) = get_elem?-within arr i h in
    elim (Bool-cases (any (eq_ℤ (pos i)) visited)) [
      | inl e ↦ rw (resolve-seen arr fuel (pos i) visited e, g) tt
      | inr e ↦ rw (resolve-entry arr fuel (pos i) visited item e g) (
          resolve_item-Safe arr (λ num. resolve arr fuel num (pos i ∷ visited))
            (λ j small. resolve-Safe arr fuel j (pos i ∷ visited) sound small) item
            (get_elem?-All (IsSound (length arr)) arr i item sound g))
    ]

resolved : (r : Resolution Json) → Ends r → Safe r → (v : Json) × (r ≡ value v)
resolved (value v) h k = (v, refl)
resolved panicked h k = elim k [ ]
resolved exhausted h k = elim h [ ]

-- An entry of a document without numbers that convert to a negative index (negative ones, and those of
-- 2^63 or more on amd64), whose reactive entries refer to entries, resolves to a value.
pub resolve-value :
    (arr : List Json) (i : ℕ)
    → All (IsSound (length arr)) arr
    → i < length arr
    → (v : Json) × (resolve arr (suc (length arr)) (pos i) [] ≡ value v)
resolve-value arr i sound h =
    resolved (resolve arr (suc (length arr)) (pos i) [])
      (resolve-Ends arr (pos i) (suc (length arr)) (omega arith))
      (resolve-Safe arr (suc (length arr)) i [] sound h)
