-- ===== src/Routes/Huxiu/Nuxt/Negative.antt =====
-- Negative numbers, by which such documents stand for undefined values, holes and special numbers.
use syndi.Common.{
  ℕ, zero, suc, ◌-◌, ◌^◌, ltb_ℤ, Bool-cases, true, List, [], ◌∷◌, some, Text, length, ℤ, pos,
  negsuc, ◌≡◌, ◌⊎◌, inl, inr, refl, arith,
}
use syndi.Routes.Huxiu.Nuxt.{
  Json, number, object, Fields, field, Resolution, value, panicked, exhausted, ◌>>=◌, at,
  is_reference, resolve_value, resolve_fields, resolve_item, resolve, Number, int_of,
}
use syndi.Routes.Huxiu.Nuxt.Resolved.{Ends, resolve-entry, resolve-Ends}

-- An object's field is a number of -1 or less.
pub data HasNegative : Fields → Type 0 where
  here :
      (k : Text) (num : Number) (n : ℕ) (fields : Fields)
      → num.whole ≡ negsuc n
      → HasNegative (field k (number num) fields)
  later :
      (k : Text) (v : Json) {fields : Fields} → HasNegative fields → HasNegative (field k v fields)

abbrev Fails {ℓ} : {X : Type ℓ} → Resolution X → Type 0
Fails (value x) = ⊥
Fails panicked = Unit
Fails exhausted = Unit

>>=-Fails {ℓ κ} :
    {X : Type ℓ} {Y : Type κ} (m : Resolution X) (next : X → Resolution Y)
    → Fails m ⊎ ((x : X) → Fails (next x))
    → Fails (m >>= next)
>>=-Fails (value x) next (inl h) = elim h [ ]
>>=-Fails (value x) next (inr k) = k x
>>=-Fails panicked next h = tt
>>=-Fails exhausted next h = tt

int_of-negative : (num : Number) (n : ℕ) → num.whole ≡ negsuc n → (m : ℕ) × (int_of num ≡ negsuc m)
unfolding int_of
int_of-negative num n h =
    let small : ltb_ℤ (negsuc n) (pos (2 ^ 63)) ≡ true = ground arith in
    elim (Bool-cases (ltb_ℤ (negsuc n) (negsuc (2 ^ 63 - 1)))) [
      | inl e ↦ (2 ^ 63 - 1, rw (h, small, e) refl)
      | inr e ↦ (n, rw (h, small, e) refl)
    ]

module _ (arr : List Json) (visit : ℤ → Resolution Json)
    (fails : (n : ℕ) → Fails (visit (negsuc n))) where
  resolve_value-Fails :
      (num : Number) (n : ℕ) → num.whole ≡ negsuc n → Fails (resolve_value arr visit (number num))
  unfolding resolve_value
  resolve_value-Fails num n h =
      let (m, e) = int_of-negative num n h in
      let below : is_reference arr num ≡ true = rw e (ground arith) in
      rw (resolve_value, below, e) (fails m)

  resolve_fields-Fails :
      {fields : Fields} → HasNegative fields → Fails (resolve_fields arr visit fields)
  unfolding resolve_fields
  resolve_fields-Fails (here k num n fields h) = >>=-Fails _ _ (inl (resolve_value-Fails num n h))
  resolve_fields-Fails (later k v h) =
      >>=-Fails _ _ (inr (λ x. >>=-Fails _ _ (inl (resolve_fields-Fails h))))

object-Fails :
    (arr : List Json) (visit : ℤ → Resolution Json)
    → ((n : ℕ) → Fails (visit (negsuc n)))
    → (fields : Fields) → HasNegative fields
    → Fails (resolve_item arr visit (object fields))
unfolding resolve_item
object-Fails arr visit fails fields h = >>=-Fails _ _ (inl (resolve_fields-Fails arr visit fails h))

negative-Fails : (arr : List Json) (fuel n i : ℕ) → Fails (resolve arr fuel (negsuc n) (pos i ∷ []))
unfolding resolve
negative-Fails arr zero n i = tt
negative-Fails arr (suc fuel) n i = tt

panics : (r : Resolution Json) → Ends r → Fails r → r ≡ panicked
panics (value v) h k = elim k [ ]
panics panicked h k = refl
panics exhausted h k = elim h [ ]

-- An object with a number of -1 or less in a field makes the code panic.
pub resolve-negative :
    (arr : List Json) (i : ℕ) (fields : Fields)
    → at arr (pos i) ≡ some (object fields)
    → HasNegative fields
    → resolve arr (suc (length arr)) (pos i) [] ≡ panicked
resolve-negative arr i fields g h =
    let visit : ℤ → Resolution Json = λ num. resolve arr (length arr) num (pos i ∷ []) in
    panics (resolve arr (suc (length arr)) (pos i) [])
      (resolve-Ends arr (pos i) (suc (length arr)) (omega arith))
      (rw (resolve-entry arr (length arr) (pos i) [] (object fields) refl g)
        (object-Fails arr visit (λ n. negative-Fails arr (length arr) n i) fields h))
