-- ===== src/Common/Results.antt =====
-- A Go result with an error: a value, or the error's message.
use mathlib.Core.Path.{◌≡◌, refl}
use mathlib.Core.Logic.{◌⊎◌, inl, inr}
use syndi.Common.Texts.{Text}

pub data Result {κ} (V : Type κ) : Type κ where
  err : Text → Result V
  ok : V → Result V

-- What a result is, by cases.
pub Result-cases {κ} :
    {V : Type κ} (r : Result V) → ((v : V) × (r ≡ ok v)) ⊎ ((message : Text) × (r ≡ err message))
Result-cases (err message) = inr (message, refl)
Result-cases (ok v) = inl (v, refl)

-- An early return on an error.
infixl 5 ◌>>=◌
abbrev pub ◌>>=◌ {κ μ} : {V : Type κ} {W : Type μ} → Result V → (V → Result W) → Result W
◌>>=◌ (err message) next = err message
◌>>=◌ (ok v) next = next v

-- Code that did not return early had a value and went on with it.
pub >>=-eq-ok {κ μ} :
    {V : Type κ} {W : Type μ} (first : Result V) (next : V → Result W) {w : W}
    → (first >>= next) ≡ ok w
    → (v : V) × (first ≡ ok v) × (next v ≡ ok w)
>>=-eq-ok (err message) next e = cc
>>=-eq-ok (ok v) next e = (v, refl, e)
