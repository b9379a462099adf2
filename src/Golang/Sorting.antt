-- ===== src/Golang/Sorting.antt =====
-- `sort.Slice` by its documentation: it permutes the slice and, if `less` is a strict weak order,
-- leaves no element less than one before it. The order of equal elements is not specified.
pub mod Insertion
use mathlib.Core.List.{Permᴰ}
use syndi.Common.{◌≡◌, Bool, true, false, List, [], ◌∷◌, All}

pub record StrictWeak {ℓ} {A : Type ℓ} (less : A → A → Bool) : Type ℓ where
  pub irrefl : (a : A) → less a a ≡ false
  pub trans : (a b c : A) → less a b ≡ true → less b c ≡ true → less a c ≡ true
  pub incomparable :
      (a b c : A)
      → less a b ≡ false
      → less b a ≡ false
      → less b c ≡ false
      → less c b ≡ false
      → (less a c ≡ false) × (less c a ≡ false)

-- No element is less than one that stands before it.
abbrev pub IsOrdered {ℓ} : {A : Type ℓ} → (A → A → Bool) → List A → Type ℓ
IsOrdered less [] = Unit
IsOrdered less (x ∷ xs) = All (λ y. less y x ≡ false) xs × IsOrdered less xs

pub record IsSort {ℓ} {A : Type ℓ} (sort : (A → A → Bool) → List A → List A) : Type ℓ where
  pub permutes : (less : A → A → Bool) (xs : List A) → Permᴰ (sort less xs) xs
  pub orders : (less : A → A → Bool) (xs : List A) → StrictWeak less → IsOrdered less (sort less xs)
