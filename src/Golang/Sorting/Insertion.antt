-- ===== src/Golang/Sorting/Insertion.antt =====
-- Insertion sort, which meets the documentation of `sort.Slice`.
use mathlib.Core.List.{Permᴰ}
use mathlib.Core.List.Permᴰ
use syndi.Common.{
  ◌≡◌, refl, Bool, true, false, List, [], ◌∷◌, All-imp, All-perm, arith, Bool-cases, inl, inr,
  if◌then◌else◌,
}
use syndi.Golang.Sorting.{StrictWeak, IsOrdered, IsSort}

module _ {ℓ} {A : Type ℓ} (less : A → A → Bool) where
  abbrev insert : A → List A → List A
  insert x [] = x ∷ []
  insert x (y ∷ ys) = let rest = insert x ys in if less y x then y ∷ rest else x ∷ y ∷ ys

  abbrev pub insertion_sort : List A → List A
  insertion_sort [] = []
  insertion_sort (x ∷ xs) = insert x (insertion_sort xs)

  insert-permutes : (x : A) (ys : List A) → Permᴰ (insert x ys) (x ∷ ys)
  insert-permutes x [] = Permᴰ.refl (x ∷ [])
  insert-permutes x (y ∷ ys) = elim (Bool-cases (less y x)) [
    | inl e ↦ rw e (Permᴰ.trans (Permᴰ.cons refl (insert-permutes x ys)) (Permᴰ.swap refl refl))
    | inr e ↦ rw e (Permᴰ.refl (x ∷ y ∷ ys))
  ]

  insertion_sort-permutes : (xs : List A) → Permᴰ (insertion_sort xs) xs
  insertion_sort-permutes [] = Permᴰ.nil
  insertion_sort-permutes (x ∷ xs) =
      Permᴰ.trans (insert-permutes x (insertion_sort xs))
        (Permᴰ.cons refl (insertion_sort-permutes xs))

  module _ (order : StrictWeak less) where
    not_before : (x y z : A) → less y x ≡ false → less z y ≡ false → less z x ≡ false
    not_before x y z h k =
        ground (arith, order.trans z x y, order.trans y z x, order.incomparable x y z)

    asymmetric : (x y : A) → less y x ≡ true → less x y ≡ false
    asymmetric x y h = ground (arith, order.irrefl x, order.trans x y x)

    insert-IsOrdered : (x : A) (ys : List A) → IsOrdered less ys → IsOrdered less (insert x ys)
    insert-IsOrdered x [] h = (tt, tt)
    insert-IsOrdered x (y ∷ ys) h = elim (Bool-cases (less y x)) [
      | inl e ↦ rw e (
        All-perm (λ z. less z y ≡ false) (Permᴰ.symm (insert-permutes x ys))
            (asymmetric x y e, h.0),
        insert-IsOrdered x ys h.1,
      )
      | inr e ↦ rw e ((e, All-imp (λ z. not_before x y z e) ys h.0), h)
    ]

    insertion_sort-IsOrdered : (xs : List A) → IsOrdered less (insertion_sort xs)
    insertion_sort-IsOrdered [] = tt
    insertion_sort-IsOrdered (x ∷ xs) =
        insert-IsOrdered x (insertion_sort xs) (insertion_sort-IsOrdered xs)

pub insertion_sort-IsSort {ℓ} : {A : Type ℓ} → IsSort {A = A} insertion_sort
insertion_sort-IsSort = record {
  permutes = insertion_sort-permutes;
  orders = λ less xs order. insertion_sort-IsOrdered less order xs;
}
