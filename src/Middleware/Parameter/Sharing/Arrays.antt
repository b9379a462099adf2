-- ===== src/Middleware/Parameter/Sharing/Arrays.antt =====
-- Arrays and slices of the heap of internal/middleware/parameter.go.
use syndi.Common.{
  ℕ, zero, suc, ◌<◌, ◌≤◌, ◌≡◌, refl, ap, List, [], ◌∷◌, ◌++◌, map, some, arith, length, take,
  get_elem?, set,
}
use syndi.Models.{Item}
use syndi.Middleware.Parameter.{shorten}
use syndi.Middleware.Parameter.Sharing.{Heap, shorten_first}

pub get_elem?-append :
    (h : Heap) (xs : List Item) (j : ℕ) → j < length h → get_elem? (h ++ xs ∷ []) j ≡ get_elem? h j
get_elem?-append [] xs j p = absurd (omega arith)
get_elem?-append (y ∷ h) xs zero p = refl
get_elem?-append (y ∷ h) xs (suc j) p = get_elem?-append h xs j (omega arith)

pub get_elem?-last : (h : Heap) (xs : List Item) → get_elem? (h ++ xs ∷ []) (length h) ≡ some xs
get_elem?-last [] xs = refl
get_elem?-last (y ∷ h) xs = get_elem?-last h xs

pub get_elem?-set_ne :
    (h : Heap) (i j : ℕ) (xs : List Item) → j < i → get_elem? (set h i xs) j ≡ get_elem? h j
get_elem?-set_ne [] i j xs p = refl
get_elem?-set_ne (y ∷ h) zero j xs p = absurd (omega arith)
get_elem?-set_ne (y ∷ h) (suc i) zero xs p = refl
get_elem?-set_ne (y ∷ h) (suc i) (suc j) xs p = get_elem?-set_ne h i j xs (omega arith)

pub get_elem?-set_self :
    (h : Heap) (i : ℕ) (xs : List Item) → i < length h → get_elem? (set h i xs) i ≡ some xs
get_elem?-set_self [] i xs p = absurd (omega arith)
get_elem?-set_self (y ∷ h) zero xs p = refl
get_elem?-set_self (y ∷ h) (suc i) xs p = get_elem?-set_self h i xs (omega arith)

pub length-set : (h : Heap) (i : ℕ) (xs : List Item) → length (set h i xs) ≡ length h
length-set [] i xs = refl
length-set (y ∷ h) zero xs = refl
length-set (y ∷ h) (suc i) xs = ap suc (length-set h i xs)

pub take-length : (xs : List Item) → take (length xs) xs ≡ xs
take-length [] = refl
take-length (x ∷ xs) = ap (◌∷◌ x) (take-length xs)

pub take-take : (m n : ℕ) (xs : List Item) → m ≤ n → take m (take n xs) ≡ take m xs
take-take zero n xs p = refl
take-take (suc m) zero xs p = absurd (omega arith)
take-take (suc m) (suc n) [] p = refl
take-take (suc m) (suc n) (x ∷ xs) p = ap (◌∷◌ x) (take-take m n xs (omega arith))

pub take-shorten_first :
    (m n : ℕ) (xs : List Item) → take n (shorten_first m n xs) ≡ map (shorten m) (take n xs)
unfolding shorten_first
take-shorten_first m zero xs = refl
take-shorten_first m (suc n) [] = refl
take-shorten_first m (suc n) (x ∷ xs) = ap (◌∷◌ (shorten m x)) (take-shorten_first m n xs)

pub length-shorten_first : (m n : ℕ) (xs : List Item) → length (shorten_first m n xs) ≡ length xs
unfolding shorten_first
length-shorten_first m zero xs = refl
length-shorten_first m (suc n) [] = refl
length-shorten_first m (suc n) (x ∷ xs) = ap suc (length-shorten_first m n xs)
