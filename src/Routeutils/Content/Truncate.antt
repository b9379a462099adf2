-- ===== src/Routeutils/Content/Truncate.antt =====
-- Truncate of internal/routeutils/content.go.
use syndi.Common.{
  ℕ, zero, suc, ◌≤◌, ◌<◌, false, List, [], ◌∷◌, ap, ◌∙◌, ◌++◌, Option, none, some, Text, ℤ, pos,
  negsuc, leb, length, take, get_elem?, if◌then◌else◌, ◌≡◌, refl, sym, arith, ◌⊎◌, inl, inr, ◌≢◌,
  Bool-cases, ◌==◌, leb→le,
}
use syndi.Golang.Strings.{last_index}

-- The cut at the last blank, if it is not at the front.
abbrev pub cut_at_space : Option ℕ → Text → Text
cut_at_space none t = t
cut_at_space (some zero) t = t
cut_at_space (some (suc i)) t = take (suc i) t

unfoldable pub truncate : Text → ℤ → Text → Text
truncate text (negsuc n) suffix = text
truncate text (pos max_length) suffix =
    let truncated = take max_length text in
    if leb (length text) max_length
    then text
    else cut_at_space (last_index truncated b' ') truncated ++ suffix

-- The last index of a code point has it, and no later index has.
abbrev IsLast : Text → ℕ → Option ℕ → Type 0
IsLast s c none = (j : ℕ) → get_elem? s j ≢ some c
IsLast s c (some i) = (get_elem? s i ≡ some c) × ((j : ℕ) → i < j → get_elem? s j ≢ some c)

IsLast-cons :
    (d : ℕ) (s : Text) (c : ℕ) (o : Option ℕ)
    → IsLast s c o
    → IsLast (d ∷ s) c (elim o [ some i ↦ some (suc i) | none ↦ if d == c then some 0 else none ])
IsLast-cons d s c (some i) (here, later) = (here, past)
  where
    past : (j : ℕ) → suc i < j → get_elem? (d ∷ s) j ≢ some c
    past zero p = omega (arith, p)
    past (suc j) p = later j (omega (arith, p))
IsLast-cons d s c none h = elim (Bool-cases (d == c)) [
  | inl e ↦ rw e (ground (arith, e), past)
  | inr e ↦ rw e (only e)
]
  where
    past : (j : ℕ) → 0 < j → get_elem? (d ∷ s) j ≢ some c
    past zero p = omega (arith, p)
    past (suc j) p = h j

    only : (d == c) ≡ false → (j : ℕ) → get_elem? (d ∷ s) j ≢ some c
    only e zero = λ q. ground (arith, e, q)
    only e (suc j) = h j

last_index-IsLast : (s : Text) (c : ℕ) → IsLast s c (last_index s c)
unfolding last_index
last_index-IsLast [] c = λ j e. cc
last_index-IsLast (d ∷ s) c = IsLast-cons d s c (last_index s c) (last_index-IsLast s c)

module _ {ℓ} {A : Type ℓ} where
  get_elem?-take : (n i : ℕ) (xs : List A) → i < n → get_elem? (take n xs) i ≡ get_elem? xs i
  get_elem?-take zero i xs p = ground arith
  get_elem?-take (suc n) i [] p = refl
  get_elem?-take (suc n) zero (x ∷ xs) p = refl
  get_elem?-take (suc n) (suc i) (x ∷ xs) p = get_elem?-take n i xs (omega (arith, p))

  get_elem?-take-lt : (n i : ℕ) (xs : List A) {x : A} → get_elem? (take n xs) i ≡ some x → i < n
  get_elem?-take-lt zero i xs e = cc
  get_elem?-take-lt (suc n) i [] e = cc
  get_elem?-take-lt (suc n) zero (y ∷ xs) e = omega arith
  get_elem?-take-lt (suc n) (suc i) (y ∷ xs) e = omega (arith, get_elem?-take-lt n i xs e)

  take-take_shorter : (k n : ℕ) (xs : List A) → k ≤ n → take k (take n xs) ≡ take k xs
  take-take_shorter zero n xs p = refl
  take-take_shorter (suc k) zero xs p = ground arith
  take-take_shorter (suc k) (suc n) [] p = refl
  take-take_shorter (suc k) (suc n) (x ∷ xs) p =
      ap (◌∷◌ x) (take-take_shorter k n xs (omega (arith, p)))

-- Where a cut is made: at the last blank before the limit that is not at the front, and at the limit
-- if there is none.
abbrev pub CutAt : Text → ℕ → ℕ → Type 0
CutAt text max_length k =
    ((k ≡ max_length) × ((j : ℕ) → 0 < j → j < max_length → get_elem? text j ≢ some b' '))
    ⊎ ((0 < k)
        × (k < max_length)
        × (get_elem? text k ≡ some b' ')
        × ((j : ℕ) → k < j → j < max_length → get_elem? text j ≢ some b' '))

module _ (text : Text) (max_length : ℕ) where
  cut_at_space-CutAt :
      (o : Option ℕ)
      → IsLast (take max_length text) b' ' o
      → (k : ℕ) × CutAt text max_length k × (cut_at_space o (take max_length text) ≡ take k text)
  cut_at_space-CutAt none h =
      (max_length, inl (refl, λ j p q e. h j (get_elem?-take max_length j text q ∙ e)), refl)
  cut_at_space-CutAt (some zero) (here, later) =
      (max_length, inl (refl, λ j p q e. later j p (get_elem?-take max_length j text q ∙ e)), refl)
  cut_at_space-CutAt (some (suc i)) (here, later) =
      let before : suc i < max_length = get_elem?-take-lt max_length (suc i) text here in
      (
        suc i,
        inr (
          omega arith,
          before,
          sym (get_elem?-take max_length (suc i) text before) ∙ here,
          λ j p q e. later j p (get_elem?-take max_length j text q ∙ e),
        ),
        take-take_shorter (suc i) max_length text (omega (arith, before)),
      )

-- A text of at most `max_length` code points is returned as it is; another is cut at the last blank
-- before the limit that is not at the front, at the limit if there is none, and followed by the
-- suffix.
pub truncate-cut :
    (text suffix : Text) (max_length : ℕ)
    → (length text ≤ max_length × (truncate text (pos max_length) suffix ≡ text))
      ⊎ (max_length < length text
          × (k : ℕ) × CutAt text max_length k
          × (truncate text (pos max_length) suffix ≡ take k text ++ suffix))
unfolding truncate
truncate-cut text suffix max_length = elim (Bool-cases (leb (length text) max_length)) [
  | inl e ↦ inl (leb→le (length text) max_length e, rw e refl)
  | inr e ↦
      let (k, cut, q) =
        cut_at_space-CutAt text max_length (last_index (take max_length text) b' ')
          (last_index-IsLast (take max_length text) b' ') in
      inr (ground (arith, e), k, cut, rw (e, q) refl)
]
