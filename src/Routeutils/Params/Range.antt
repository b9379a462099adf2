-- ===== src/Routeutils/Params/Range.antt =====
-- What the readers of internal/routeutils/params.go can return.
use mathlib.Core.List.{Memᴰ}
use syndi.Common.{
  ◌≡◌, refl, ◌∙◌, ap, Bool, true, List, [], ◌∷◌, Option, none, some, arith, Text, ℤ, pos, ltb_ℤ,
  ◌<ℤ◌, ◌≤ℤ◌, Bool-cases, inl, inr, ◌⊎◌,
}
use syndi.Golang.Strings.{trim_space}
use syndi.Golang.Numbers.{atoi}
use syndi.Routeutils.Params.{
  positive_or, clamp, parse_positive_int, find_fold, second_choice, parse_enum,
}

positive : (n otherwise : ℤ) → pos 0 <ℤ otherwise → pos 0 <ℤ positive_or n otherwise
positive n otherwise h = ground arith

clamp-range :
    (read : Option ℤ) (d m : ℤ)
    → pos 0 <ℤ d
    → pos 0 <ℤ m
    → (pos 0 <ℤ clamp read d m)
      × ((clamp read d m ≤ℤ m) ⊎ (clamp read d m ≡ d))
      × ((n : ℤ) → read ≡ some n → pos 0 <ℤ n → n ≤ℤ m → clamp read d m ≡ n)
clamp-range none d m h k = (h, inr refl, λ n e p q. absurd (cc))
clamp-range (some x) d m h k = elim (Bool-cases (ltb_ℤ (pos 0) x)) [
  | inr low ↦ rw low (h, inr refl, λ n e p q. ground (arith, e, p, low))
  | inl high ↦ elim (Bool-cases (ltb_ℤ m x)) [
    | inl over ↦ rw (high, over) (k, inl (omega arith), λ n e p q. ground (arith, e, q, over))
    | inr under ↦
        rw (high, under)
          (ground (arith, high), inl (ground (arith, under)), λ n e p q. ground (arith, e))
  ]
]

-- The number returned is positive, and at most the greatest one allowed unless it is the default; a
-- positive number in the text that is not too great is returned as it is. A default that is not
-- positive counts as 1, and a greatest number that is not positive as the default.
pub parse_positive_int-range :
    (raw : Text) (default_value max_value : ℤ)
    → (pos 0 <ℤ parse_positive_int raw default_value max_value)
      × ((parse_positive_int raw default_value max_value
            ≤ℤ positive_or max_value (positive_or default_value (pos 1)))
          ⊎ (parse_positive_int raw default_value max_value ≡ positive_or default_value (pos 1)))
      × ((n : ℤ)
          → atoi (trim_space raw) ≡ some n
          → pos 0 <ℤ n
          → n ≤ℤ positive_or max_value (positive_or default_value (pos 1))
          → parse_positive_int raw default_value max_value ≡ n)
unfolding parse_positive_int
parse_positive_int-range raw default_value max_value =
    let d = positive default_value (pos 1) (omega arith) in
    clamp-range (atoi (trim_space raw)) (positive_or default_value (pos 1))
      (positive_or max_value (positive_or default_value (pos 1))) d
      (positive max_value (positive_or default_value (pos 1)) d)

module _ (equal_fold : Text → Text → Bool) where
  -- The first candidate that equals the text up to case.
  find_fold-found :
      (s c : Text) (cs : List Text)
      → find_fold equal_fold s cs ≡ some c
      → Memᴰ c cs × (equal_fold s c ≡ true)
  unfolding find_fold
  find_fold-found s c [] h = absurd (cc)
  find_fold-found s c (x ∷ cs) h = elim (Bool-cases (equal_fold s x)) [
    | inl same ↦
        let e : c ≡ x = ground (arith, h, same) in (Memᴰ.head e, ap (equal_fold s) e ∙ same)
    | inr other ↦ let (m, e) = find_fold-found s c cs (ground (arith, h, other)) in (Memᴰ.tail m, e)
  ]

  chosen :
      (a b : Option Text) (first : Text) (cs : List Text)
      → ((c : Text) → a ≡ some c → Memᴰ c (first ∷ cs))
      → ((c : Text) → b ≡ some c → Memᴰ c (first ∷ cs))
      → Memᴰ (second_choice equal_fold a b first) (first ∷ cs)
  chosen (some c) b first cs f g = f c refl
  chosen none (some c) first cs f g = g c refl
  chosen none none first cs f g = Memᴰ.head refl

  -- Where options are allowed, the one returned is among them, and it is the text of the request up
  -- to case if one of them is.
  pub parse_enum-allowed :
      (raw default_value first : Text) (rest : List Text)
      → Memᴰ (parse_enum equal_fold raw default_value (first ∷ rest)) (first ∷ rest)
        × ((c : Text)
            → find_fold equal_fold (trim_space raw) (first ∷ rest) ≡ some c
            → (parse_enum equal_fold raw default_value (first ∷ rest) ≡ c)
              × (equal_fold (trim_space raw) c ≡ true))
  unfolding parse_enum
  parse_enum-allowed raw default_value first rest = (
    chosen _ _ first rest (λ c e. (find_fold-found (trim_space raw) c (first ∷ rest) e).0)
        (λ c e. (find_fold-found (trim_space default_value) c (first ∷ rest) e).0),
    λ c e. (rw e, (find_fold-found (trim_space raw) c (first ∷ rest) e).1),
  )
