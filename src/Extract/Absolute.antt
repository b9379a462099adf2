-- ===== src/Extract/Absolute.antt =====
-- The links that AbsoluteURL of internal/parser/extract.go makes.
use syndi.Common.{
  ℕ, zero, suc, List, Bool, true, false, ◌||◌, [], ◌∷◌, ◌++◌, Text, codes, is_empty, Bool-cases,
  Option-cases, if◌then◌else◌, ◌≡◌, refl, inl, inr,
}
use syndi.Golang.Strings.{has_prefix, last_index, split_from, cons_first}
use syndi.Extract.{absolute_url, root_of, beside}

abbrev pub is_absolute : Text → Bool
is_absolute u = has_prefix u (codes "http://") || has_prefix u (codes "https://")

abbrev pub scheme : Bool → Text
scheme true = codes "https://"
scheme false = codes "http://"

abbrev base_of : Bool → Text → Text
base_of secure rest = scheme secure ++ rest

protocol_relative-absolute :
    (b : Bool) (href : Text)
    → has_prefix href (codes "//") ≡ true
    → is_absolute (if b then codes "https:" ++ href else codes "http:" ++ href) ≡ true
unfolding has_prefix
protocol_relative-absolute true href h = rw h refl
protocol_relative-absolute false href h = rw h refl

-- A split is never empty.
abbrev pub AtLeastOne : List Text → Type 0
AtLeastOne ws = (w : Text) × (vs : List Text) × (ws ≡ w ∷ vs)

cons_first-AtLeastOne : (c : ℕ) (ws : List Text) → AtLeastOne (cons_first c ws)
cons_first-AtLeastOne c [] = (c ∷ [], [], refl)
cons_first-AtLeastOne c (w ∷ ws) = (c ∷ w, ws, refl)

if-AtLeastOne :
    (b : Bool) (ws vs : List Text)
    → AtLeastOne ws
    → AtLeastOne vs
    → AtLeastOne (if b then ws else vs)
if-AtLeastOne true ws vs h k = h
if-AtLeastOne false ws vs h k = k

split_from-AtLeastOne : (skip : ℕ) (sep s : Text) → AtLeastOne (split_from skip sep s)
unfolding split_from
split_from-AtLeastOne skip sep [] = ([], [], refl)
split_from-AtLeastOne (suc skip) sep (c ∷ s) = split_from-AtLeastOne skip sep s
split_from-AtLeastOne zero sep (c ∷ s) =
    if-AtLeastOne (has_prefix (c ∷ s) sep) _ _ ([], _, refl) (cons_first-AtLeastOne c _)

root_of-absolute :
    (secure : Bool) (rest href : Text)
    → is_absolute
        (root_of (split_from 0 (codes "/") (base_of secure rest)) (base_of secure rest) href)
      ≡ true
unfolding split_from has_prefix
root_of-absolute true rest href =
    let (host, path, e) = split_from-AtLeastOne 0 (codes "/") rest in rw e refl
root_of-absolute false rest href =
    let (host, path, e) = split_from-AtLeastOne 0 (codes "/") rest in rw e refl

beside-absolute :
    (secure : Bool) (rest href : Text)
    → is_absolute (beside (last_index (base_of secure rest) b'/') (base_of secure rest) href) ≡ true
unfolding last_index has_prefix
beside-absolute true rest href = elim (Option-cases (last_index rest b'/')) [
  | inl e ↦ rw e refl
  | inr (i, e) ↦ rw e refl
]
beside-absolute false rest href = elim (Option-cases (last_index rest b'/')) [
  | inl e ↦ rw e refl
  | inr (i, e) ↦ rw e refl
]

-- A link that is not empty is absolute, where the base starts with one of the two schemes.
pub absolute_url-absolute :
    (secure : Bool) (rest href : Text)
    → is_empty href ≡ false
    → is_absolute (absolute_url (scheme secure ++ rest) href) ≡ true
unfolding absolute_url
absolute_url-absolute secure rest href h = elim (Bool-cases (is_absolute href)) [
  | inl e ↦ rw (h, e) e
  | inr e ↦ elim (Bool-cases (has_prefix href (codes "//"))) [
    | inl f ↦
        rw (h, e, f)
          (protocol_relative-absolute (has_prefix (base_of secure rest) (codes "https://")) href f)
    | inr f ↦ elim (Bool-cases (has_prefix href (codes "/"))) [
      | inl g ↦ rw (h, e, f, g) (root_of-absolute secure rest href)
      | inr g ↦ rw (h, e, f, g) (beside-absolute secure rest href)
    ]
  ]
]
