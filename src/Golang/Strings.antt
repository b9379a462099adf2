-- ===== src/Golang/Strings.antt =====
-- Functions of Go's package strings, over texts.
use mathlib.Core.List.{reverse}
use mathlib.Core.Option
use syndi.Common.{
  ℕ, zero, suc, ◌+◌, ◌-◌, length, Bool, true, false, ◌&&◌, ◌||◌, [], ◌∷◌, ◌++◌, Option, none, some,
  List, Text, leb, ◌==◌, if◌then◌else◌,
}

-- `unicode.IsSpace`.
unfoldable pub is_space : ℕ → Bool
is_space c =
    leb 0x9 c && leb c 0xd
    || c == 0x20
    || c == 0x85
    || c == 0xa0
    || c == 0x1680
    || leb 0x2000 c && leb c 0x200a
    || c == 0x2028
    || c == 0x2029
    || c == 0x202f
    || c == 0x205f
    || c == 0x3000

unfoldable pub trim_left : (ℕ → Bool) → Text → Text
trim_left p [] = []
trim_left p (c ∷ s) = let rest = trim_left p s in if p c then rest else c ∷ s

-- `strings.TrimFunc`: without the leading and trailing code points that satisfy `p`.
unfoldable pub trim_func : (ℕ → Bool) → Text → Text
unfolding trim_left
trim_func p s = reverse (trim_left p (reverse (trim_left p s)))

unfoldable pub trim_space : Text → Text
unfolding trim_func is_space
trim_space s = trim_func is_space s

unfoldable pub has_prefix : Text → Text → Bool
has_prefix s [] = true
has_prefix [] (c ∷ p) = false
has_prefix (d ∷ s) (c ∷ p) = d == c && has_prefix s p

-- `strings.TrimPrefix` with a prefix of one code point.
unfoldable pub trim_prefix : Text → ℕ → Text
trim_prefix [] c = []
trim_prefix (d ∷ s) c = if d == c then s else d ∷ s

-- `strings.Index` of one code point; `none` is -1.
unfoldable pub index : Text → ℕ → Option ℕ
index [] c = none
index (d ∷ s) c = let later = Option.map suc (index s c) in if d == c then some 0 else later

-- `strings.IndexFunc`, and `strings.IndexAny` with the test for a set of code points.
unfoldable pub index_func : (ℕ → Bool) → Text → Option ℕ
index_func p [] = none
index_func p (c ∷ s) = let later = Option.map suc (index_func p s) in if p c then some 0 else later

-- `strings.LastIndex` of one code point.
unfoldable pub last_index : Text → ℕ → Option ℕ
last_index [] c = none
last_index (d ∷ s) c = elim (last_index s c) [
  | some i ↦ some (suc i)
  | none ↦ if d == c then some 0 else none
]

-- `strings.ToLower` of an ASCII letter; other code points stay.
unfoldable pub to_lower : Text → Text
to_lower [] = []
to_lower (c ∷ s) = (if leb b'A' c && leb c b'Z' then c + 32 else c) ∷ to_lower s

-- `strings.ReplaceAll` of one code point.
unfoldable pub replace_char : ℕ → Text → Text → Text
replace_char old new [] = []
replace_char old new (c ∷ s) = (if c == old then new else c ∷ []) ++ replace_char old new s

-- `strings.Contains`.
unfoldable pub contains : Text → Text → Bool
unfolding has_prefix
contains [] sub = has_prefix [] sub
contains (c ∷ s) sub = has_prefix (c ∷ s) sub || contains s sub

-- `strings.ReplaceAll` of a text that is not empty; `skip` code points are left of one replaced.
unfoldable pub replace_from : ℕ → Text → Text → Text → Text
unfolding has_prefix
replace_from skip old new [] = []
replace_from (suc skip) old new (c ∷ s) = replace_from skip old new s
replace_from zero old new (c ∷ s) =
    let found = has_prefix (c ∷ s) old in
    let rest = replace_from (if found then length old - 1 else 0) old new s in
    if found then new ++ rest else c ∷ rest

abbrev pub replace_all : Text → Text → Text → Text
replace_all old new s = replace_from 0 old new s

abbrev pub cons_first : ℕ → List Text → List Text
cons_first c [] = (c ∷ []) ∷ []
cons_first c (w ∷ ws) = (c ∷ w) ∷ ws

-- `strings.Split` by a text that is not empty; `skip` code points are left of a separator.
unfoldable pub split_from : ℕ → Text → Text → List Text
unfolding has_prefix
split_from skip sep [] = [] ∷ []
split_from (suc skip) sep (c ∷ s) = split_from skip sep s
split_from zero sep (c ∷ s) =
    let found = has_prefix (c ∷ s) sep in
    let rest = split_from (if found then length sep - 1 else 0) sep s in
    if found then [] ∷ rest else cons_first c rest

abbrev pub split : Text → Text → List Text
split s sep = split_from 0 sep s

-- `strings.Join`.
unfoldable pub join : List Text → Text → Text
join [] sep = []
join (w ∷ ws) sep = let later = join ws sep in elim ws [ [] ↦ w | v ∷ vs ↦ w ++ (sep ++ later) ]
