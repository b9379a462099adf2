-- ===== src/Routeutils/Params.antt =====
-- internal/routeutils/params.go: the readers of parameters. `equal_fold` is strings.EqualFold; an
-- `int` has 64 bits, which `atoi` keeps to.
pub mod Range
use syndi.Common.{
  Bool, true, false, List, [], ◌∷◌, Option, none, some, Text, codes, text_eq, is_empty, any, ℤ, pos,
  ltb_ℤ, if◌then◌else◌,
}
use syndi.Golang.Strings.{trim_space, to_lower}
use syndi.Golang.Numbers.{atoi}

abbrev pub positive_or : ℤ → ℤ → ℤ
positive_or n otherwise = if ltb_ℤ (pos 0) n then n else otherwise

-- The tests of `ParsePositiveInt` on the number that was read.
abbrev pub clamp : Option ℤ → ℤ → ℤ → ℤ
clamp none default_value max_value = default_value
clamp (some n) default_value max_value =
    if ltb_ℤ (pos 0) n then (if ltb_ℤ max_value n then max_value else n) else default_value

unfoldable pub parse_positive_int : Text → ℤ → ℤ → ℤ
parse_positive_int raw default_value max_value =
    let d = positive_or default_value (pos 1) in
    clamp (atoi (trim_space raw)) d (positive_or max_value d)

abbrev pub if_positive : Option ℤ → Option ℤ
if_positive none = none
if_positive (some n) = if ltb_ℤ (pos 0) n then some n else none

unfoldable pub parse_optional_positive_int : Text → Option ℤ
parse_optional_positive_int raw =
    let s = trim_space raw in if is_empty s then none else if_positive (atoi s)

abbrev pub true_words : List Text
true_words = codes "1" ∷ codes "true" ∷ codes "yes" ∷ codes "y" ∷ codes "on" ∷ []

abbrev pub false_words : List Text
false_words = codes "0" ∷ codes "false" ∷ codes "no" ∷ codes "n" ∷ codes "off" ∷ []

unfoldable pub parse_bool : Text → Bool → Bool
parse_bool raw default_value =
    let s = to_lower (trim_space raw) in
    if is_empty s
    then default_value
    else if any (text_eq s) true_words
    then true
    else if any (text_eq s) false_words
    then false
    else default_value

module _ (equal_fold : Text → Text → Bool) where
  -- The loops over the candidates.
  unfoldable pub find_fold : Text → List Text → Option Text
  find_fold s [] = none
  find_fold s (candidate ∷ rest) =
      let later = find_fold s rest in if equal_fold s candidate then some candidate else later

  abbrev pub second_choice : Option Text → Option Text → Text → Text
  second_choice (some c) other first = c
  second_choice none (some c) first = c
  second_choice none none first = first

  unfoldable pub parse_enum : Text → Text → List Text → Text
  parse_enum raw default_value [] = trim_space default_value
  parse_enum raw default_value (first ∷ rest) =
      second_choice (find_fold (trim_space raw) (first ∷ rest))
        (find_fold (trim_space default_value) (first ∷ rest)) first
