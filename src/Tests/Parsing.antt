-- ===== src/Tests/Parsing.antt =====
-- Parameters read by internal/routeutils/params.go.
use syndi.Common.{◌≡◌, refl, Bool, true, false, List, [], ◌∷◌, some, Text, codes, text_eq, pos}
use syndi.Golang.Strings.{trim_space, to_lower}
use syndi.Golang.Numbers.{atoi}
use syndi.Routeutils.Params.{
  parse_positive_int, parse_optional_positive_int, parse_bool, find_fold, parse_enum,
}

abbrev equal_fold : Text → Text → Bool
equal_fold s t = text_eq (to_lower s) (to_lower t)

abbrev orders : List Text
orders = codes "new" ∷ codes "hot" ∷ []

read_tests :
    (parse_positive_int (codes " 30 ") (pos 10) (pos 20) ≡ pos 20)
    × (parse_positive_int (codes "-3") (pos 10) (pos 20) ≡ pos 10)
    × (parse_optional_positive_int (codes "7") ≡ some (pos 7))
    × (parse_bool (codes " YES") false ≡ true)
    × (parse_enum equal_fold (codes "HOT") (codes "new") orders ≡ codes "hot")
unfolding parse_positive_int atoi trim_space parse_optional_positive_int parse_bool to_lower text_eq
    parse_enum find_fold
read_tests = (refl, refl, refl, refl, refl)
