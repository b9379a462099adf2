-- ===== src/Routes/Huxiu/Detail.antt =====
-- routes/huxiu/nuxt.go: the article in a document, and the readers of its fields.
pub mod Numbers
use syndi.Common.{
  ℕ, suc, Bool, true, false, ◌||◌, not, ◌&&◌, List, [], ◌∷◌, ◌++◌, any, Option, none, some, Text,
  codes, is_empty, text_eq, length, ℤ, ◌==◌, if◌then◌else◌,
}
use syndi.Golang.Numbers.{decimal}
use syndi.Golang.Strings.{has_prefix, trim_func}
use syndi.Routes.Huxiu.Nuxt.{
  Json, null, bool, number, string, array, object, Items, nil, cons, Fields, end, field, Resolution,
  value, panicked, exhausted, resolve, int_of,
}

-- The cutset of Trim.
abbrev pub is_cut : ℕ → Bool
is_cut c = c == b'"' || c == b'.' || c == b'0'

unfoldable pub any_to_string : Json → Text
any_to_string (string s) = s
any_to_string (number n) = trim_func is_cut n.json
any_to_string null = []
any_to_string (bool b) = []
any_to_string (array items) = []
any_to_string (object fields) = []

-- m[key]; a missing key reads as nil.
unfoldable pub get_field : Text → Fields → Json
get_field key end = null
get_field key (field k v fields) =
    let rest = get_field key fields in if text_eq k key then v else rest

abbrev pub as_object : Json → Option Fields
as_object (object fields) = some fields
as_object _ = none

unfoldable pub nested : Option Fields → Text → Option Fields
nested none key = none
nested (some m) key = as_object (get_field key m)

-- What the two nested loops have found: nothing yet, an object, or a panic.
unfoldable pub find_in_fields : (ℤ → Resolution Json) → Text → Fields → Resolution (Option Fields)
find_in_fields visit prefix end = value none
find_in_fields visit prefix (field k (number idx) fields) = elim (has_prefix k prefix) [
  | false ↦ find_in_fields visit prefix fields
  | true ↦ elim (visit (int_of idx)) [
    | value (object found) ↦ value (some found)
    | value _ ↦ find_in_fields visit prefix fields
    | panicked ↦ panicked
    | exhausted ↦ exhausted
  ]
]
find_in_fields visit prefix (field k v fields) = find_in_fields visit prefix fields

unfoldable pub find_in_entries :
    (ℤ → Resolution Json) → Text → List Json → Resolution (Option Fields)
find_in_entries visit prefix [] = value none
find_in_entries visit prefix (object fields ∷ entries) = elim (find_in_fields visit prefix fields) [
  | value (some found) ↦ value (some found)
  | value none ↦ find_in_entries visit prefix entries
  | panicked ↦ panicked
  | exhausted ↦ exhausted
]
find_in_entries visit prefix (entry ∷ entries) = find_in_entries visit prefix entries

-- One call for each entry, and one more, suffice.
unfoldable pub find_object_with_key : List Json → Text → Resolution (Option Fields)
find_object_with_key arr prefix =
    find_in_entries (λ idx. resolve arr (suc (length arr)) idx []) prefix arr

-- `none` is a page without such data.
unfoldable pub article_detail_from_nuxt : Option (List Json) → Resolution (Option Fields)
article_detail_from_nuxt none = value none
article_detail_from_nuxt (some arr) = elim (find_object_with_key arr (codes "articleDetail-")) [
  | value obj ↦ value (nested obj (codes "articleDetail"))
  | panicked ↦ panicked
  | exhausted ↦ exhausted
]

unfoldable pub nuxt_string : Fields → List Text → Text
nuxt_string m [] = []
nuxt_string m (k ∷ keys) =
    let s = any_to_string (get_field k m) in
    let rest = nuxt_string m keys in if is_empty s then rest else s

-- The tags in `out` are those in the map `seen`.
abbrev pub append_tag : Text → List Text → List Text
append_tag name out = if is_empty name || any (text_eq name) out then out else out ++ name ∷ []

abbrev pub tag_name : Text → Json → List Text → List Text
tag_name key (object tm) out = append_tag (any_to_string (get_field key tm)) out
tag_name key _ out = out

unfoldable pub append_tags : Text → Items → List Text → List Text
append_tags key nil out = out
append_tags key (cons t items) out = append_tags key items (tag_name key t out)

abbrev pub append_list : Text → Json → List Text → List Text
append_list key (array items) out = append_tags key items out
append_list key _ out = out

abbrev pub channels : Json → List Text → List Text
channels (object rel) out = append_list (codes "name") (get_field (codes "channel") rel) out
channels _ out = out

unfoldable pub nuxt_tags : Fields → List Text
nuxt_tags m =
    channels (get_field (codes "relation_info") m)
      (append_list (codes "tag_name") (get_field (codes "tags_info") m) [])
