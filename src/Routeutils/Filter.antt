-- ===== src/Routeutils/Filter.antt =====
-- internal/routeutils/filter.go: the selection of items by a route. `compile` is regexp.Compile, with
-- MatchString of what it returns, and `sort` is sort.Slice. Items are values: SortByPubDate returns
-- the sorted list that the code leaves in the caller's slice.
pub mod Unique
pub mod Selection
use syndi.Common.{
  ℕ, Bool, true, false, not, ◌&&◌, ◌||◌, List, [], ◌∷◌, ◌++◌, Option, none, some, Text, codes,
  text_eq, is_empty, Result, ok, err, ◌>>=◌, ℤ, pos, pos_part, ltb_ℤ, ltb, length, take, keep_if,
  any, if◌then◌else◌,
}
use syndi.Golang.Strings.{to_lower}
use syndi.Golang.Numbers.{sscanf_d}
use syndi.Models.{Item, Time, is_zero, after}
use syndi.Middleware.Parameter.{Regexp, author_matches, cutoff, within}

unfoldable pub matches_field : Regexp → Item → Text → Bool
matches_field re item field =
    if text_eq field (codes "title")
    then re item.title
    else if text_eq field (codes "description")
    then re item.description
    else if text_eq field (codes "author")
    then author_matches re item.author
    else if text_eq field (codes "category")
    then any re item.categories
    else false

abbrev pub matches_filter_in_fields : Regexp → List Text → Item → Bool
matches_filter_in_fields re fields item = any (matches_field re item) fields

-- The comparison of `SortByPubDate`.
unfoldable pub pub_date_less : Bool → Item → Item → Bool
pub_date_less descending a b =
    if is_zero a.pub_date
    then not descending
    else if is_zero b.pub_date
    then descending
    else if descending
    then after a.pub_date b.pub_date
    else after b.pub_date a.pub_date

unfoldable pub apply_limit : List Item → ℤ → List Item
apply_limit items limit =
    if not (ltb_ℤ (pos 0) limit) || ltb (length items) (pos_part limit)
    then items
    else take (pos_part limit) items

unfoldable pub filter_by_time : Time → List Item → ℤ → List Item
filter_by_time now items seconds = keep_if (within (cutoff now seconds)) items

-- The loop of `UniqueBy`, with the keys seen before.
unfoldable pub unique_loop : (Item → Text) → List Text → List Item → List Item
unique_loop key_fn seen [] = []
unique_loop key_fn seen (item ∷ items) =
    let kept = unique_loop key_fn (key_fn item ∷ seen) items in
    let passed = unique_loop key_fn seen items in
    if any (text_eq (key_fn item)) seen then passed else item ∷ kept

unfoldable pub unique_by : List Item → (Item → Text) → List Item
unique_by items key_fn = unique_loop key_fn [] items

abbrev pub unique_by_link : List Item → List Item
unique_by_link items = unique_by items (λ item. item.link)

abbrev pub unique_by_guid : List Item → List Item
unique_by_guid items = unique_by items (λ item. item.guid)

abbrev pub all_fields : List Text
all_fields = codes "title" ∷ codes "description" ∷ codes "author" ∷ codes "category" ∷ []

-- The error of `ApplyParameters` for an expression that does not compile, with the expression quoted.
abbrev pub named : {A : Type 0} → Text → Text → Result A → Result A
named what quoted (ok a) = ok a
named what quoted (err e) =
    err (codes "invalid " ++ (what ++ (codes " regex " ++ (quoted ++ (codes ": " ++ e)))))

-- The window of `ApplyParameters`, from the number read.
abbrev pub window : Time → List Item → Option ℤ → List Item
window now items none = items
window now items (some seconds) =
    if ltb_ℤ (pos 0) seconds then filter_by_time now items seconds else items

abbrev pub limit_read : List Item → Option ℤ → List Item
limit_read items none = items
limit_read items (some l) = if ltb_ℤ (pos 0) l then apply_limit items l else items

module _ (compile : Text → Result Regexp) where
  unfoldable pub compile_regex : Text → Bool → Result Regexp
  compile_regex pattern case_sensitive =
      compile (if case_sensitive then pattern else codes "(?i)" ++ pattern)

  unfoldable pub filter_items : List Item → Text → Bool → List Text → Result (List Item)
  filter_items items pattern case_sensitive fields = do
    re ← compile_regex pattern case_sensitive
    ok (keep_if (matches_filter_in_fields re fields) items)

  unfoldable pub filter_out_items : List Item → Text → Bool → List Text → Result (List Item)
  filter_out_items items pattern case_sensitive fields = do
    re ← compile_regex pattern case_sensitive
    ok (keep_if (λ item. not (matches_filter_in_fields re fields item)) items)

  -- `quote` is the verb %q of package fmt.
  abbrev pub include : (Text → Text) → List Item → Text → Result (List Item)
  include quote items filter =
      if is_empty filter
      then ok items
      else named (codes "filter") (quote filter) (filter_items items filter false all_fields)

  abbrev pub exclude : (Text → Text) → List Item → Text → Result (List Item)
  exclude quote items filter_out =
      if is_empty filter_out
      then ok items
      else named (codes "filterout") (quote filter_out)
          (filter_out_items items filter_out false all_fields)

module _ (sort : (Item → Item → Bool) → List Item → List Item) where
  unfoldable pub sort_by_pub_date : List Item → Bool → List Item
  sort_by_pub_date items descending = sort (pub_date_less descending) items

  abbrev pub sorted : List Item → Text → List Item
  sorted items s =
      if (if is_empty s then true else text_eq (to_lower s) (codes "true"))
      then sort_by_pub_date items true
      else items

  unfoldable pub apply_parameters :
      (Text → Result Regexp) → (Text → Text) → Time → List Item → (Text → Text) → Result (List Item)
  apply_parameters compile quote now items query = do
    let s = query (codes "filter_time")
    let a = if is_empty s then items else window now items (sscanf_d s)
    b ← include compile quote a (query (codes "filter"))
    c ← exclude compile quote b (query (codes "filterout"))
    let d = sorted c (query (codes "sorted"))
    let l = query (codes "limit")
    ok (if is_empty l then d else limit_read d (sscanf_d l))
