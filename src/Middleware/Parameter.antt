-- ===== src/Middleware/Parameter.antt =====
-- internal/middleware/parameter.go: the query parameters that select, order, cut and shorten the
-- items of a feed. `query` is gin's c.Query (the empty text where a parameter is absent), `now` the
-- clock's time, `compile` regexp.Compile with MatchString, and `sort` sort.Slice.
pub mod Order
pub mod Selection
pub mod Output
pub mod Window
pub mod Sharing
use syndi.Common.{
  ℕ, suc, ◌+◌, ◌^◌, ◌≤◌, ◌≡◌, Bool, true, false, not, ◌&&◌, ◌||◌, List, [], ◌∷◌, ◌++◌, map, Option,
  none, some, Text, codes, text_eq, ℤ, pos, pos_part, ◌+ℤ◌, ◌-ℤ◌, ◌*ℤ◌, ltb_ℤ, wrap64, ltb, leb,
  length, take, keep_if, any, if◌then◌else◌, is_empty,
}
use syndi.Golang.Strings.{to_lower}
use syndi.Golang.Numbers.{sscanf_d}
use syndi.Models.{Item, Author, Time, is_zero, after}

-- A compiled regular expression, as its MatchString.
abbrev pub Regexp : Type 0
Regexp = Text → Bool

abbrev pub author_matches : Regexp → Option Author → Bool
author_matches re none = false
author_matches re (some a) = re a.name

unfoldable pub matches_filter : Regexp → Item → Bool
matches_filter re item =
    re item.title || re item.description || author_matches re item.author || any re item.categories

-- The loop of `filterItems`.
unfoldable pub filter_loop : Regexp → Bool → List Item → List Item
filter_loop re exclude [] = []
filter_loop re exclude (item ∷ items) =
    let rest = filter_loop re exclude items in
    if exclude
    then (if not (matches_filter re item) then item ∷ rest else rest)
    else if matches_filter re item
    then item ∷ rest
    else rest

unfoldable pub second : ℕ
second = 1_000_000_000

-- `time.Now().Add(-time.Duration(seconds) * time.Second)`; both products wrap around.
unfoldable pub cutoff : Time → ℤ → Time
cutoff now seconds = now +ℤ wrap64 (wrap64 (pos 0 -ℤ seconds) *ℤ pos second)

unfoldable pub within : Time → Item → Bool
within limit item = not (is_zero item.pub_date) && after item.pub_date limit

unfoldable pub filter_by_time : Time → List Item → Text → List Item
filter_by_time now items filter_time = elim (sscanf_d filter_time) [
  | none ↦ items
  | some seconds ↦ keep_if (within (cutoff now seconds)) items
]

unfoldable pub limit_items : List Item → Text → List Item
limit_items items limit_str = elim (sscanf_d limit_str) [
  | none ↦ items
  | some limit ↦
      if not (ltb_ℤ (pos 0) limit)
      then items
      else if ltb (length items) (pos_part limit)
      then items
      else take (pos_part limit) items
]

unfoldable pub truncate_runes : Text → ℕ → Text
truncate_runes text max_length =
    if leb (length text) max_length then text else take max_length text ++ codes "..."

-- The length that `applyBriefMode` reads: 100 where there is no positive number.
unfoldable pub brief_length : Text → ℕ
brief_length brief_str = elim (sscanf_d brief_str) [
  | none ↦ 100
  | some n ↦ if ltb_ℤ (pos 0) n then pos_part n else 100
]

unfoldable pub shorten : ℕ → Item → Item
shorten n item = record item { description = truncate_runes item.description n }

unfoldable pub apply_brief_mode : List Item → Text → List Item
apply_brief_mode items brief_str = map (shorten (brief_length brief_str)) items

-- The comparison of `sortItemsByPubDate`: later dates first, zero dates last.
unfoldable pub newer : Item → Item → Bool
newer a b =
    if is_zero a.pub_date
    then false
    else if is_zero b.pub_date
    then true
    else after a.pub_date b.pub_date

unfoldable pub wants_sorted : Text → Bool
wants_sorted sorted_str =
    if is_empty sorted_str then true else text_eq (to_lower sorted_str) (codes "true")

unfoldable pub filter_items : (Text → Option Regexp) → List Item → Text → Bool → List Item
filter_items compile items pattern exclude = elim (compile pattern) [
  | none ↦ items
  | some re ↦ filter_loop re exclude items
]

module _ (compile : Text → Option Regexp)
    (sort : (Item → Item → Bool) → List Item → List Item) where
  unfoldable pub sort_items_by_pub_date : List Item → List Item
  sort_items_by_pub_date items = sort newer items

  -- Steps 1 to 4 of `ProcessFeed`: which items, in which order.
  unfoldable pub select_items : Time → (Text → Text) → List Item → List Item
  select_items now query items =
      let filter_time = query (codes "filter_time") in
      let filter = query (codes "filter") in
      let filter_out = query (codes "filterout") in
      let a = if is_empty filter_time then items else filter_by_time now items filter_time in
      let b = if is_empty filter then a else filter_items compile a filter false in
      let c = if is_empty filter_out then b else filter_items compile b filter_out true in
      if wants_sorted (query (codes "sorted")) then sort_items_by_pub_date c else c

  unfoldable pub process_feed : Time → (Text → Text) → List Item → List Item
  process_feed now query items =
      let limit = query (codes "limit") in
      let brief = query (codes "brief") in
      let a = select_items now query items in
      let b = if is_empty limit then a else limit_items a limit in
      if is_empty brief then b else apply_brief_mode b brief
