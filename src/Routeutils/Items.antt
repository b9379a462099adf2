-- ===== src/Routeutils/Items.antt =====
-- internal/routeutils/items.go and feed.go: feeds and items as routes build them. Pointers that may be
-- nil are options; feeds and items are values, a function returns the changed one.
pub mod Appended
use syndi.Common.{
  ℕ, zero, suc, Bool, true, false, not, ◌&&◌, List, [], ◌∷◌, ◌++◌, map, Option, none, some, Text,
  is_empty, ℤ, pos, pos_part, ltb_ℤ, leb, length, keep_if, if◌then◌else◌,
}
use syndi.Models.{Author, Feed, Item, Time, is_zero}

abbrev pub new_feed : Text → Text → Text → Feed
new_feed title link description = record {
  title = title;
  description = description;
  link = link;
  items = [];
  author = none;
  updated = none;
}

unfoldable pub apply_item_defaults : Item → Item
apply_item_defaults item =
    if is_empty item.guid && not (is_empty item.link)
    then record item { guid = item.link }
    else item

unfoldable pub new_item : Text → Text → Text → Time → Item
new_item title link description pub_date = apply_item_defaults (record {
  title = title;
  description = description;
  link = link;
  pub_date = pub_date;
  guid = [];
  author = none;
  updated = none;
  categories = [];
})

abbrev pub with_item : Feed → Item → Feed
with_item feed item = record feed { items = feed.items ++ apply_item_defaults item ∷ [] }

unfoldable pub add_item : Option Feed → Option Item → Option Feed
add_item none item = none
add_item (some feed) none = some feed
add_item (some feed) (some item) = some (with_item feed item)

-- The loop of `AddItems`.
unfoldable pub add_loop : Feed → List (Option Item) → Feed
add_loop feed [] = feed
add_loop feed (none ∷ items) = add_loop feed items
add_loop feed (some item ∷ items) = add_loop (with_item feed item) items

unfoldable pub add_items : Option Feed → List (Option Item) → Option Feed
add_items none items = none
add_items (some feed) items = some (add_loop feed items)

unfoldable pub set_categories : Item → List Text → Item
set_categories item categories = record item {
  categories = item.categories ++ keep_if (λ c. not (is_empty c)) categories;
}

unfoldable pub set_content : Item → Text → Item
set_content item html = if is_empty html then item else record item { description = html }

abbrev pub updated_or : Option Time → Time → Option Time
updated_or (some u) t = some u
updated_or none t = if is_zero t then none else some t

unfoldable pub set_updated : Item → Time → Item
set_updated item t = record item { updated = updated_or item.updated t }

unfoldable pub set_item_author : Item → Text → Text → Text → Item
set_item_author item name email uri = record item {
  author = some (record { name = name; email = email; uri = uri });
}

unfoldable pub merge_items : List (Option Feed) → List Item
merge_items [] = []
merge_items (none ∷ feeds) = merge_items feeds
merge_items (some feed ∷ feeds) = feed.items ++ merge_items feeds

unfoldable pub get_item_count : Option Feed → ℕ
get_item_count none = 0
get_item_count (some feed) = length feed.items

module _ {T : Type 0} where
  -- The loop of `AppendMappedItems`: the number of items appended, and the feed's items.
  unfoldable pub append_loop : ℤ → (T → Option Item) → List Item → List T → ℕ × List Item
  append_loop limit mapper items [] = (0, items)
  append_loop limit mapper items (value ∷ source) =
      let next : ℕ × List Item = (elim (mapper value) [
        | none ↦ append_loop limit mapper items source
        | some item ↦
            let (n, rest) =
              append_loop limit mapper (items ++ apply_item_defaults item ∷ []) source in
            (suc n, rest)
      ]) in
      if ltb_ℤ (pos 0) limit && leb (pos_part limit) (length items) then (0, items) else next

  unfoldable pub append_mapped_items :
      Option Feed → List T → ℤ → Option (T → Option Item) → ℕ × Option Feed
  append_mapped_items none source limit mapper = (0, none)
  append_mapped_items (some feed) source limit none = (0, some feed)
  append_mapped_items (some feed) source limit (some mapper) =
      let (n, items) = append_loop limit mapper feed.items source in
      (n, some (record feed { items = items }))
