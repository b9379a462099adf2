-- ===== src/Tests/Building.antt =====
-- A feed built by internal/routeutils.
use syndi.Common.{◌≡◌, List, [], ◌∷◌, ◌++◌, Option, none, some, Text, codes, pos, length}
use syndi.Models.{Feed, Item}
use syndi.Routeutils.Items.{new_feed, new_item, append_mapped_items}
use syndi.Routeutils.Items.Appended.{fitting, mapped, append_mapped_items-fitting}

abbrev feed : Feed
feed = new_feed (codes "t") (codes "l") (codes "d")

abbrev item : Text → Item
item link = new_item link link [] (pos 5)

abbrev mapper : Text → Option Item
mapper [] = none
mapper (c ∷ s) = some (item (c ∷ s))

abbrev links : List Text
links = codes "a" ∷ [] ∷ codes "b" ∷ codes "c" ∷ []

append_mapped_items-fitting_example :
    append_mapped_items (some feed) links (pos 2) (some mapper) ≡ (
      length (fitting (pos 2) (length feed.items) (mapped mapper links)),
      some (record feed {
        items = feed.items ++ fitting (pos 2) (length feed.items) (mapped mapper links);
      }),
    )
append_mapped_items-fitting_example = append_mapped_items-fitting feed links (pos 2) mapper
