-- ===== src/Tests/Giveaways.antt =====
-- Tests of routes/epicgames/free.go: a game whose offer is over, and one that comes.
use syndi.Common.{text_eq, [], ◌∷◌, Text, codes, some, ok, pos, keep_if, ◌≡◌, refl}
use syndi.Models.{Feed}
use syndi.Golang.Strings.{index, trim_space, trim_func, trim_left, is_space}
use syndi.Routes.Epicgames.{
  EpicElement, OfferWindow, epic_free_windows, epic_games_free_handler, epic_game_link, collect,
  collect_group,
}
use syndi.Routes.Epicgames.Offered.{
  offers_of, has_started, future, listed, epic_games_free_handler-listed,
}

abbrev over : OfferWindow
over = record { start = pos 1; end = pos 5 }

abbrev game : Text → OfferWindow → EpicElement
game price offer = record {
  title = codes "Game";
  id = codes "id";
  description = codes "d";
  product_slug = codes "game/home";
  seller_name = codes "seller";
  key_images = [];
  price = some (record { original_price = codes "$10"; discount_price = price });
  promotions = some (record {
    promotional_offers = (offer ∷ []) ∷ [];
    upcoming_promotional_offers = (record { start = pos 20; end = pos 30 } ∷ []) ∷ [];
  });
  page_slugs = [];
}

link_test :
    epic_game_link (game (codes "0") over) ≡ codes "https://store.epicgames.com/en-US/p/game"
unfolding epic_game_link trim_space trim_func trim_left is_space index
link_test = refl

-- An offer that is over counts as active.
over_test : (epic_free_windows (game (codes "0") over) (pos 10)).0 ≡ over ∷ []
unfolding epic_free_windows collect collect_group text_eq
over_test = refl

-- An offer to come is left out while the game has a price.
priced_test : epic_free_windows (game (codes "$10") over) (pos 10) ≡ ([], [])
unfolding epic_free_windows collect collect_group text_eq
priced_test = refl

epic_games_free_handler-listed_example :
    ((feed : Feed) × (epic_games_free_handler
          (pos 10)
          (ok (game (codes "0") over ∷ game (codes "$10") over ∷ []))
        ≡ ok feed)
      × (feed.items ≡ listed (pos 10) (game (codes "0") over ∷ game (codes "$10") over ∷ [])))
    × ((el : EpicElement)
        → epic_free_windows el (pos 10) ≡ (
          keep_if (has_started (pos 10)) (offers_of el.promotions el.price),
          keep_if (future (pos 10)) (offers_of el.promotions el.price),
        ))
epic_games_free_handler-listed_example =
    epic_games_free_handler-listed (pos 10) (game (codes "0") over ∷ game (codes "$10") over ∷ [])
