-- ===== src/Routes/Epicgames.antt =====
-- routes/epicgames/free.go: the free games, from the decoded answer to the feed.
pub mod Offered
use syndi.Common.{
  ℕ, suc, Bool, true, false, not, ◌||◌, ◌&&◌, List, [], ◌∷◌, ◌++◌, Option, none, some, Text, codes,
  is_empty, text_eq, take, Result, ok, err, pos, leb, if◌then◌else◌,
}
use syndi.Models.{Feed, Item, Time, after}
use syndi.Golang.Strings.{trim_space, index}
use syndi.Routeutils.Content.Sanitize.{escape_string}
use syndi.Routeutils.Items.{new_feed, new_item, with_item, set_item_author, set_categories}

pub record KeyImage : Type 0 where
  pub kind : Text
  pub url : Text

-- The texts of the prices.
pub record EpicPrice : Type 0 where
  pub original_price : Text
  pub discount_price : Text

pub record OfferWindow : Type 0 where
  pub start : Time
  pub end : Time

-- The groups of offers.
pub record Promotions : Type 0 where
  pub promotional_offers : List (List OfferWindow)
  pub upcoming_promotional_offers : List (List OfferWindow)

pub record EpicElement : Type 0 where
  pub title : Text
  pub id : Text
  pub description : Text
  pub product_slug : Text
  pub seller_name : Text
  pub key_images : List KeyImage
  pub price : Option EpicPrice
  pub promotions : Option Promotions
  pub page_slugs : List Text

abbrev pub Windows : Type 0
Windows = List OfferWindow × List OfferWindow

abbrev pub collect_one : Bool → Time → OfferWindow → Windows → Windows
collect_one free now w (active, upcoming) =
    if free
    then (if after w.start now then (active, upcoming ++ w ∷ []) else (active ++ w ∷ [], upcoming))
    else (active, upcoming)

unfoldable pub collect_group : Bool → Time → List OfferWindow → Windows → Windows
collect_group free now [] ws = ws
collect_group free now (w ∷ group) ws = collect_group free now group (collect_one free now w ws)

unfoldable pub collect : Bool → Time → List (List OfferWindow) → Windows → Windows
collect free now [] ws = ws
collect free now (group ∷ groups) ws = collect free now groups (collect_group free now group ws)

abbrev pub windows_of : Option Promotions → Option EpicPrice → Time → Windows
windows_of none price now = ([], [])
windows_of (some promotions) none now = ([], [])
windows_of (some promotions) (some price) now =
    let free = text_eq price.discount_price (codes "0") in
    collect free now promotions.upcoming_promotional_offers
      (collect free now promotions.promotional_offers ([], []))

unfoldable pub epic_free_windows : EpicElement → Time → Windows
epic_free_windows el now = windows_of el.promotions el.price now

unfoldable pub first_slug : List Text → Text
first_slug [] = []
first_slug (slug ∷ slugs) = let rest = first_slug slugs in if is_empty slug then rest else slug

-- The text before a slash that is not at its start.
abbrev pub cut_slug : Option ℕ → Text → Text
cut_slug none slug = slug
cut_slug (some i) slug = if leb 1 i then take i slug else slug

unfoldable pub epic_game_link : EpicElement → Text
epic_game_link el =
    let own = trim_space el.product_slug in
    let whole = if is_empty own then first_slug el.page_slugs else own in
    let slug = cut_slug (index whole b'/') whole in
    if is_empty slug
    then codes "https://store.epicgames.com/en-US/free-games"
    else codes "https://store.epicgames.com/en-US/p/" ++ slug

unfoldable pub image_loop : List KeyImage → Text → Text
image_loop [] image_type = []
image_loop (img ∷ images) image_type =
    let rest = image_loop images image_type in
    if text_eq img.kind image_type && not (is_empty img.url) then img.url else rest

abbrev pub epic_image : EpicElement → Text → Text
epic_image el image_type = image_loop el.key_images image_type

abbrev pub image_tag : Text → Text
image_tag img =
    if is_empty img then [] else codes "<img src=\"" ++ (escape_string img ++ codes "\"/><br/>")

abbrev pub price_text : Option EpicPrice → Text
price_text none = []
price_text (some price) =
    if is_empty price.original_price || text_eq price.original_price (codes "0")
    then []
    else codes "Original price: " ++ (escape_string price.original_price ++ codes "<br/>")

unfoldable pub epic_description : EpicElement → Text
epic_description el =
    let wide = epic_image el (codes "OfferImageWide") in
    (if is_empty wide then image_tag (epic_image el (codes "Thumbnail")) else image_tag wide)
    ++ ((if is_empty el.description
          then []
          else codes "<p>" ++ (escape_string el.description ++ codes "</p>"))
        ++ price_text el.price)

abbrev pub active_or_upcoming_date : Windows → Time
active_or_upcoming_date (w ∷ active, upcoming) = w.start
active_or_upcoming_date ([], w ∷ upcoming) = w.start
active_or_upcoming_date ([], []) = pos 0

abbrev pub is_upcoming_only : Windows → Bool
is_upcoming_only ([], upcoming) = true
is_upcoming_only (w ∷ active, upcoming) = false

abbrev pub is_unoffered : Windows → Bool
is_unoffered ([], []) = true
is_unoffered ([], w ∷ upcoming) = false
is_unoffered (w ∷ active, upcoming) = false

abbrev pub with_seller : Text → Item → Item
with_seller seller item = if is_empty seller then item else set_item_author item seller [] []

unfoldable pub epic_item : Time → EpicElement → Item
epic_item now el =
    let ws = epic_free_windows el now in
    let title = if is_upcoming_only ws then codes "[Upcoming] " ++ el.title else el.title in
    let item =
      new_item title (epic_game_link el) (epic_description el) (active_or_upcoming_date ws) in
    set_categories (with_seller el.seller_name (record item { guid = el.id }))
      ((if is_upcoming_only ws then codes "upcoming" else codes "free now") ∷ [])

unfoldable pub element_loop : Time → List EpicElement → Feed → Feed
element_loop now [] feed = feed
element_loop now (el ∷ elements) feed =
    let skipped = element_loop now elements feed in
    let added = element_loop now elements (with_item feed (epic_item now el)) in
    if is_unoffered (epic_free_windows el now) then skipped else added

-- `fetched` is the decoded answer.
unfoldable pub epic_games_free_handler : Time → Result (List EpicElement) → Result Feed
epic_games_free_handler now (err message) = err message
epic_games_free_handler now (ok elements) = ok (
    element_loop now elements (
      new_feed (codes "Epic Games Free Games")
        (codes "https://store.epicgames.com/en-US/free-games")
        (codes "Current and upcoming free games on the Epic Games Store")))
