-- ===== src/Routeutils/Urls.antt =====
-- internal/routeutils/url.go and the query functions of link.go. Package net/url is the parameter
-- `api`: the parts of a URL that the code reads or sets, and the functions it calls.
pub mod Links
pub mod Queries
use syndi.Common.{
  Bool, true, false, List, [], ◌∷◌, ◌++◌, Option, none, some, Text, codes, is_empty, text_eq,
  Result, ok, err, ◌>>=◌, if◌then◌else◌,
}
use syndi.Common.Maps
use syndi.Golang.Strings.{has_prefix, index_func}
use syndi.Models.{Item, Feed}

-- `others` stands for the parts that the code neither reads nor sets.
pub record UrlParts : Type 0 where
  pub scheme : Text
  pub host : Text
  pub path : Text
  pub raw_query : Text
  pub fragment : Text
  pub others : Text

-- url.Values: the values of each key.
abbrev pub Values : Type 0
Values = List (Text × List Text)

pub record UrlApi : Type 0 where
  pub parse : Text → Result UrlParts
  pub string : UrlParts → Text
  pub resolve_reference : UrlParts → UrlParts → UrlParts
  pub query : Text → Values
  pub encode : Values → Text

abbrev pub wrap {ℓ} : {A : Type ℓ} → Text → Result A → Result A
wrap prefix (ok a) = ok a
wrap prefix (err message) = err (prefix ++ message)

-- `Values.Set` and `Values.Get`.
abbrev pub set_value : Text → Text → Values → Values
set_value key value q = Maps.insert key (value ∷ []) q

abbrev pub first_value : Option (List Text) → Text
first_value none = []
first_value (some []) = []
first_value (some (v ∷ vs)) = v

abbrev pub get_value : Text → Values → Text
get_value key q = first_value (Maps.lookup key q)

abbrev pub is_some {ℓ} : {A : Type ℓ} → Option A → Bool
is_some none = false
is_some (some a) = true

abbrev pub is_absolute_url : Text → Bool
is_absolute_url u = if has_prefix u (codes "http://") then true else has_prefix u (codes "https://")

abbrev pub is_protocol_relative_url : Text → Bool
is_protocol_relative_url u = has_prefix u (codes "//")

module _ (api : UrlApi) where
  abbrev pub parse_url : Text → Result UrlParts
  parse_url u = wrap (codes "invalid URL: ") (api.parse u)

  unfoldable pub resolve_url : Text → Text → Result Text
  resolve_url base relative =
      if is_empty relative
      then err (codes "relative URL is empty")
      else if is_absolute_url relative
      then ok relative
      else if is_protocol_relative_url relative
      then ok (codes "https:" ++ relative)
      else (do
        base_url ← wrap (codes "invalid base URL: ") (api.parse base)
        rel_url ← wrap (codes "invalid relative URL: ") (api.parse relative)
        ok (api.string (api.resolve_reference base_url rel_url)))

  unfoldable pub normalize_url : Text → Result Text
  normalize_url u = do
    parsed ← api.parse u
    let query = if is_empty parsed.raw_query then [] else api.encode (api.query parsed.raw_query)
    ok (api.string (record parsed { fragment = []; raw_query = query }))

  unfoldable pub is_valid_url : Text → Bool
  is_valid_url u = if is_empty u then false else elim (api.parse u) [
    | err message ↦ false
    | ok p ↦ if is_empty p.scheme then false else if is_empty p.host then false else true
  ]

  abbrev pub format_item_link : Text → Item → Item
  format_item_link base item =
      if is_empty item.link then item else elim (resolve_url base item.link) [
        | err message ↦ item
        | ok absolute ↦ record item { link = absolute }
      ]

  -- The loop writes each link in its place.
  unfoldable pub format_links : Text → List Item → List Item
  format_links base [] = []
  format_links base (item ∷ items) = format_item_link base item ∷ format_links base items

  -- The feed as it is left, with the error or nil; an empty list of items is the nil slice.
  unfoldable pub format_items_links : Feed → Feed × Option Text
  format_items_links feed = elim feed.items [
    | [] ↦ (feed, none)
    | _ ∷ _ ↦
        if is_empty feed.link
        then (feed, some (codes "feed link is empty, cannot resolve relative URLs"))
        else (record feed { items = format_links feed.link feed.items }, none)
  ]

  unfoldable pub add_query_param : Text → Text → Text → Result Text
  add_query_param u key value = do
    parsed ← parse_url u
    let query = set_value key value (api.query parsed.raw_query)
    ok (api.string (record parsed { raw_query = api.encode query }))

  unfoldable pub remove_query_param : Text → Text → Result Text
  remove_query_param u key = do
    parsed ← parse_url u
    let query = Maps.delete key (api.query parsed.raw_query)
    ok (api.string (record parsed { raw_query = api.encode query }))

  unfoldable pub ensure_https : Text → Result Text
  ensure_https u = do
    parsed ← parse_url u
    ok (api.string (record parsed { scheme = codes "https" }))

  unfoldable pub remove_fragment : Text → Result Text
  remove_fragment u = do parsed ← parse_url u; ok (api.string (record parsed { fragment = [] }))

  unfoldable pub get_query_param : Text → Text → Result Text
  get_query_param u key = do parsed ← parse_url u; ok (get_value key (api.query parsed.raw_query))

  unfoldable pub has_query_param : Text → Text → Result Bool
  has_query_param u key = do
    parsed ← parse_url u
    ok (is_some (Maps.lookup key (api.query parsed.raw_query)))

  unfoldable pub is_https : Text → Result Bool
  is_https u = do parsed ← parse_url u; ok (text_eq parsed.scheme (codes "https"))
