-- ===== src/Routeutils/Urls/Links.antt =====
-- The rest of internal/routeutils/link.go and url.go: queries and paths as a whole.
pub mod Cleaned
use syndi.Common.{ℕ, List, [], ◌∷◌, ◌++◌, Option, none, some, Text, codes, Result, ok, ◌>>=◌, take}
use syndi.Common.Maps
use syndi.Golang.Strings.{index, replace_all, join, trim_prefix}
use syndi.Routeutils.Urls.{UrlParts, UrlApi, Values, wrap, set_value, parse_url}

-- u[:idx], or the text where there is no such index.
abbrev pub cut_at : Option ℕ → Text → Text → Text
cut_at none u other = other
cut_at (some idx) u other = take idx u

unfoldable pub strip_query : Text → Text
strip_query u = cut_at (index u b'?') u (cut_at (index u b'#') u u)

-- The first values of the keys that have one.
unfoldable pub first_values : Values → List (Text × Text)
first_values [] = []
first_values ((key, []) ∷ q) = first_values q
first_values ((key, v ∷ vs) ∷ q) = (key, v) ∷ first_values q

unfoldable pub set_values : List (Text × Text) → Values → Values
set_values [] q = q
set_values ((key, value) ∷ params) q = set_values params (set_value key value q)

unfoldable pub delete_all : List Text → Values → Values
delete_all [] q = q
delete_all (key ∷ keys) q = delete_all keys (Maps.delete key q)

abbrev pub tracking_params : List Text
tracking_params =
    codes "utm_source"
    ∷ codes "utm_medium"
    ∷ codes "utm_campaign"
    ∷ codes "utm_term"
    ∷ codes "utm_content"
    ∷ codes "fbclid"
    ∷ codes "gclid"
    ∷ codes "msclkid"
    ∷ codes "_ga"
    ∷ codes "_gid"
    ∷ codes "ref"
    ∷ codes "source"
    ∷ []

module _ (api : UrlApi) where
  unfoldable pub add_fragment : Text → Text → Result Text
  add_fragment u fragment = do
    parsed ← parse_url api u
    ok (api.string (record parsed { fragment = trim_prefix fragment b'#' }))

  abbrev pub get_path : Text → Result Text
  get_path u = do parsed ← parse_url api u; ok parsed.path

  abbrev pub get_domain : Text → Result Text
  get_domain u = do parsed ← parse_url api u; ok parsed.host

  unfoldable pub parse_query : Text → Result (List (Text × Text))
  parse_query u = do parsed ← parse_url api u; ok (first_values (api.query parsed.raw_query))

  -- The pairs of a map, in the order in which the code visits them.
  unfoldable pub build_query : List (Text × Text) → Text
  build_query [] = []
  build_query (p ∷ params) = api.encode (set_values (p ∷ params) [])

  unfoldable pub merge_query_params : Text → List (Text × Text) → Result Text
  merge_query_params u params = do
    parsed ← parse_url api u
    let query = set_values params (api.query parsed.raw_query)
    ok (api.string (record parsed { raw_query = api.encode query }))

  unfoldable pub clean_url : Text → Result Text
  clean_url u = do
    parsed ← parse_url api u
    let query = delete_all tracking_params (api.query parsed.raw_query)
    ok (api.string (record parsed { fragment = []; raw_query = api.encode query }))

  abbrev pub with_path : Text → UrlParts → UrlParts
  with_path [] parsed = parsed
  with_path (c ∷ path) parsed = record parsed { path = c ∷ path }

  abbrev pub with_query_params : List (Text × Text) → UrlParts → UrlParts
  with_query_params [] parsed = parsed
  with_query_params (p ∷ params) parsed = record parsed {
    raw_query = api.encode (set_values (p ∷ params) (api.query parsed.raw_query));
  }

  unfoldable pub build_url : Text → Text → List (Text × Text) → Result Text
  build_url base path params = do
    parsed ← wrap (codes "invalid base URL: ") (api.parse base)
    ok (api.string (with_query_params params (with_path path parsed)))

  unfoldable pub join_path : Text → List Text → Result Text
  join_path base parts = do
    parsed ← wrap (codes "invalid base URL: ") (api.parse base)
    ok (
        api.string (record parsed {
          path = replace_all (join (parsed.path ∷ parts) (codes "/")) (codes "//") (codes "/");
        }))
