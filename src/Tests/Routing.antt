-- ===== src/Tests/Routing.antt =====
-- Routes registered under the base path "/blog" (pkg/registry and internal/routeutils).
use syndi.Common.{ℕ, ◌≡◌, refl, false, List, [], ◌∷◌, some, Text, codes, pos, ok}
use syndi.Common.Maps
use syndi.Golang.Strings.{has_prefix, trim_space, index, trim_prefix}
use syndi.Models.{Route}
use syndi.Registry.{Registry, empty_registry, namespace_of, register, with_route}
use syndi.Registry.Valid.{IsValid, empty_registry-IsValid, register-IsValid}
use syndi.Routeutils.Routes.{
  RouteSpec, resolve_route_path, route_of, trim_slashes, register_routes_with_base,
}
use syndi.Routeutils.Routes.Registered.{Outcome, Extends, register_routes_with_base-Outcome}

abbrev spec : Text → RouteSpec ℕ
spec path = record {
  path = path;
  name = path;
  url = [];
  example = [];
  maintainers = [];
  description = [];
  categories = [];
  features = record {
    require_config = false;
    require_password = false;
    anti_crawler = false;
    support_radar = false;
    nsfw = false;
    env_deps = [];
  };
  parameters = [];
  cache_ttl = pos 0;
  handler = some 1;
}

abbrev news : Route ℕ
news = route_of (spec (codes "/blog/news")) 1

abbrev one : Registry ℕ
one = record {
  routes = (codes "/blog/news", news) ∷ [];
  namespaces =
      (codes "blog", record { name = codes "blog"; description = []; routes = news ∷ [] }) ∷ [];
}

registered : register news empty_registry ≡ ok one
unfolding register Maps.lookup Maps.insert route_of namespace_of with_route index trim_prefix
registered = refl

register-IsValid_example : IsValid one
register-IsValid_example =
    register-IsValid news empty_registry one registered empty_registry-IsValid

resolved : resolve_route_path (codes " /blog/ ") (codes "news") ≡ ok (codes "/blog/news")
unfolding resolve_route_path has_prefix trim_space trim_slashes
resolved = refl

abbrev specs : List (RouteSpec ℕ)
specs = spec (codes "news") ∷ spec (codes "/other") ∷ spec (codes "news") ∷ []

register_routes_with_base-Outcome_example :
    Outcome
      (codes "blog")
      0
      specs
      (register_routes_with_base (codes "blog") specs empty_registry).0
      (register_routes_with_base (codes "blog") specs empty_registry).1
    × Extends empty_registry (register_routes_with_base (codes "blog") specs empty_registry).0
    × IsValid (register_routes_with_base (codes "blog") specs empty_registry).0
register_routes_with_base-Outcome_example =
    register_routes_with_base-Outcome (codes "blog") specs empty_registry empty_registry-IsValid
