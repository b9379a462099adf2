-- ===== src/Routeutils/Routes.antt =====
-- internal/routeutils/route.go: the registration of routes from their specifications.
pub mod Registered
use syndi.Common.{
  ℕ, zero, suc, ◌+◌, Bool, true, false, List, [], ◌∷◌, ◌++◌, Option, none, some, Text, codes,
  text_eq, Result, ok, err, ◌>>=◌, ℤ, pos, ltb_ℤ, ◌==◌, any, if◌then◌else◌, is_empty,
}
use syndi.Golang.Strings.{trim_space, trim_func, has_prefix}
use syndi.Models.{Route, Category, Features, Parameter, Time}
use syndi.Registry.{Registry, register}

-- A specification, over the type of handlers; no handler is the nil function.
pub record RouteSpec (H : Type 0) : Type 0 where
  pub path : Text
  pub name : Text
  pub url : Text
  pub example : Text
  pub maintainers : List Text
  pub description : Text
  pub categories : List Category
  pub features : Features
  pub parameters : List Parameter
  pub cache_ttl : Time
  pub handler : Option H

-- `strings.Trim(s, "/")`.
unfoldable pub trim_slashes : Text → Text
trim_slashes s = trim_func (λ c. c == b'/') s

unfoldable pub resolve_route_path : Text → Text → Result Text
resolve_route_path base_path path =
    let p = trim_space path in
    let base = trim_slashes (trim_space base_path) in
    let q = trim_slashes p in
    if has_prefix p (codes "/")
    then ok p
    else if is_empty base
    then if is_empty p then err (codes "route path is required") else ok (codes "/" ++ q)
    else if is_empty q
    then ok (codes "/" ++ base)
    else ok (codes "/" ++ (base ++ (codes "/" ++ q)))

abbrev pub set_required : Parameter → Parameter
set_required p = record p { required = true }

-- The loops of `RequireParams` over the specification's parameters.
unfoldable pub require_params : List Text → List Parameter → List Parameter
require_params names [] = []
require_params names (p ∷ ps) =
    (if any (λ n. text_eq p.name n) names then set_required p else p) ∷ require_params names ps

module _ {H : Type 0} where
  unfoldable pub route_of : RouteSpec H → H → Route H
  route_of spec handler = record {
    path = spec.path;
    name = spec.name;
    url = spec.url;
    handler = handler;
    example = spec.example;
    maintainers = spec.maintainers;
    description = spec.description;
    categories = spec.categories;
    features = spec.features;
    parameters = spec.parameters;
    radar = [];
    cache_ttl = if ltb_ℤ (pos 0) spec.cache_ttl then some spec.cache_ttl else none;
  }

  unfoldable pub register_handler : RouteSpec H → Option H → Registry H → Result (Registry H)
  register_handler spec none r = err (codes "route handler is required for " ++ spec.path)
  register_handler spec (some h) r = register (route_of spec h) r

  unfoldable pub register_route : RouteSpec H → Registry H → Result (Registry H)
  register_route spec r =
      if is_empty (trim_space spec.path)
      then err (codes "route path is required")
      else register_handler spec spec.handler r

  abbrev pub at_path : Text → RouteSpec H → RouteSpec H
  at_path p spec = record spec { path = p }

  unfoldable pub register_route_with_base : RouteSpec H → Text → Registry H → Result (Registry H)
  register_route_with_base spec base r = do
    p ← resolve_route_path base spec.path
    register_route (at_path p spec) r

  -- `RegisterRoutesWithBase`: the registry after it, and the index and error at which it stopped.
  -- What was registered before an error stays registered.
  unfoldable pub register_from :
      ℕ → Text → List (RouteSpec H) → Registry H → Registry H × Option (ℕ × Text)
  register_from i base [] r = (r, none)
  register_from i base (spec ∷ specs) r = elim (register_route_with_base spec base r) [
    | err e ↦ (r, some (i, e))
    | ok s ↦ register_from (i + 1) base specs s
  ]

  abbrev pub register_routes_with_base :
      Text → List (RouteSpec H) → Registry H → Registry H × Option (ℕ × Text)
  register_routes_with_base = register_from 0
