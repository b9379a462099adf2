-- ===== src/Registry.antt =====
-- pkg/registry/registry.go: the routes by their paths, and grouped by namespace.
pub mod Env
pub mod Valid
use syndi.Common.{
  ℕ, zero, suc, Bool, true, false, List, [], ◌∷◌, ◌++◌, map, Option, none, some, Text, codes,
  Result, ok, err, take, if◌then◌else◌,
}
use syndi.Common.Maps
use syndi.Golang.Strings.{trim_prefix, index}
use syndi.Models.{Route}

pub record Namespace (H : Type 0) : Type 0 where
  pub name : Text
  pub description : Text
  pub routes : List (Route H)

pub record Registry (H : Type 0) : Type 0 where
  pub routes : List (Text × Route H)
  pub namespaces : List (Text × Namespace H)

abbrev pub before_slash : Option ℕ → Text → Text
before_slash none s = s
before_slash (some zero) s = s
before_slash (some (suc n)) s = take (suc n) s

-- The first segment of a path: what stands before the second slash.
unfoldable pub namespace_of : Text → Text
namespace_of path = let s = trim_prefix path b'/' in before_slash (index s b'/') s

module _ {H : Type 0} where
  abbrev pub empty_registry : Registry H
  empty_registry = record { routes = []; namespaces = [] }

  unfoldable pub get_route : Text → Registry H → Option (Route H)
  get_route path r = Maps.lookup path r.routes

  abbrev pub routes_of : Option (Namespace H) → List (Route H)
  routes_of none = []
  routes_of (some ns) = ns.routes

  unfoldable pub get_namespace_routes : Text → Registry H → List (Route H)
  get_namespace_routes name r = routes_of (Maps.lookup name r.namespaces)

  unfoldable pub get_all_routes : Registry H → List (Route H)
  get_all_routes r = map (λ e. e.1) r.routes

  unfoldable pub get_all_namespaces : Registry H → List (Namespace H)
  get_all_namespaces r = map (λ e. e.1) r.namespaces

  -- The namespace with one more route: a new one where there was none.
  unfoldable pub with_route : Text → Route H → Option (Namespace H) → Namespace H
  with_route name route none = record { name = name; description = []; routes = route ∷ [] }
  with_route name route (some ns) = record ns { routes = ns.routes ++ route ∷ [] }

  unfoldable pub register : Route H → Registry H → Result (Registry H)
  register route r = elim (Maps.lookup route.path r.routes) [
    | some _ ↦ err (codes "route already registered: " ++ route.path)
    | none ↦
        let name = namespace_of route.path in
        ok (record {
          routes = Maps.insert route.path route r.routes;
          namespaces =
              Maps.insert name (with_route name route (Maps.lookup name r.namespaces)) r.namespaces;
        })
  ]
