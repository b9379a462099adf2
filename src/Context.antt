-- ===== src/Context.antt =====
-- pkg/context/context.go: what a route's handler has of its request. No cache is the nil interface, on which a
-- call panics.
use syndi.Common.{
  Bool, List, [], Option, none, some, Text, codes, text_eq, ◌++◌, Result, ok, err, if◌then◌else◌,
}
use syndi.Common.Maps.{lookup}
use syndi.Models.{Time}
use syndi.Cache.Store.{Store}
use syndi.Routeutils.Urls.{Values, get_value}

-- The request, as far as the code reads it: whether it came over TLS, its headers and its host.
pub record RouteContext : Type 0 where
  pub tls : Bool
  pub header : Text → Text
  pub host : Text
  pub params : List (Text × Text)
  pub query : Values

abbrev or_empty : Option Text → Text
or_empty none = []
or_empty (some value) = value

abbrev param : RouteContext → Text → Text
param c key = or_empty (lookup key c.params)

abbrev query_param : RouteContext → Text → Text
query_param c key = get_value key c.query

abbrev base_url : RouteContext → Text
base_url c =
    let scheme =
      if c.tls
      then codes "https"
      else if text_eq (c.header (codes "X-Forwarded-Proto")) (codes "https")
      then codes "https"
      else codes "http" in
    scheme ++ (codes "://" ++ c.host)

module _ {V : Type 0} (store : Store V) where
  -- After the lookup at `now`; a computed value is stored at `later`.
  abbrev pub found_or_computed :
      Time → Text → Time → Result V → Option V × store.State → Result V × store.State
  found_or_computed later key ttl fn (some value, s) = (ok value, s)
  found_or_computed later key ttl (err message) (none, s) = (err message, s)
  found_or_computed later key ttl (ok value) (none, s) = (ok value, store.set later key value ttl s)

  -- `none` is the panic. `fn` is the result of the function that computes a missing value.
  unfoldable pub cache_try_get :
      Time → Time → Text → Time → Result V → Option store.State → Option (Result V × store.State)
  cache_try_get now later key ttl fn none = none
  cache_try_get now later key ttl fn (some s) =
      some (found_or_computed later key ttl fn (store.get now key s))
