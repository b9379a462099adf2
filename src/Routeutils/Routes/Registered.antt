-- ===== src/Routeutils/Routes/Registered.antt =====
-- What the registration of specifications (internal/routeutils/route.go) leaves in the registry.
use syndi.Common.{
  ℕ, suc, ◌+◌, ◌≡◌, refl, true, List, [], ◌∷◌, Option, none, some, Text, codes, ok, err, >>=-eq-ok,
  Result-cases, arith, All, Bool-cases, inl, inr, take, text_eq_refl, get_elem?, is_empty,
}
use syndi.Golang.Strings.{trim_space, has_prefix}
use syndi.Models.{Route}
use syndi.Registry.{Registry, register, get_route}
use syndi.Registry.Valid.{IsValid, register_lem, register-IsValid, register-kept}
use syndi.Routeutils.Routes.{
  RouteSpec, resolve_route_path, route_of, register_handler, register_route, at_path,
  register_route_with_base, register_from, register_routes_with_base,
}

-- A resolved path is absolute, whatever the base.
pub resolve_route_path-absolute :
    (base path p : Text) → resolve_route_path base path ≡ ok p → has_prefix p (codes "/") ≡ true
unfolding resolve_route_path has_prefix
resolve_route_path-absolute base path p h = ground arith

module _ {H : Type 0} where
  -- The specification's route, with its handler, is registered under its resolved path.
  pub record IsServed (base : Text) (r : Registry H) (spec : RouteSpec H) : Type 0 where
    pub at : Text
    pub handler : H
    pub resolved : resolve_route_path base spec.path ≡ ok at
    pub given : spec.handler ≡ some handler
    pub served : get_route at r ≡ some (route_of (at_path at spec) handler)

  -- What is registered in one registry is registered in the other.
  abbrev pub Extends : Registry H → Registry H → Type 0
  Extends r s = (path : Text) (y : Route H) → get_route path r ≡ some y → get_route path s ≡ some y

  IsServed-Extends :
      (base : Text) (r s : Registry H) (spec : RouteSpec H)
      → Extends r s
      → IsServed base r spec
      → IsServed base s spec
  IsServed-Extends base r s spec e v = record {
    at = v.at;
    handler = v.handler;
    resolved = v.resolved;
    given = v.given;
    served = e v.at _ v.served;
  }

  register_handler-ok :
      (spec : RouteSpec H) (handler : Option H) (r s : Registry H)
      → register_handler spec handler r ≡ ok s
      → (h : H) × (handler ≡ some h) × (register (route_of spec h) r ≡ ok s)
  unfolding register_handler
  register_handler-ok spec none r s e = absurd (cc)
  register_handler-ok spec (some h) r s e = (h, refl, e)

  register_route-ok :
      (spec : RouteSpec H) (r s : Registry H)
      → register_route spec r ≡ ok s
      → (h : H) × (spec.handler ≡ some h) × (register (route_of spec h) r ≡ ok s)
  unfolding register_route
  register_route-ok spec r s e = elim (Bool-cases (is_empty (trim_space spec.path))) [
    | inl blank ↦ absurd (ground (arith, blank, e))
    | inr given ↦ register_handler-ok spec spec.handler r s (ground (arith, given, e))
  ]

  register-served :
      (x : Route H) (r s : Registry H) → register x r ≡ ok s → get_route x.path s ≡ some x
  register-served x r s h = rw ((register_lem x r s h).1 x.path, text_eq_refl)

  register_with_base-IsServed :
      (base : Text) (spec : RouteSpec H) (r s : Registry H)
      → register_route_with_base spec base r ≡ ok s
      → IsServed base s spec × Extends r s × (IsValid r → IsValid s)
  unfolding register_route_with_base route_of
  register_with_base-IsServed base spec r s e =
      let (p, resolved, registered) = >>=-eq-ok (resolve_route_path base spec.path) _ e in
      let (h, given, done) = register_route-ok (at_path p spec) r s registered in
      let x = route_of (at_path p spec) h in
      (
        record {
          at = p;
          handler = h;
          resolved = resolved;
          given = given;
          served = register-served x r s done;
        },
        register-kept x r s done,
        register-IsValid x r s done,
      )

  -- The outcome of a loop over specifications: all are served, or the registration stopped at one of
  -- them, which is refused by the registry that is left, and those before it are served.
  abbrev pub Outcome : Text → ℕ → List (RouteSpec H) → Registry H → Option (ℕ × Text) → Type 0
  Outcome base i specs s none = All (IsServed base s) specs
  Outcome base i specs s (some (j, e)) =
      (k : ℕ) × (spec : RouteSpec H) × (j ≡ i + k)
      × All (IsServed base s) (take k specs)
      × (get_elem? specs k ≡ some spec)
      × (register_route_with_base spec base s ≡ err e)

  Outcome-cons :
      (base : Text) (i : ℕ) (spec : RouteSpec H) (specs : List (RouteSpec H)) (s : Registry H)
      (stop : Option (ℕ × Text))
      → IsServed base s spec
      → Outcome base (i + 1) specs s stop
      → Outcome base i (spec ∷ specs) s stop
  Outcome-cons base i spec specs s none v o = (v, o)
  Outcome-cons base i spec specs s (some (j, e)) v (k, bad, at, before, here, refused) =
      (suc k, bad, omega arith, (v, before), here, refused)

  register_from-lem :
      (i : ℕ) (base : Text) (specs : List (RouteSpec H)) (r : Registry H)
      → Outcome base i specs (register_from i base specs r).0 (register_from i base specs r).1
        × Extends r (register_from i base specs r).0
        × (IsValid r → IsValid (register_from i base specs r).0)
  unfolding register_from
  register_from-lem i base [] r = (tt, λ path y h. h, λ v. v)
  register_from-lem i base (spec ∷ specs) r =
      elim (Result-cases (register_route_with_base spec base r)) [
        | inl (s, done) ↦
            let (here, kept, valid) = register_with_base-IsServed base spec r s done in
            let (rest, later, still) = register_from-lem (i + 1) base specs s in
            rw (done, register_from)
              (
                Outcome-cons base i spec specs _ _ (IsServed-Extends base s _ spec later here) rest,
                λ path y h. later path y (kept path y h),
                λ v. still (valid v),
              )
        | inr (e, refused) ↦
            rw (refused, register_from)
              ((0, spec, omega arith, tt, refl, refused), λ path y h. h, λ v. v)
      ]

  -- `RegisterRoutesWithBase` serves every specification, or stops at the first that is refused, with
  -- its index and error, and then serves those before it; routes registered before stay so, and the
  -- maps of the registry agree.
  pub register_routes_with_base-Outcome :
      (base : Text) (specs : List (RouteSpec H)) (r : Registry H)
      → IsValid r
      → Outcome base 0 specs
          (register_routes_with_base base specs r).0
          (register_routes_with_base base specs r).1
        × Extends r (register_routes_with_base base specs r).0
        × IsValid (register_routes_with_base base specs r).0
  register_routes_with_base-Outcome base specs r v =
      let (o, kept, valid) = register_from-lem 0 base specs r in (o, kept, valid v)
