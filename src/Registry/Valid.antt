-- ===== src/Registry/Valid.antt =====
-- Registration (pkg/registry/registry.go): what it changes, when it is refused, and that the two
-- maps of the registry agree.
use mathlib.Core.List.{Memᴰ}
use mathlib.Core.List.Memᴰ
use mathlib.Core.Path.{subst}
use syndi.Common.{
  ◌≡◌, refl, sym, ap, ◌∙◌, ◌↔◌, ◌≢◌, List, [], ◌∷◌, ◌++◌, Option, none, some, Text, codes, ok, err,
  arith, inl, inr, text_eq, text_eq_iff, text_eq→≡, text_eq_refl, ◌⊎◌, Bool-cases, Option-cases,
  if◌then◌else◌,
}
use syndi.Common.Maps
use syndi.Models.{Route}
use syndi.Registry.{
  Namespace, Registry, namespace_of, empty_registry, get_route, routes_of, get_namespace_routes,
  with_route, register,
}

module _ {H : Type 0} where
  -- A route is in the group of a name exactly if it is registered and has that namespace.
  pub record IsValid (r : Registry H) : Type 0 where
    pub grouped :
        (name : Text) (x : Route H)
        → Memᴰ x (get_namespace_routes name r)
        → (namespace_of x.path ≡ name) × (get_route x.path r ≡ some x)
    pub filed :
        (path : Text) (x : Route H)
        → get_route path r ≡ some x
        → (x.path ≡ path) × Memᴰ x (get_namespace_routes (namespace_of path) r)

  pub empty_registry-IsValid : IsValid empty_registry
  unfolding get_namespace_routes get_route Maps.lookup
  empty_registry-IsValid = record {
    grouped = λ name x m. elim m [ ];
    filed = λ path x h. absurd (cc);
  }

  with_route-routes :
      (name : Text) (x : Route H) (ns : Option (Namespace H))
      → (with_route name x ns).routes ≡ routes_of ns ++ x ∷ []
  unfolding with_route
  with_route-routes name x none = refl
  with_route-routes name x (some ns) = refl

  insert-routes :
      (key name : Text) (x : Route H) (m : List (Text × Namespace H))
      → routes_of (Maps.lookup name (Maps.insert key (with_route key x (Maps.lookup key m)) m)) ≡ (
          if text_eq key name
          then routes_of (Maps.lookup name m) ++ x ∷ []
          else routes_of (Maps.lookup name m))
  insert-routes key name x m = elim (Bool-cases (text_eq key name)) [
    | inl same ↦
        rw (Maps.lookup-insert, same)
          (with_route-routes key x (Maps.lookup key m)
            ∙ ap (λ k. routes_of (Maps.lookup k m) ++ x ∷ []) (text_eq→≡ key name same))
    | inr other ↦ rw (Maps.lookup-insert, other)
  ]

  added : Route H → Registry H → Registry H
  added x r =
      let name = namespace_of x.path in
      record {
        routes = Maps.insert x.path x r.routes;
        namespaces =
            Maps.insert name (with_route name x (Maps.lookup name r.namespaces)) r.namespaces;
      }

  register-added :
      (x : Route H) (r : Registry H)
      → register x r ≡ (elim (get_route x.path r) [
        | some _ ↦ err (codes "route already registered: " ++ x.path)
        | none ↦ ok (added x r)
      ])
  unfolding register get_route added
  register-added x r = refl

  -- Registration is refused exactly if the path is taken.
  pub register-refused_iff :
      (x : Route H) (r : Registry H)
      → (register x r ≡ err (codes "route already registered: " ++ x.path))
        ↔ (get_route x.path r ≢ none)
  register-refused_iff x r = rw register-added (
    (λ h e. absurd (ground (arith, h, e))),
    λ h. elim (Option-cases (get_route x.path r)) [
      | inl free ↦ absurd (h free)
      | inr (old, taken) ↦ rw taken
    ],
  )

  register-ok :
      (x : Route H) (r s : Registry H)
      → register x r ≡ ok s
      → (get_route x.path r ≡ none) × (s ≡ added x r)
  register-ok x r s h = let e = sym (register-added x r) ∙ h in ground (arith, e)

  -- A route registered is found under its path, and stands at the end of its namespace; every other
  -- path and namespace is as before.
  pub register_lem :
      (x : Route H) (r s : Registry H)
      → register x r ≡ ok s
      → (get_route x.path r ≡ none)
        × ((path : Text)
            → get_route path s ≡ (if text_eq x.path path then some x else get_route path r))
        × ((name : Text)
            → get_namespace_routes name s ≡ (
                if text_eq (namespace_of x.path) name
                then get_namespace_routes name r ++ x ∷ []
                else get_namespace_routes name r))
  unfolding get_route get_namespace_routes added
  register_lem x r s h =
      let (free, same) = register-ok x r s h in
      (
        free,
        λ path. rw same (Maps.lookup-insert x.path path x r.routes),
        λ name. rw same (insert-routes (namespace_of x.path) name x r.namespaces),
      )

  module _ (x : Route H) (r s : Registry H) (h : register x r ≡ ok s) where
    pub register-kept :
        (path : Text) (y : Route H) → get_route path r ≡ some y → get_route path s ≡ some y
    register-kept path y e =
        let (free, routes, _) = register_lem x r s h in
        ground (arith, free, routes path, text_eq_iff x.path path)

    route_cases :
        (path : Text) (y : Route H)
        → get_route path s ≡ some y
        → (get_route path r ≡ some y) ⊎ ((x.path ≡ path) × (x ≡ y))
    route_cases path y e =
        let (_, routes, _) = register_lem x r s h in
        elim (Bool-cases (text_eq x.path path)) [
          | inl same ↦
              let here : x ≡ y = ground (arith, routes path) in
              inr (text_eq→≡ x.path path same, here)
          | inr other ↦ inl (ground (arith, routes path))
        ]

    member_cases :
        (name : Text) (y : Route H)
        → Memᴰ y (get_namespace_routes name s)
        → Memᴰ y (get_namespace_routes name r) ⊎ ((namespace_of x.path ≡ name) × (y ≡ x))
    member_cases name y m =
        let (_, _, groups) = register_lem x r s h in
        elim (Bool-cases (text_eq (namespace_of x.path) name)) [
          | inl same ↦
              let at : get_namespace_routes name s ≡ get_namespace_routes name r ++ x ∷ [] =
                ground (arith, groups name) in
              elim (Memᴰ.append_cases (get_namespace_routes name r) (subst (Memᴰ y) at m)) [
                | inl old ↦ inl old
                | inr fresh ↦ inr (text_eq→≡ _ name same, Memᴰ.eq_of_singleton fresh)
              ]
          | inr other ↦
              let at : get_namespace_routes name s ≡ get_namespace_routes name r =
                ground (arith, groups name) in
              inl (subst (Memᴰ y) at m)
        ]

    member_kept :
        (name : Text) (y : Route H)
        → Memᴰ y (get_namespace_routes name r)
        → Memᴰ y (get_namespace_routes name s)
    member_kept name y m =
        let (_, _, groups) = register_lem x r s h in
        elim (Bool-cases (text_eq (namespace_of x.path) name)) [
          | inl same ↦ rw (groups name, same) (Memᴰ.append_left (x ∷ []) m)
          | inr other ↦ rw (groups name, other) m
        ]

    member_new : Memᴰ x (get_namespace_routes (namespace_of x.path) s)
    member_new =
        let (_, _, groups) = register_lem x r s h in
        rw (groups (namespace_of x.path), text_eq_refl)
          (Memᴰ.append_right (get_namespace_routes (namespace_of x.path) r) (Memᴰ.head refl))

    -- Registration keeps the two maps in agreement.
    pub register-IsValid : IsValid r → IsValid s
    register-IsValid v = record {
      grouped = λ name y m. elim (member_cases name y m) [
        | inl old ↦ let (ns, found) = v.grouped name y old in (ns, register-kept y.path y found)
        | inr (ns, same) ↦ (
          ap (λ z. namespace_of z.path) same ∙ ns,
          subst (λ (z : Route H). get_route z.path s ≡ some z) (sym same) found_new,
        )
      ];
      filed = λ path y e. elim (route_cases path y e) [
        | inl old ↦ let (p, m) = v.filed path y old in (p, member_kept (namespace_of path) y m)
        | inr (p, same) ↦ (
          ap (λ z. z.path) (sym same) ∙ p,
          subst (λ q. Memᴰ y (get_namespace_routes (namespace_of q) s)) p
              (subst (λ z. Memᴰ z (get_namespace_routes (namespace_of x.path) s)) same member_new),
        )
      ];
    }
      where
        found_new : get_route x.path s ≡ some x
        found_new = rw ((register_lem x r s h).1 x.path, text_eq_refl)
