-- ===== src/Client/Requests/Visited.antt =====
-- The builder's requests in internal/client/client.go, whatever the order in which its maps are
-- visited.
use mathlib.Core.List.{Permᴰ, append_assoc, append-nil}
use mathlib.Core.List.Perm
use mathlib.Core.List.Permᴰ
use mathlib.Core.Path.{subst}
use syndi.Common.{
  false, none, List, [], ◌∷◌, ◌>>=◌, ◌++◌, Text, codes, text_eq, text_eq_iff, text_eq_refl,
  text_eq→≡, ◌≡◌, refl, sym, ap, ◌∙◌, arith, Bool-cases, inl, inr,
}
use syndi.Common.Maps.{lookup, insert}
use syndi.Client.Retry.{Client, Request}
use syndi.Client.Requests.{
  Header, HttpApi, canonical, set_header, set_headers, insert_all, builder,
  with_params_unless_empty, with_headers, with_query_map, get_with_headers, get_with_query,
  send_built, new_request, fetch,
}
use syndi.Client.Requests.Headers.{IsApart}

-- A Go map binds each key once.
abbrev pub IsMap : List (Text × Text) → Type 0
IsMap [] = Unit
IsMap ((k, v) ∷ m) = (lookup k m ≡ none) × IsMap m

insert-absent :
    (k v : Text) (m : List (Text × Text)) → lookup k m ≡ none → insert k v m ≡ m ++ ((k, v) ∷ [])
unfolding lookup insert
insert-absent k v [] h = refl
insert-absent k v ((j, w) ∷ m) h = elim (Bool-cases (text_eq j k)) [
  | inl e ↦ absurd (cc (rw e at h))
  | inr e ↦ rw e (ap (λ rest. (j, w) ∷ rest) (insert-absent k v m (rw e at h)))
]

lookup-apart :
    (j k v : Text) (front back : List (Text × Text))
    → lookup j (front ++ ((k, v) ∷ back)) ≡ none
    → text_eq k j ≡ false
unfolding lookup
lookup-apart j k v [] back h = elim (Bool-cases (text_eq k j)) [
  | inl e ↦ absurd (cc (rw e at h))
  | inr e ↦ e
]
lookup-apart j k v ((i, w) ∷ front) back h = elim (Bool-cases (text_eq i j)) [
  | inl e ↦ absurd (cc (rw e at h))
  | inr e ↦ lookup-apart j k v front back (rw e at h)
]

IsMap-absent :
    (k v : Text) (front back : List (Text × Text))
    → IsMap (front ++ ((k, v) ∷ back))
    → lookup k front ≡ none
unfolding lookup
IsMap-absent k v [] back h = refl
IsMap-absent k v ((j, w) ∷ front) back (apart, h) =
    let differ = lookup-apart j k v front back apart in
    ground (arith, IsMap-absent k v front back h, differ, text_eq_iff k j, text_eq_iff j k)

insert_all-append :
    (pairs m : List (Text × Text)) → IsMap (m ++ pairs) → insert_all pairs m ≡ m ++ pairs
unfolding insert_all
insert_all-append [] m h = sym (append-nil m)
insert_all-append ((k, v) ∷ pairs) m h =
    let moved = append_assoc m ((k, v) ∷ []) pairs in
    rw (insert-absent k v m (IsMap-absent k v m pairs h))
      (insert_all-append pairs (m ++ ((k, v) ∷ [])) (rw moved h) ∙ moved)

-- No two names are equal up to case.
abbrev pub AreDistinct : List (Text × Text) → Type 0
AreDistinct [] = Unit
AreDistinct (h ∷ headers) = IsApart (canonical h.0) headers × AreDistinct headers

-- `Encode` sorts the parameters by their keys, so that the order of adding them does not matter where
-- no key is added twice.
pub record SortsParams (api : HttpApi) : Type 0 where
  pub sorted :
      (params visited : List (Text × Text)) (url : Text)
      → IsMap params
      → Permᴰ visited params
      → api.with_params visited url ≡ api.with_params params url

absent_apart :
    (k : Text) (headers : List (Text × Text))
    → IsApart (canonical k) headers
    → lookup k headers ≡ none
unfolding lookup
absent_apart k [] a = refl
absent_apart k ((j, w) ∷ headers) (differ, a) = elim (Bool-cases (text_eq j k)) [
  | inl e ↦ absurd (cc (rw (text_eq→≡ j k e, text_eq_refl (canonical k)) at differ))
  | inr e ↦ rw e (absent_apart k headers a)
]

AreDistinct-IsMap : (headers : List (Text × Text)) → AreDistinct headers → IsMap headers
AreDistinct-IsMap [] h = tt
AreDistinct-IsMap ((k, v) ∷ headers) (apart, h) =
    (absent_apart k headers apart, AreDistinct-IsMap headers h)

apart_sym : (s t : Text) → text_eq s t ≡ false → text_eq t s ≡ false
apart_sym s t h = ground (arith, h, text_eq_iff s t, text_eq_iff t s)

IsApart-perm :
    (name : Text) {xs ys : List (Text × Text)} → Permᴰ xs ys → IsApart name xs → IsApart name ys
IsApart-perm name Permᴰ.nil h = tt
IsApart-perm name (Permᴰ.cons e p) h =
    (subst (λ q. text_eq (canonical q.0) name ≡ false) e h.0, IsApart-perm name p h.1)
IsApart-perm name (Permᴰ.swap e f) h = (
  subst (λ q. text_eq (canonical q.0) name ≡ false) f h.1.0,
  (subst (λ q. text_eq (canonical q.0) name ≡ false) e h.0, h.1.1),
)
IsApart-perm name (Permᴰ.trans p q) h = IsApart-perm name q (IsApart-perm name p h)

AreDistinct-perm : {xs ys : List (Text × Text)} → Permᴰ xs ys → AreDistinct xs → AreDistinct ys
AreDistinct-perm Permᴰ.nil h = tt
AreDistinct-perm (Permᴰ.cons {l₂ = ys} e p) h =
    (subst (λ q. IsApart (canonical q.0) ys) e (IsApart-perm _ p h.0), AreDistinct-perm p h.1)
AreDistinct-perm (Permᴰ.swap {a = a} {b = b} {a' = a'} {b' = b'} {l = l} e f) h =
    let differ = apart_sym (canonical b.0) (canonical a.0) h.0.0 in
    let differ_f = subst (λ q. text_eq (canonical a.0) (canonical q.0) ≡ false) f differ in
    let differ_e = subst (λ q. text_eq (canonical q.0) (canonical a'.0) ≡ false) e differ_f in
    (
      (differ_e, subst (λ q. IsApart (canonical q.0) l) f h.1.0),
      (subst (λ q. IsApart (canonical q.0) l) e h.0.1, h.1.1),
    )
AreDistinct-perm (Permᴰ.trans p q) h = AreDistinct-perm q (AreDistinct-perm p h)

set_header_swap :
    (j v k w : Text) (h : Header) (name : Text)
    → text_eq (canonical j) (canonical k) ≡ false
    → set_header j v (set_header k w h) name ≡ set_header k w (set_header j v h) name
set_header_swap j v k w h name differ = elim (Bool-cases (text_eq (canonical j) name)) [
  | inl e ↦ elim (Bool-cases (text_eq (canonical k) name)) [
    | inl f ↦ absurd (
        cc (
          rw (text_eq→≡ (canonical j) name e, text_eq→≡ (canonical k) name f, text_eq_refl name) at
            differ))
    | inr f ↦ rw (e, f) refl
  ]
  | inr e ↦ rw e refl
]

set_headers-perm :
    {xs ys : List (Text × Text)}
    → Permᴰ xs ys
    → AreDistinct xs
    → (h : Header) → set_headers xs h ≡ set_headers ys h
unfolding set_headers
set_headers-perm Permᴰ.nil distinct h = refl
set_headers-perm (Permᴰ.cons {a = (j, v)} {b = b} {l₁ = xs} {l₂ = ys} e p) distinct h =
    set_headers-perm p distinct.1 (set_header j v h) ∙ ap (λ q. set_headers (q ∷ ys) h) e
set_headers-perm (Permᴰ.swap {a = (j, v)} {b = (k, w)} {a' = a'} {l = l} e f) distinct h =
    ap (set_headers l) (λ i name. set_header_swap k w j v h name distinct.0.0 i)
    ∙ ap (λ q. set_headers (q ∷ (j, v) ∷ l) h) f
    ∙ ap (λ q. set_headers (a' ∷ q ∷ l) h) e
set_headers-perm (Permᴰ.trans p q) distinct h =
    set_headers-perm p distinct h ∙ set_headers-perm q (AreDistinct-perm p distinct) h

with_params_visited :
    (api : HttpApi) (visited params : List (Text × Text)) (req : Request)
    → SortsParams api
    → IsMap params
    → Permᴰ visited params
    → with_params_unless_empty api visited req ≡ with_params_unless_empty api params req
with_params_visited api [] [] req sorts unique p = refl
with_params_visited api [] (q ∷ params) req sorts unique p = absurd (cc (Perm.nil-eq ∣ p ∣₁))
with_params_visited api (v ∷ visited) [] req sorts unique p = absurd (cc (Perm.eq-nil ∣ p ∣₁))
with_params_visited api (v ∷ visited) (q ∷ params) req sorts unique p =
    ap (λ url. record req { url = url }) (sorts.sorted (q ∷ params) (v ∷ visited) req.url unique p)

visited_request :
    (api : HttpApi) (named headers visited params : List (Text × Text)) (req : Request)
    → SortsParams api
    → Permᴰ named headers
    → AreDistinct headers
    → Permᴰ visited params
    → IsMap params
    → with_params_unless_empty api visited (record req { header = set_headers named req.header })
      ≡ with_params_unless_empty api params (record req { header = set_headers headers req.header })
visited_request api named headers visited params req sorts p distinct q unique =
    ap (λ h. with_params_unless_empty api visited (record req { header = h }))
      (sym (set_headers-perm (Permᴰ.symm p) distinct req.header))
    ∙ with_params_visited api visited params
        (record req { header = set_headers headers req.header }) sorts unique q

-- A GET request that is built with headers whose names differ up to case, or with parameters, has the
-- result of the method that takes them, whatever the order in which the maps are visited, if the encoding
-- of a query sorts its parameters.
pub send_built-get :
    (api : HttpApi) (c : Client)
    → SortsParams api
    → (visit_headers visit_query : List (Text × Text) → List (Text × Text))
    → ((m : List (Text × Text)) → Permᴰ (visit_headers m) m)
    → ((m : List (Text × Text)) → Permᴰ (visit_query m) m)
    → (url : Text) (headers params : List (Text × Text)) → AreDistinct headers
    → IsMap params
    → (send_built api c visit_headers visit_query (with_headers headers (builder (codes "GET") url))
        ≡ get_with_headers api c url headers)
      × (send_built api c visit_headers visit_query
            (with_query_map params (builder (codes "GET") url))
          ≡ get_with_query api c url params)
unfolding send_built get_with_headers get_with_query set_headers
send_built-get api c sorts visit_headers visit_query any_h any_q url headers params distinct
      unique =
    let named = λ (req : Request).
      visited_request api (visit_headers headers) headers (visit_query []) [] req sorts
        (any_h headers) distinct (any_q []) tt in
    let queried = λ (req : Request).
      visited_request api (visit_headers []) [] (visit_query params) params req sorts (any_h []) tt
        (any_q params) unique in
    (
      rw (insert_all-append headers [] (AreDistinct-IsMap headers distinct))
          (λ i. do req ← new_request api (codes "GET") url none; fetch api c none (named req i)),
      rw (insert_all-append params [] unique)
          (λ i. do req ← new_request api (codes "GET") url none; fetch api c none (queried req i)),
    )
