-- ===== src/Routeutils/Urls/Queries.antt =====
-- What the functions of internal/routeutils/link.go and url.go do to one another, for a package
-- net/url that reads back the URLs and the queries that it writes.
use syndi.Common.{
  [], ◌∷◌, false, Text, text_eq, text_eq_refl, ok, err, Result-cases, ◌≡◌, refl, ◌⊎◌, inl, inr,
  codes, ◌++◌,
}
use syndi.Common.Maps
use syndi.Routeutils.Urls.{
  UrlParts, Values, UrlApi, set_value, get_value, add_query_param, get_query_param,
}

-- A URL that was parsed, written with an encoded query and any fragment, parses to a URL with that
-- query: an encoded query has none of the characters that end it. For each key `Query` has what
-- `Encode` was given.
pub record ReadsBack (api : UrlApi) : Type 0 where
  pub parse-string :
      (u : Text) (p : UrlParts) (fragment : Text) (q : Values)
      → api.parse u ≡ ok p
      → (p' : UrlParts) × (api.parse
            (api.string (record p { fragment = fragment; raw_query = api.encode q }))
          ≡ ok p')
        × (p'.raw_query ≡ api.encode q)
  pub query-encode :
      (key : Text) (q : Values) → get_value key (api.query (api.encode q)) ≡ get_value key q

module _ (api : UrlApi) (h : ReadsBack api) where
  -- A parameter that was added to a URL is what the URL then has for its key, and what the URL has for
  -- another key is unchanged; adding to what does not parse is an error.
  pub get_query_param-add_query_param :
      (u key value other : Text)
      → text_eq key other ≡ false
      → ((added : Text) × (add_query_param api u key value ≡ ok added)
          × (get_query_param api added key ≡ ok value)
          × (get_query_param api added other ≡ get_query_param api u other))
        ⊎ ((message : Text) × (add_query_param api u key value ≡ err message))
  unfolding add_query_param get_query_param
  get_query_param-add_query_param u key value other apart = elim (Result-cases (api.parse u)) [
    | inl (p, e) ↦
        let q = set_value key value (api.query p.raw_query) in
        let (p', back, same) = h.parse-string u p p.fragment q e in
        inl (
          api.string (record p { raw_query = api.encode q }),
          rw e refl,
          rw
              (
                back,
                same,
                h.query-encode key q,
                Maps.lookup-insert key key (value ∷ []) (api.query p.raw_query),
                text_eq_refl key,
              )
              refl,
          rw
              (
                back,
                same,
                e,
                h.query-encode other q,
                Maps.lookup-insert key other (value ∷ []) (api.query p.raw_query),
                apart,
              )
              refl,
        )
    | inr (message, e) ↦ inr (codes "invalid URL: " ++ message, rw e refl)
  ]
