-- ===== src/Routeutils/Content/Sanitize/Urls.antt =====
-- What sanitizeURL of internal/routeutils/content.go accepts, and the attributes that are safe.
use mathlib.Core.Option
use syndi.Common.{
  ℕ, suc, Bool, true, false, not, ◌&&◌, ◌||◌, List, [], ◌∷◌, any, Option, none, some, Text, text_eq,
  if◌then◌else◌, ◌≡◌, refl, arith, codes,
}
use syndi.Golang.Strings.{to_lower, trim_space, has_prefix, index_func}
use syndi.Routeutils.Content.Sanitize.{
  rejects, unsafe_prefixes, is_query_or_fragment, cut_at, sanitize_url, is_url_attr, keeps_attr,
}

-- A URL without a script-capable scheme.
unfoldable pub is_safe_url : Text → Bool
is_safe_url u = not (any (has_prefix (trim_space (to_lower u))) unsafe_prefixes)

-- An attribute that the set has, and that is no URL or a safe one.
unfoldable pub is_safe_attr : List Text → Text → Text → Bool
is_safe_attr attrs name value =
    any (text_eq (to_lower name)) attrs && (not (is_url_attr (to_lower name)) || is_safe_url value)

abbrev without_query : Text → Text
without_query u = cut_at (index_func is_query_or_fragment u) u

cut_at-map :
    (b : Bool) (o : Option ℕ) (c : ℕ) (u : Text)
    → cut_at (if b then some 0 else Option.map suc o) (c ∷ u) ≡ (if b then [] else c ∷ cut_at o u)
cut_at-map true o c u = refl
cut_at-map false none c u = refl
cut_at-map false (some i) c u = refl

without_query-cons :
    (c : ℕ) (u : Text)
    → without_query (c ∷ u) ≡ (if is_query_or_fragment c then [] else c ∷ without_query u)
unfolding index_func
without_query-cons c u = cut_at-map (is_query_or_fragment c) (index_func is_query_or_fragment u) c u

-- The code points of a scheme.
unfoldable is_scheme : Text → Bool
is_scheme [] = true
is_scheme (c ∷ p) = not (is_query_or_fragment c) && is_scheme p

has_prefix-without_query :
    (u p : Text) → is_scheme p ≡ true → has_prefix (without_query u) p ≡ has_prefix u p
unfolding has_prefix is_scheme index_func
has_prefix-without_query [] p h = refl
has_prefix-without_query (c ∷ u) [] h = refl
has_prefix-without_query (c ∷ u) (d ∷ p) h =
    rw (without_query-cons c u) (ground (arith, has_prefix-without_query u p))

-- sanitizeURL accepts exactly the URLs that, in lower case and without space around them, do not
-- start with one of the three schemes.
pub sanitize_url-is_safe_url : (u : Text) → sanitize_url u ≡ is_safe_url u
unfolding sanitize_url is_safe_url rejects is_scheme
sanitize_url-is_safe_url u =
    let lowered = trim_space (to_lower u) in
    rw
      (
        has_prefix-without_query lowered (codes "javascript:") refl,
        has_prefix-without_query lowered (codes "vbscript:") refl,
        has_prefix-without_query lowered (codes "data:") refl,
      )
      (ground arith)

pub keeps_attr-is_safe_attr :
    (attrs : List Text) (name value : Text)
    → keeps_attr attrs name value ≡ is_safe_attr attrs name value
unfolding is_safe_attr
keeps_attr-is_safe_attr attrs name value = rw (sanitize_url-is_safe_url value) (ground arith)
