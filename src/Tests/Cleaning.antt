-- ===== src/Tests/Cleaning.antt =====
-- Descriptions, links and texts that internal/routeutils/content.go, url.go and link.go treat.
use syndi.Common.{
  ℕ, zero, suc, ◌≤◌, ◌<◌, ◌≡◌, ◌⊎◌, refl, true, List, [], ◌∷◌, ◌++◌, none, some, Text, codes,
  text_eq, pos, length, take, ok,
}
use syndi.Common.Maps
use syndi.Golang.Strings.{last_index, to_lower, has_prefix, index_func, trim_space}
use syndi.Routeutils.Urls.{UrlApi, UrlParts, Values, first_value}
use syndi.Common.{◌⊎◌}
use syndi.Routeutils.Content.Whitespace.{normalize_whitespace}
use syndi.Routeutils.Content.Whitespace.Words.{fields, join_words, normalize_whitespace-fields}
use syndi.Routeutils.Content.Truncate.{truncate, CutAt, truncate-cut}
use syndi.Routeutils.Content.Sanitize.{
  Node, Nodes, text, element, document, nil, cons, sanitize_node, sanitize_url, attr_set,
  write_attrs, escape_string,
}
use syndi.Routeutils.Content.Sanitize.Forest.{print_nodes, text_node, text_nodes}
use syndi.Routeutils.Content.Sanitize.Clean.{are_clean, sanitize_node-clean}
use syndi.Routeutils.Content.Pipeline.{
  Page, CleanOptions, default_clean_options, clean_description, run_passes, sanitize_html,
  remove_scripts, fix_lazy_images, add_referrer_policy,
}
use syndi.Routeutils.Content.Pipeline.Sanitized.{IsSanitized, clean_description-IsSanitized}

normalize_whitespace-fields_example :
    normalize_whitespace (codes " a \n b ") ≡ join_words (fields (codes " a \n b "))
normalize_whitespace-fields_example = normalize_whitespace-fields (codes " a \n b ")

truncate_test :
    (truncate (codes "one two three") (pos 6) (codes "...") ≡ codes "one...")
    × (truncate (codes "one two") (pos 7) (codes "...") ≡ codes "one two")
unfolding truncate last_index
truncate_test = (refl, refl)

truncate-cut_example :
    (13 ≤ 6 × (truncate (codes "one two three") (pos 6) (codes "...") ≡ codes "one two three"))
    ⊎ (6 < 13
        × (k : ℕ) × CutAt (codes "one two three") 6 k
        × (truncate (codes "one two three") (pos 6) (codes "...")
            ≡ take k (codes "one two three") ++ codes "..."))
truncate-cut_example = truncate-cut (codes "one two three") (codes "...") 6

-- A link in a script.
abbrev page_node : Node
page_node = document (
    cons
      (element (codes "a")
        ((codes "href", codes "javascript:x") ∷ (codes "title", codes "\"t\"") ∷ [])
        (cons (text (codes "go"))
          (cons (element (codes "b") [] (cons (text (codes "!")) nil)) nil)))
      nil)

abbrev tags : List Text
tags = codes "a" ∷ []

sanitize_test :
    sanitize_node tags (attr_set []) page_node [] ≡ codes "<a title=\"&#34;t&#34;\">go!</a>"
unfolding sanitize_node write_attrs text_eq to_lower sanitize_url has_prefix index_func trim_space
    escape_string
sanitize_test = refl

sanitize_node-clean_example :
    (forest : Nodes) × (sanitize_node tags (attr_set []) page_node [] ≡ print_nodes forest)
    × (are_clean tags (attr_set []) forest ≡ true)
    × (text_nodes forest ≡ text_node page_node)
sanitize_node-clean_example = sanitize_node-clean tags (attr_set []) page_node

-- A page whose text is the one link of `page_node`.
abbrev page : Page
page = record {
  Document = Text;
  load_string = λ s. ok s;
  each = λ selector f s. s;
  remove = λ selector s. s;
  body_html = λ s. none;
  html = λ s. ok s;
  parse = λ s. ok page_node;
  replace_all = λ pattern new s. s;
  unescape_string = λ s. s;
}

abbrev drop : ℕ → Text → Text
drop zero s = s
drop (suc n) [] = []
drop (suc n) (c ∷ s) = drop n s

-- Queries with the lengths of keys and first values before them.
encode : Values → Text
encode [] = []
encode ((key, vs) ∷ q) =
    let value = first_value (some vs) in length key ∷ key ++ (length value ∷ value ++ encode q)

abbrev decode_value : (Text → Values) → Text → Text → Values
decode_value later key [] = []
decode_value later key (n ∷ s) = (key, take n s ∷ []) ∷ later (drop n s)

decode : ℕ → Text → Values
decode zero s = []
decode (suc fuel) [] = []
decode (suc fuel) (n ∷ s) = decode_value (decode fuel) (take n s) (drop n s)

abbrev url_parts : Text → UrlParts
url_parts query = record {
  scheme = [];
  host = [];
  path = [];
  raw_query = query;
  fragment = [];
  others = [];
}

-- URLs of a query only.
abbrev urls : UrlApi
urls = record {
  parse = λ u. ok (url_parts u);
  string = λ p. p.raw_query;
  resolve_reference = λ base p. p;
  query = λ s. decode (length s) s;
  encode = encode;
}

abbrev sanitizing : CleanOptions
sanitizing = record default_clean_options {
  sanitize = true;
  allowed_tags = tags;
  suffix = codes "<hr>";
}

cleaned :
    clean_description page urls (codes "x") [] sanitizing
    ≡ ok (codes "<a title=\"&#34;t&#34;\">go!</a><hr>")
unfolding clean_description run_passes sanitize_html sanitize_node write_attrs text_eq to_lower
    sanitize_url has_prefix index_func trim_space escape_string remove_scripts fix_lazy_images
    add_referrer_policy
cleaned = refl

clean_description-IsSanitized_example :
    (passed : Text) × (run_passes page urls (codes "x") [] sanitizing ≡ ok passed)
    × (body : Text) × IsSanitized page tags [] passed body
    × (codes "<a title=\"&#34;t&#34;\">go!</a><hr>" ≡ body ++ codes "<hr>")
clean_description-IsSanitized_example =
    clean_description-IsSanitized page urls (codes "x") [] sanitizing _ refl cleaned

abbrev tracked : Text
tracked = encode ((codes "utm_source", codes "a" ∷ []) ∷ (codes "id", codes "7" ∷ []) ∷ [])
