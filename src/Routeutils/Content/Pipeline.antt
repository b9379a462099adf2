-- ===== src/Routeutils/Content/Pipeline.antt =====
-- The passes and the pipeline of internal/routeutils/content.go. The HTML parser with its selections
-- (goquery, through internal/parser), the second parser that SanitizeHTML uses, and Go's regexp and
-- html packages are the parameter `page`.
pub mod Sanitized
use syndi.Common.{
  Bool, true, false, not, ◌&&◌, List, [], ◌∷◌, ◌++◌, Option, none, some, Text, codes, is_empty,
  Result, ok, err, ◌>>=◌, if◌then◌else◌,
}
use syndi.Common.Maps
use syndi.Routeutils.Urls.{UrlApi, wrap, resolve_url}
use syndi.Routeutils.Content.Whitespace.{normalize_whitespace}
use syndi.Routeutils.Content.Sanitize.{Node, attr_set, sanitize_node}

-- The attributes of an element.
abbrev pub Attrs : Type 0
Attrs = List (Text × Text)

-- `each selector f` lets a callback change the attributes of every element that matches.
pub record Page : Type 1 where
  pub Document : Type 0
  pub load_string : Text → Result Document
  pub each : Text → (Attrs → Attrs) → Document → Document
  pub remove : Text → Document → Document
  pub body_html : Document → Option (Result Text)
  pub html : Document → Result Text
  pub parse : Text → Result Node
  pub replace_all : Text → Text → Text → Text
  pub unescape_string : Text → Text

pub record CleanOptions : Type 0 where
  pub sanitize : Bool
  pub suffix : Text
  pub referrer_policy : Bool
  pub remove_scripts : Bool
  pub fix_lazy_images : Bool
  pub resolve_links : Bool
  pub allowed_tags : List Text
  pub allowed_attrs : List Text

abbrev pub default_clean_options : CleanOptions
default_clean_options = record {
  sanitize = false;
  suffix = [];
  referrer_policy = true;
  remove_scripts = true;
  fix_lazy_images = true;
  resolve_links = true;
  allowed_tags = [];
  allowed_attrs = [];
}

-- The callback of FixLazyImages: `src` is set to what the other attribute has, if it has anything.
abbrev pub fix_src : Text → Attrs → Attrs
fix_src attr attrs = elim (Maps.lookup attr attrs) [
  | none ↦ attrs
  | some src ↦ if is_empty src then attrs else Maps.insert (codes "src") src attrs
]

abbrev pub set_attr : Text → Text → Attrs → Attrs
set_attr key value attrs = Maps.insert key value attrs

-- A step of the pipeline, taken if it is asked for.
abbrev pub step : Bool → Text → (Text → Result Text) → Text → Result Text
step false failure f result = ok result
step true failure f result = wrap failure (f result)

abbrev pub append_suffix : CleanOptions → Text → Text
append_suffix opts result = if is_empty opts.suffix then result else result ++ opts.suffix

module _ (page : Page) (api : UrlApi) where
  abbrev pub fragment_html : page.Document → Result Text
  fragment_html doc = elim (page.body_html doc) [ some html ↦ html | none ↦ page.html doc ]

  -- One callback after another over the elements of a list of selectors.
  abbrev pub each_of :
      List Text → (Text → Text) → (Text → Attrs → Attrs) → page.Document → page.Document
  each_of [] selector f doc = doc
  each_of (x ∷ xs) selector f doc = each_of xs selector f (page.each (selector x) (f x) doc)

  abbrev pub lazy_attributes : List Text
  lazy_attributes =
      codes "data-src" ∷ codes "data-original" ∷ codes "data-lazy-src" ∷ codes "data-actualsrc" ∷ []

  unfoldable pub fix_lazy_images : Text → Result Text
  fix_lazy_images html_str = do
    doc ← page.load_string html_str
    fragment_html
        (each_of lazy_attributes (λ attr. codes "img[" ++ (attr ++ codes "]")) fix_src doc)

  unfoldable pub remove_scripts : Text → Result Text
  remove_scripts html_str = do
    doc ← page.load_string html_str
    fragment_html (page.remove (codes "style") (page.remove (codes "script") doc))

  abbrev pub policy_tags : List Text
  policy_tags =
      codes "a" ∷ codes "img" ∷ codes "iframe" ∷ codes "video" ∷ codes "audio" ∷ codes "source" ∷ []

  unfoldable pub add_referrer_policy : Text → Result Text
  add_referrer_policy html_str = do
    doc ← page.load_string html_str
    fragment_html (
        each_of policy_tags (λ tag. tag)
          (λ _. set_attr (codes "referrerpolicy") (codes "no-referrer")) doc)

  -- The callback that makes an attribute absolute, where it resolves.
  abbrev pub resolve_attr : Text → Text → Attrs → Attrs
  resolve_attr base_url key attrs = elim (Maps.lookup key attrs) [
    | none ↦ attrs
    | some value ↦ elim (resolve_url api base_url value) [
      | err message ↦ attrs
      | ok absolute ↦ set_attr key absolute attrs
    ]
  ]

  unfoldable pub resolve_links_in_html : Text → Text → Result Text
  resolve_links_in_html html_str base_url = do
    doc ← page.load_string html_str
    let doc = page.each (codes "a[href]") (resolve_attr base_url (codes "href")) doc
    fragment_html (page.each (codes "[src]") (resolve_attr base_url (codes "src")) doc)

  abbrev pub image_tags : List Text
  image_tags =
      codes "img"
      ∷ codes "video"
      ∷ codes "audio"
      ∷ codes "source"
      ∷ codes "iframe"
      ∷ codes "embed"
      ∷ []

  unfoldable pub resolve_images : Text → Text → Result Text
  resolve_images html_str base_url = do
    doc ← page.load_string html_str
    let doc =
        each_of image_tags (λ tag. tag ++ codes "[src]") (λ _. resolve_attr base_url (codes "src"))
          doc
    fragment_html (page.each (codes "video[poster]") (resolve_attr base_url (codes "poster")) doc)

  unfoldable pub strip_html : Text → Text
  strip_html html_str =
      let cleaned =
        page.replace_all (codes "(?is)<script\\b[^>]*>.*?(?:</script\\s*>|\\z)") [] html_str in
      let cleaned =
        page.replace_all (codes "(?is)<style\\b[^>]*>.*?(?:</style\\s*>|\\z)") [] cleaned in
      let cleaned = page.replace_all (codes "<[^>]*>") [] cleaned in
      normalize_whitespace (page.unescape_string cleaned)

  unfoldable pub sanitize_html : Text → List Text → List Text → Result Text
  sanitize_html html_str [] allowed_attrs = ok (strip_html html_str)
  sanitize_html html_str (tag ∷ tags) allowed_attrs = do
    doc ← wrap (codes "failed to parse HTML: ") (page.parse html_str)
    ok (sanitize_node (tag ∷ tags) (attr_set allowed_attrs) doc [])

  -- The steps before the sanitizing.
  unfoldable pub run_passes : Text → Text → CleanOptions → Result Text
  run_passes html_str base_url opts = do
    result ← step opts.remove_scripts (codes "failed to remove scripts: ") remove_scripts html_str
    result ← step opts.fix_lazy_images (codes "failed to fix lazy images: ") fix_lazy_images result
    result ←
        step (opts.resolve_links && not (is_empty base_url)) (codes "failed to resolve links: ")
          (λ s. resolve_links_in_html s base_url) result
    step opts.referrer_policy (codes "failed to add referrer policy: ") add_referrer_policy result

  abbrev pub sanitize_step : CleanOptions → Text → Result Text
  sanitize_step opts result =
      step opts.sanitize (codes "failed to sanitize HTML: ")
        (λ s. sanitize_html s opts.allowed_tags opts.allowed_attrs) result

  unfoldable pub clean_description : Text → Text → CleanOptions → Result Text
  clean_description html_str base_url opts = do
    result ← run_passes html_str base_url opts
    result ← sanitize_step opts result
    ok (append_suffix opts result)
