-- ===== src/Extract.antt =====
-- internal/parser/extract.go and the finders of html.go: what is extracted from an HTML document. A
-- document is the function from a selector to the elements that match it, in their order, which
-- goquery computes.
pub mod Absolute
pub mod Pages
use syndi.Common.{
  ℕ, zero, suc, ◌+◌, Bool, true, false, not, ◌&&◌, ◌||◌, List, [], ◌∷◌, ◌++◌, Option, none, some,
  Text, codes, is_empty, take, ltb, ◌==◌, if◌then◌else◌,
}
use syndi.Common.Maps
use syndi.Golang.Strings.{trim_space, has_prefix, contains, split, last_index, replace_all}
use syndi.Routeutils.Content.Whitespace.Words.{fields, join_words}
use syndi.Dates.Natural.{or_else}
use syndi.Dates.Timestamp.{byte_length}

pub record Element : Type 0 where
  pub text : Text
  pub attrs : List (Text × Text)

abbrev pub Document : Type 0
Document = Text → List Element

-- `First`, and the `Text` of a selection, which joins the texts of its elements.
abbrev pub first : List Element → Option Element
first [] = none
first (e ∷ es) = some e

unfoldable pub selection_text : List Element → Text
selection_text [] = []
selection_text (e ∷ es) = e.text ++ selection_text es

abbrev pub text_of : Option Element → Text
text_of none = []
text_of (some e) = e.text

abbrev pub attr_of : Text → Option Element → Option Text
attr_of name none = none
attr_of name (some e) = Maps.lookup name e.attrs

abbrev pub non_empty : Text → Option Text
non_empty s = if not (is_empty s) then some s else none

abbrev pub given : Option Text → Option Text
given none = none
given (some s) = non_empty s

abbrev pub text_or_empty : Option Text → Text
text_or_empty none = []
text_or_empty (some s) = s

unfoldable pub remove_noises : List Text → Text → Text
remove_noises [] s = s
remove_noises (noise ∷ noises) s = remove_noises noises (replace_all noise [] s)

abbrev pub noises : List Text
noises =
    codes "点击这里"
    ∷ codes "点击此处"
    ∷ codes "Click here"
    ∷ codes "click here"
    ∷ codes "Read more"
    ∷ codes "read more"
    ∷ codes "继续阅读"
    ∷ codes "查看更多"
    ∷ codes "广告"
    ∷ codes "Advertisement"
    ∷ []

unfoldable pub clean_text : Text → Text
clean_text s =
    let s = remove_noises noises (join_words (fields s)) in trim_space (join_words (fields s))

abbrev pub root_of : List Text → Text → Text → Text
root_of (scheme ∷ blank ∷ host ∷ path) base href = scheme ++ (codes "//" ++ (host ++ href))
root_of _ base href = base ++ href

abbrev pub beside : Option ℕ → Text → Text → Text
beside none base href = href
beside (some i) base href = take (suc i) base ++ href

unfoldable pub absolute_url : Text → Text → Text
absolute_url base href =
    if is_empty href
    then []
    else if has_prefix href (codes "http://") || has_prefix href (codes "https://")
    then href
    else if has_prefix href (codes "//")
    then (if has_prefix base (codes "https://")
        then codes "https:" ++ href
        else codes "http:" ++ href)
    else if has_prefix href (codes "/")
    then root_of (split base (codes "/")) base href
    else beside (last_index base b'/') base href

-- The manual removal of tags, where the document does not load.
unfoldable pub outside_tags : Bool → Text → Text
outside_tags in_tag [] = []
outside_tags in_tag (r ∷ s) =
    let rest = outside_tags (if r == b'<' then true else if r == b'>' then false else in_tag) s in
    if r == b'<' || r == b'>' || in_tag then rest else r ∷ rest

module _ (d : Document) where
  abbrev pub attr : Text → Text → Option Text
  attr selector name = attr_of name (first (d selector))

  -- The attribute of the first selector that has one which is not empty.
  unfoldable pub first_attr : List Text → Text → Option Text
  first_attr [] name = none
  first_attr (selector ∷ selectors) name =
      or_else (given (attr selector name)) (first_attr selectors name)

  -- The trimmed text of the first element of the first selector that has one which is not empty.
  unfoldable pub first_text : List Text → Option Text
  first_text [] = none
  first_text (selector ∷ selectors) =
      or_else (non_empty (trim_space (text_of (first (d selector))))) (first_text selectors)

  -- The trimmed text of the first selector that has more bytes than a bound.
  unfoldable pub long_text : ℕ → List Text → Option Text
  long_text bound [] = none
  long_text bound (selector ∷ selectors) =
      let text = trim_space (selection_text (d selector)) in
      or_else (if ltb bound (byte_length text) then some text else none) (long_text bound selectors)

-- StripHTML, over the loader of documents, which gives a document with its whole text.
unfoldable pub strip_html : (Text → Option (Document × Text)) → Text → Text
strip_html load html = elim (load html) [
  | none ↦ join_words (fields (outside_tags false (trim_space html)))
  | some (d, whole) ↦ elim (d (codes "body")) [
    | [] ↦ join_words (fields whole)
    | e ∷ es ↦ join_words (fields (selection_text (e ∷ es)))
  ]
]
