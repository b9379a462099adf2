-- ===== src/Extract/Pages.antt =====
-- The extractors of internal/parser/extract.go: each takes the first of its candidates that fits.
use syndi.Common.{
  Bool, true, false, not, ◌&&◌, ◌||◌, List, [], ◌∷◌, Option, none, some, Text, codes, is_empty, ltb,
  if◌then◌else◌,
}
use syndi.Common.Maps
use syndi.Golang.Strings.{trim_space, has_prefix}
use syndi.Dates.Natural.{or_else}
use syndi.Dates.Timestamp.{byte_length}
use syndi.Extract.{
  Element, Document, first, selection_text, text_of, given, text_or_empty, clean_text, attr,
  first_attr, first_text, long_text,
}

pub record LinkInfo : Type 0 where
  pub href : Text
  pub text : Text
  pub title : Text
  pub rel : Text

module _ (d : Document) where
  unfoldable pub extract_title : Text
  extract_title = text_or_empty (
      or_else (first_text d (codes "h1" ∷ [])) (
        or_else (given (attr d (codes "meta[property='og:title']") (codes "content"))) (
          or_else
            (if not (is_empty (text_of (first (d (codes "title")))))
              then some (trim_space (text_of (first (d (codes "title")))))
              else none)
            (first_text d (
              codes ".title"
              ∷ codes ".post-title"
              ∷ codes ".entry-title"
              ∷ codes ".article-title"
              ∷ codes "[class*='title']"
              ∷ [])))))

  abbrev pub is_nil_selection : List Element → Bool
  is_nil_selection [] = true
  is_nil_selection (e ∷ es) = false

  unfoldable pub extract_content : Text
  extract_content =
      elim (long_text d 200 (
        codes "article"
        ∷ codes "[role='main']"
        ∷ codes "main"
        ∷ codes ".content"
        ∷ codes ".post-content"
        ∷ codes ".entry-content"
        ∷ codes ".article-content"
        ∷ codes ".article-body"
        ∷ codes "#content"
        ∷ codes ".main-content"
        ∷ codes ".post-body"
        ∷ [])) [
          | some text ↦ clean_text text
          | none ↦
              if not (is_nil_selection (d (codes "body")))
              then clean_text (selection_text (d (codes "body")))
              else []
        ]

  unfoldable pub extract_text : Text
  extract_text =
      elim (long_text d 100 (
        codes "article"
        ∷ codes "[role='main']"
        ∷ codes "main"
        ∷ codes ".content"
        ∷ codes ".post-content"
        ∷ codes ".entry-content"
        ∷ codes "#content"
        ∷ codes ".article-body"
        ∷ [])) [ some text ↦ text | none ↦ trim_space (selection_text (d (codes "body"))) ]

  abbrev pub time_element : Option Element → Option Text
  time_element none = none
  time_element (some e) =
      or_else (given (Maps.lookup (codes "datetime") e.attrs)) (some (trim_space e.text))

  unfoldable pub extract_date : Text
  extract_date = text_or_empty (
      or_else
        (first_attr d
          (codes "meta[property='article:published_time']"
            ∷ codes "meta[property='article:published']"
            ∷ codes "meta[name='article:published_time']"
            ∷ codes "meta[name='date']"
            ∷ codes "meta[name='pubdate']"
            ∷ codes "meta[name='publish-date']"
            ∷ codes "meta[property='og:article:published_time']"
            ∷ [])
          (codes "content"))
        (or_else (time_element (first (d (codes "time")))) (
          first_text d (
            codes ".date"
            ∷ codes ".published"
            ∷ codes ".pub-date"
            ∷ codes ".post-date"
            ∷ codes ".entry-date"
            ∷ codes ".article-date"
            ∷ codes ".timestamp"
            ∷ codes "time[datetime]"
            ∷ []))))

  unfoldable pub extract_author : Text
  extract_author = text_or_empty (
      or_else
        (first_attr d
          (codes "meta[name='author']"
            ∷ codes "meta[property='article:author']"
            ∷ codes "meta[property='og:author']"
            ∷ [])
          (codes "content"))
        (first_text d (
          codes ".author"
          ∷ codes ".by-author"
          ∷ codes ".post-author"
          ∷ codes ".entry-author"
          ∷ codes ".article-author"
          ∷ codes "[rel='author']"
          ∷ [])))

  abbrev pub paragraph : Text → Option Text
  paragraph text =
      if ltb 50 (byte_length text) && ltb (byte_length text) 500 then some text else none

  unfoldable pub extract_description : Text
  extract_description = text_or_empty (
      or_else
        (first_attr d
          (codes "meta[name='description']" ∷ codes "meta[property='og:description']" ∷ [])
          (codes "content"))
        (paragraph (trim_space (text_of (first (d (codes "article p:first-of-type")))))))

  -- The longest source so far, replaced by one that has more bytes.
  unfoldable pub longest_src : List Element → Text → Text
  longest_src [] largest = largest
  longest_src (e ∷ es) largest =
      let src = text_or_empty (Maps.lookup (codes "src") e.attrs) in
      longest_src es (if ltb (byte_length largest) (byte_length src) then src else largest)

  unfoldable pub extract_thumbnail : Text
  extract_thumbnail =
      let meta =
        first_attr d (codes "meta[property='og:image']" ∷ codes "meta[name='twitter:image']" ∷ [])
          (codes "content") in
      let image = given (attr d (codes "link[rel='image_src']") (codes "href")) in
      let content = given (attr d (codes "article img") (codes "src")) in
      elim (or_else meta (or_else image content)) [
        | some src ↦ src
        | none ↦ longest_src (d (codes "img")) []
      ]

  abbrev pub link_info : Text → Element → LinkInfo
  link_info href e = record {
    href = href;
    text = trim_space e.text;
    title = text_or_empty (Maps.lookup (codes "title") e.attrs);
    rel = text_or_empty (Maps.lookup (codes "rel") e.attrs);
  }

  unfoldable pub links_of : List Element → List LinkInfo
  links_of [] = []
  links_of (e ∷ es) =
      let later = links_of es in
      let href = text_or_empty (Maps.lookup (codes "href") e.attrs) in
      if is_empty href || has_prefix href (codes "javascript:")
      then later
      else link_info href e ∷ later

  unfoldable pub extract_links : Text → List LinkInfo
  extract_links selector = links_of (d (if is_empty selector then codes "a" else selector))

  unfoldable pub hrefs_of : List LinkInfo → List Text
  hrefs_of [] = []
  hrefs_of (link ∷ links) =
      let later = hrefs_of links in
      if not (is_empty link.href)
        && not (has_prefix link.href (codes "javascript:"))
        && not (has_prefix link.href (codes "#"))
      then link.href ∷ later
      else later

  unfoldable pub extract_all_links : List Text
  extract_all_links = hrefs_of (extract_links (codes "a"))
