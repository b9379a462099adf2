-- ===== src/Reader.antt =====
-- internal/parser/rssfeed/rssfeed.go: feeds from RSS, Atom and RDF documents. The decoding of XML is
-- the parameter `decode`; `instant` is the instant of a time of package time.
pub mod Items
use syndi.Common.{
  ℕ, zero, suc, Bool, true, false, not, ◌&&◌, ◌||◌, List, [], ◌∷◌, ◌++◌, Option, none, some, Text,
  codes, is_empty, text_eq, take, length, Result, ok, err, ◌>>=◌, pos, ◌==◌, if◌then◌else◌,
}
use syndi.Golang.Strings.{trim_space, has_prefix, index}
use syndi.Models.{Time, Author, Item, Feed}
use syndi.Dates.{TimeApi}
use syndi.Dates.Parse.{parse_date}
use syndi.Routeutils.Urls.{wrap}
use syndi.Routeutils.Content.Sanitize.{escape_string}
use syndi.Routeutils.Content.Whitespace.Words.{fields, join_words}

pub record RawLink : Type 0 where
  pub href : Text
  pub rel : Text
  pub text : Text

pub record RawGuid : Type 0 where
  pub is_perma_link : Text
  pub value : Text

pub record RawEnclosure : Type 0 where
  pub url : Text
  pub type : Text
  pub length : Text

pub record RawPerson : Type 0 where
  pub name : Text
  pub email : Text
  pub raw : Text

pub record RawItem : Type 0 where
  pub title : Text
  pub link : List RawLink
  pub guid : RawGuid
  pub description : Text
  pub summary : Text
  pub content_encoded : Text
  pub content : Text
  pub pub_date : Text
  pub dc_date : Text
  pub published : Text
  pub updated : Text
  pub author : RawPerson
  pub dc_creator : Text
  pub category : List Text
  pub enclosure : List RawEnclosure

pub record RawChannel : Type 0 where
  pub title : Text
  pub link : List RawLink
  pub description : Text
  pub subtitle : Text
  pub items : List RawItem
  pub entries : List RawItem

-- The name of the root, its own fields, and its channel.
pub record RawDoc : Type 0 where
  pub local : Text
  pub root : RawChannel
  pub channel : RawChannel

unfoldable pub first_non_empty : List Text → Text
first_non_empty [] = []
first_non_empty (v ∷ vals) =
    let later = first_non_empty vals in if not (is_empty (trim_space v)) then v else later

unfoldable pub clean_text : Text → Text
clean_text s = join_words (fields s)

abbrev pub is_blank : ℕ → Bool
is_blank ch = ch == b'\n' || ch == b'\r' || ch == b'\t' || ch == b' '

-- What the loop of cleanHTML writes, from `inTag` and `lastSpace` on.
unfoldable pub clean_loop : Bool → Bool → Text → Text
clean_loop in_tag last_space [] = []
clean_loop in_tag last_space (ch ∷ s) =
    let now_in_tag = if ch == b'<' then true else if ch == b'>' then false else in_tag in
    let space =
      if ch == b'<' || ch == b'>' then false else if in_tag then last_space else is_blank ch in
    let rest = clean_loop now_in_tag space s in
    if ch == b'<' || ch == b'>' || in_tag
    then ch ∷ rest
    else if is_blank ch
    then (if last_space then rest else b' ' ∷ rest)
    else ch ∷ rest

unfoldable pub clean_html : Text → Text
clean_html s =
    let s = trim_space s in if is_empty s then [] else trim_space (clean_loop false false s)

unfoldable pub pick_alternate : List RawLink → Option Text
pick_alternate [] = none
pick_alternate (l ∷ links) =
    let later = pick_alternate links in
    if not (is_empty l.href) && (is_empty l.rel || text_eq l.rel (codes "alternate"))
    then some (trim_space l.href)
    else later

unfoldable pub pick_any : List RawLink → Text
pick_any [] = []
pick_any (l ∷ links) =
    let later = pick_any links in
    if not (is_empty (trim_space l.text)) && has_prefix (trim_space l.text) (codes "http")
    then trim_space l.text
    else if not (is_empty l.href)
    then trim_space l.href
    else later

unfoldable pub pick_link : List RawLink → Text
pick_link links = elim (pick_alternate links) [ some link ↦ link | none ↦ pick_any links ]

unfoldable pub first_enclosure : List RawEnclosure → Text
first_enclosure [] = []
first_enclosure (e ∷ encs) =
    let later = first_enclosure encs in if not (is_empty e.url) then e.url else later

-- `strings.TrimSuffix` of one parenthesis.
abbrev pub trim_paren : Text → Text
trim_paren [] = []
trim_paren (c ∷ []) = if c == b'(' then [] else c ∷ []
trim_paren (c ∷ d ∷ s) = c ∷ trim_paren (d ∷ s)

abbrev pub before_angle : Option ℕ → Text → Text
before_angle (some (suc i)) author = trim_space (trim_paren (take (suc i) author))
before_angle (some zero) author = author
before_angle none author = author

-- Both of its last branches return the author.
unfoldable pub strip_email : Text → Text
strip_email author = let author = trim_space author in before_angle (index author b'<') author

unfoldable pub clean_categories : List Text → List Text
clean_categories [] = []
clean_categories (c ∷ cs) =
    let rest = clean_categories cs in
    if not (is_empty (clean_text c)) then clean_text c ∷ rest else rest

abbrev pub is_nil : List RawItem → Bool
is_nil [] = true
is_nil (x ∷ xs) = false

module _ (api : TimeApi) (instant : api.Time → Time) (now : api.Time)
    (order : List (Text × ℕ) → List (Text × ℕ)) where
  abbrev pub date_of : Result api.Time → Time
  date_of (ok t) = instant t
  date_of (err message) = pos 0

  unfoldable pub read_date : Text → Time
  read_date pub_raw =
      if is_empty pub_raw then pos 0 else date_of (parse_date api now order (trim_space pub_raw))

  abbrev pub guid_or : Text → Text → Text → Text
  guid_or guid link title =
      if not (is_empty guid) then guid else if not (is_empty link) then link else title

  abbrev pub author_named : Text → Option Author
  author_named name =
      if not (is_empty name) then some (record { name = name; email = []; uri = [] }) else none

  abbrev pub with_enclosure : Text → Text → Text
  with_enclosure enc description =
      if is_empty enc
      then description
      else codes "<img src=\""
        ++ (escape_string enc ++ (codes "\" alt=\"enclosure\"/><br/>" ++ description))

  abbrev pub description_of : RawItem → Text
  description_of ri =
      clean_html
        (first_non_empty (ri.content_encoded ∷ ri.content ∷ ri.description ∷ ri.summary ∷ []))

  unfoldable pub converted : RawItem → Item
  converted ri = record {
    title = clean_text ri.title;
    description = with_enclosure (first_enclosure ri.enclosure) (description_of ri);
    link = pick_link ri.link;
    pub_date =
        read_date (first_non_empty (ri.pub_date ∷ ri.published ∷ ri.dc_date ∷ ri.updated ∷ []));
    guid = guid_or (trim_space ri.guid.value) (pick_link ri.link) (clean_text ri.title);
    author = author_named (
        clean_text (
          first_non_empty (
            ri.dc_creator
            ∷ ri.author.name
            ∷ strip_email ri.author.raw
            ∷ strip_email ri.author.email
            ∷ [])));
    updated = none;
    categories = clean_categories ri.category;
  }

  -- An item without a title, a link and a description is nil.
  unfoldable pub convert_item : RawItem → Option Item
  convert_item ri =
      if is_empty (clean_text ri.title)
        && is_empty (pick_link ri.link)
        && is_empty (description_of ri)
      then none
      else some (converted ri)

  unfoldable pub convert_items : List RawItem → List Item
  convert_items [] = []
  convert_items (ri ∷ items) =
      let later = convert_items items in
      elim (convert_item ri) [ none ↦ later | some item ↦ item ∷ later ]

  unfoldable pub build_feed : RawChannel → List RawItem → Feed
  build_feed ch items = record {
    title = clean_text (first_non_empty (ch.title ∷ []));
    description = clean_text (first_non_empty (ch.description ∷ ch.subtitle ∷ []));
    link = pick_link ch.link;
    items = convert_items items;
    author = none;
    updated = none;
  }

  -- The channel and the items of the format of the document.
  abbrev pub source_of : RawDoc → Option (RawChannel × List RawItem)
  source_of doc =
      if text_eq doc.local (codes "rss")
      then some (doc.channel, doc.channel.items)
      else if text_eq doc.local (codes "RDF")
      then some (doc.channel, doc.channel.items ++ doc.root.items)
      else if text_eq doc.local (codes "feed")
      then some (doc.root, doc.root.entries)
      else if not (is_nil doc.root.entries)
      then some (doc.root, doc.root.entries)
      else if not (is_nil doc.channel.items)
      then some (doc.channel, doc.channel.items)
      else none

  abbrev pub build_source : Text → Option (RawChannel × List RawItem) → Result Feed
  build_source local none = err (codes "rssfeed: unsupported feed root <" ++ (local ++ codes ">"))
  build_source local (some (ch, items)) = ok (build_feed ch items)

  abbrev pub feed_of : RawDoc → Result Feed
  feed_of doc = build_source doc.local (source_of doc)

  unfoldable pub parse : (Text → Result RawDoc) → Text → Result Feed
  parse decode input =
      let input = trim_space input in
      if is_empty input
      then err (codes "rssfeed: empty document")
      else (do doc ← wrap (codes "rssfeed: parse xml: ") (decode input); feed_of doc)
