-- ===== src/Feeds.antt =====
-- pkg/rss/generator.go: the documents of a feed. A time's text in a layout and the XML of a document
-- are what packages time and encoding/xml make, the parameter `api`.
pub mod Updated
pub mod Served
use syndi.Common.{
  Bool, true, false, not, ◌&&◌, ◌||◌, List, [], ◌∷◌, ◌++◌, Option, none, some, Text, codes,
  is_empty, Result, ok, err, ◌>>=◌, pos, if◌then◌else◌,
}
use syndi.Golang.Strings.{replace_all}
use syndi.Models.{Time, is_zero, after, Author, Item, Feed}

abbrev pub ns_atom : Text
ns_atom = codes "http://www.w3.org/2005/Atom"

abbrev pub ns_content : Text
ns_content = codes "http://purl.org/rss/1.0/modules/content/"

pub record RssContent : Type 0 where
  pub type : Text
  pub content : Text

pub record RssItem : Type 0 where
  pub title : Text
  pub link : Text
  pub description : Text
  pub guid : Text
  pub pub_date : Text
  pub author : Text
  pub categories : List Text
  pub content : Option RssContent

pub record RssChannel : Type 0 where
  pub title : Text
  pub link : Text
  pub description : Text
  pub language : Text
  pub last_build_date : Text
  pub pub_date : Text
  pub web_master : Text
  pub managing_editor : Text
  pub category : Text
  pub generator : Text
  pub items : List RssItem

pub record RssFeed : Type 0 where
  pub version : Text
  pub xmlns_content : Text
  pub channel : RssChannel

pub record AtomLink : Type 0 where
  pub rel : Text
  pub href : Text
  pub type : Text

pub record AtomAuthor : Type 0 where
  pub name : Text
  pub email : Text
  pub uri : Text

pub record AtomContent : Type 0 where
  pub type : Text
  pub content : Text

pub record AtomEntry : Type 0 where
  pub title : Text
  pub id : Text
  pub updated : Text
  pub published : Text
  pub link : List AtomLink
  pub summary : Text
  pub content : AtomContent
  pub authors : List AtomAuthor
  pub categories : List Text

pub record AtomFeed : Type 0 where
  pub xmlns : Text
  pub title : Text
  pub id : Text
  pub updated : Text
  pub links : List AtomLink
  pub subtitle : Text
  pub authors : List AtomAuthor
  pub generator : Text
  pub entries : List AtomEntry

-- The layouts: `format` writes a time in its own zone, `format_utc` in UTC.
pub record Writer : Type 0 where
  pub format : Text → Time → Text
  pub format_utc : Text → Time → Text
  pub encode_rss : RssFeed → Result Text
  pub encode_atom : AtomFeed → Result Text

abbrev pub rfc1123z : Text
rfc1123z = codes "Mon, 02 Jan 2006 15:04:05 -0700"

abbrev pub rfc3339 : Text
rfc3339 = codes "2006-01-02T15:04:05Z07:00"

abbrev pub generator : Text
generator = codes "Syndi/0.0.1 (+https://github.com/xihale/syndi)"

abbrev pub has_time : Option Time → Bool
has_time none = false
has_time (some t) = not (is_zero t)

unfoldable pub newest_pub_date : List Item → Time → Time
newest_pub_date [] newest = newest
newest_pub_date (item ∷ items) newest =
    newest_pub_date items (if after item.pub_date newest then item.pub_date else newest)

abbrev pub updated_or : Option Time → Time → Time
updated_or none fallback = fallback
updated_or (some t) fallback = if is_zero t then fallback else t

-- Go's zero time is 0.
unfoldable pub feed_updated : Feed → Time
feed_updated feed = updated_or feed.updated (newest_pub_date feed.items (pos 0))

unfoldable pub entry_updated : Item → Time → Time
entry_updated item fallback =
    updated_or item.updated (if not (is_zero item.pub_date) then item.pub_date else fallback)

abbrev pub email_of : Option Author → Text
email_of none = []
email_of (some author) = author.email

abbrev pub atom_authors : Option Author → List AtomAuthor
atom_authors none = []
atom_authors (some author) =
    if is_empty author.name && is_empty author.email && is_empty author.uri
    then []
    else record { name = author.name; email = author.email; uri = author.uri } ∷ []

unfoldable pub with_content_prefix : Text → Text
with_content_prefix doc =
    let doc =
      replace_all (codes "<encoded xmlns=\"http://purl.org/rss/1.0/modules/content/\"")
        (codes "<content:encoded") doc in
    replace_all (codes "</encoded>") (codes "</content:encoded>") doc

abbrev pub prologue : Text
prologue = codes "<?xml version=\"1.0\" encoding=\"UTF-8\"?>\n<!-- generator=\"Syndi/0.0.1\" -->\n"

module _ (api : Writer) where
  abbrev pub time_text : Option Time → Text
  time_text none = []
  time_text (some t) = if is_zero t then [] else api.format rfc1123z t

  unfoldable pub rss_item : Item → RssItem
  rss_item item = record {
    title = item.title;
    link = item.link;
    description = item.description;
    guid = item.guid;
    pub_date = if is_zero item.pub_date then [] else api.format rfc1123z item.pub_date;
    author = email_of item.author;
    categories = item.categories;
    content =
        if is_empty item.description
        then none
        else some (record { type = codes "html"; content = item.description });
  }

  -- The loop appends to the items of the channel.
  unfoldable pub append_rss_items : List Item → List RssItem → List RssItem
  append_rss_items [] items = items
  append_rss_items (item ∷ later) items = append_rss_items later (items ++ rss_item item ∷ [])

  unfoldable pub rss_feed : Feed → RssFeed
  rss_feed feed = record {
    version = codes "2.0";
    xmlns_content = ns_content;
    channel = record {
      title = feed.title;
      link = feed.link;
      description = feed.description;
      language = [];
      last_build_date =
          if is_zero (feed_updated feed) then [] else api.format_utc rfc1123z (feed_updated feed);
      pub_date = time_text feed.updated;
      web_master = [];
      managing_editor = email_of feed.author;
      category = [];
      generator = generator;
      items = append_rss_items feed.items [];
    };
  }

  unfoldable pub generate_rss : Feed → Result Text
  generate_rss feed = do
    xml ← api.encode_rss (rss_feed feed)
    ok (with_content_prefix (prologue ++ xml))

  unfoldable pub atom_entry : Time → Item → AtomEntry
  atom_entry updated item = record {
    title = item.title;
    id = item.guid;
    updated = api.format_utc rfc3339 (entry_updated item updated);
    published = if is_zero item.pub_date then [] else api.format_utc rfc3339 item.pub_date;
    link = record { rel = codes "alternate"; href = item.link; type = [] } ∷ [];
    summary = item.description;
    content =
        if is_empty item.description
        then record { type = []; content = [] }
        else record { type = codes "html"; content = item.description };
    authors = atom_authors item.author;
    categories = item.categories;
  }

  unfoldable pub append_atom_entries : Time → List Item → List AtomEntry → List AtomEntry
  append_atom_entries updated [] entries = entries
  append_atom_entries updated (item ∷ later) entries =
      append_atom_entries updated later (entries ++ atom_entry updated item ∷ [])

  unfoldable pub atom_feed : Feed → AtomFeed
  atom_feed feed = record {
    xmlns = ns_atom;
    title = feed.title;
    id = feed.link;
    updated =
        if is_zero (feed_updated feed) then [] else api.format_utc rfc3339 (feed_updated feed);
    links =
        record { rel = codes "self"; href = feed.link; type = codes "application/atom+xml" }
        ∷ record { rel = codes "alternate"; href = feed.link; type = codes "text/html" }
        ∷ [];
    subtitle = [];
    authors = atom_authors feed.author;
    generator = generator;
    entries = append_atom_entries (feed_updated feed) feed.items [];
  }

  unfoldable pub generate_atom : Feed → Result Text
  generate_atom feed = do xml ← api.encode_atom (atom_feed feed); ok (prologue ++ xml)
