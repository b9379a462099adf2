-- ===== src/Tests/Publishing.antt =====
-- Documents of pkg/rss/generator.go.
use mathlib.Core.List.{Memᴰ}
use syndi.Common.{◌≡◌, ◌⊎◌, refl, false, List, [], ◌∷◌, map, none, some, Text, codes, ok, pos, All}
use syndi.Models.{Time, is_zero, Item, Feed}
use syndi.HandlerCache.{Request, Encoders, response_feed}
use syndi.Feeds.{Writer, newest_pub_date, feed_updated, rss_item, rss_feed, atom_entry, atom_feed}
use syndi.Feeds.Updated.{NotAfter, feed_updated-newest}
use syndi.Feeds.Served.{rss_feed-response_feed}

abbrev item : Text → Time → Item
item title date = record {
  title = title;
  description = [];
  link = codes "/";
  pub_date = date;
  guid = title;
  author = none;
  updated = none;
  categories = [];
}

abbrev news : Feed
news = record {
  title = codes "news";
  description = [];
  link = codes "/";
  items = item (codes "a") (pos 3) ∷ item (codes "b") (pos 7) ∷ [];
  author = some (record { name = codes "Ann"; email = codes "ann@host"; uri = [] });
  updated = none;
}

newest_test : feed_updated news ≡ pos 7
unfolding feed_updated newest_pub_date
newest_test = refl

feed_updated-newest_example :
    ((t : Time) × (none ≡ some t) × (is_zero t ≡ false) × (feed_updated news ≡ t))
    ⊎ ((false ≡ false)
        × All (NotAfter (feed_updated news)) news.items
        × ((feed_updated news ≡ pos 0)
            ⊎ ((i : Item) × Memᴰ i news.items × (feed_updated news ≡ i.pub_date))))
feed_updated-newest_example = feed_updated-newest news

abbrev writer : Writer
writer = record {
  format = λ layout t. layout;
  format_utc = λ layout t. layout;
  encode_rss = λ f. ok f.channel.title;
  encode_atom = λ f. ok f.title;
}

abbrev process : Time → (Text → Text) → List Item → List Item
process now query items = items

abbrev encode : Encoders
encode = record { rss = λ f. ok f.title; atom = λ f. ok f.title; json = λ f. ok f.title }

abbrev request : Request
request = record { path = codes "/blog/news"; query = λ k. []; header = λ k. [] }

abbrev served : Feed
served = response_feed process encode (λ body. body) (pos 9) request news

rss_feed-response_feed_example :
    ((rss_feed writer served).channel.items ≡ map (rss_item writer) news.items)
    × ((atom_feed writer served).entries ≡ map (atom_entry writer (feed_updated served)) news.items)
    × ((rss_feed writer served).channel.managing_editor ≡ [])
    × ((rss_feed writer served).channel.pub_date ≡ [])
    × ((atom_feed writer served).authors ≡ [])
rss_feed-response_feed_example =
    rss_feed-response_feed writer process encode (λ body. body) (pos 9) request news
