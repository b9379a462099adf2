-- ===== src/Feeds/Served.antt =====
-- The documents of pkg/rss/generator.go for the feeds that the handlers of routes answer with
-- (internal/server): what is left of a feed in its document.
use mathlib.Core.List.{append_assoc, append-nil}
use syndi.Common.{List, [], ◌∷◌, ◌++◌, map, Text, ◌≡◌, refl, sym}
use syndi.Models.{Time, Item, Feed}
use syndi.HandlerCache.{Request, Encoders, response_feed}
use syndi.Feeds.{
  Writer, RssItem, AtomEntry, feed_updated, rss_item, append_rss_items, rss_feed, atom_entry,
  append_atom_entries, atom_feed,
}

module _ (api : Writer) where
  append_rss_items-map :
      (items : List Item) (done : List RssItem)
      → append_rss_items api items done ≡ done ++ map (rss_item api) items
  unfolding append_rss_items
  append_rss_items-map [] done = sym (append-nil done)
  append_rss_items-map (item ∷ items) done =
      rw
        (
          append_rss_items-map items (done ++ rss_item api item ∷ []),
          append_assoc done (rss_item api item ∷ []) (map (rss_item api) items),
        )
        refl

  append_atom_entries-map :
      (t : Time) (items : List Item) (done : List AtomEntry)
      → append_atom_entries api t items done ≡ done ++ map (atom_entry api t) items
  unfolding append_atom_entries
  append_atom_entries-map t [] done = sym (append-nil done)
  append_atom_entries-map t (item ∷ items) done =
      rw
        (
          append_atom_entries-map t items (done ++ atom_entry api t item ∷ []),
          append_assoc done (atom_entry api t item ∷ []) (map (atom_entry api t) items),
        )
        refl

  module _ (process : Time → (Text → Text) → List Item → List Item) (encode : Encoders)
      (digest : Text → Text) where
    -- The documents of the feed that a handler answers with have one item or entry for each of the
    -- processed items, in their order; whatever author and time of its own the route's feed has,
    -- the RSS document has no managing editor and no publication date, and the Atom document no
    -- author.
    pub rss_feed-response_feed :
        (now : Time) (r : Request) (f : Feed)
        → let served = response_feed process encode digest now r f in
          ((rss_feed api served).channel.items ≡ map (rss_item api) (process now r.query f.items))
          × ((atom_feed api served).entries
              ≡ map (atom_entry api (feed_updated served)) (process now r.query f.items))
          × ((rss_feed api served).channel.managing_editor ≡ [])
          × ((rss_feed api served).channel.pub_date ≡ [])
          × ((atom_feed api served).authors ≡ [])
    unfolding rss_feed atom_feed response_feed
    rss_feed-response_feed now r f = (
      append_rss_items-map (process now r.query f.items) [],
      append_atom_entries-map (feed_updated (response_feed process encode digest now r f))
          (process now r.query f.items) [],
      refl,
      refl,
      refl,
    )
