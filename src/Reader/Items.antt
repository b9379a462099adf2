-- ===== src/Reader/Items.antt =====
-- The items that internal/parser/rssfeed/rssfeed.go reads.
use mathlib.Core.Path.{subst}
use syndi.Common.{
  ℕ, Bool, true, false, not, ◌&&◌, ◌||◌, List, [], ◌∷◌, Option, none, some, Text, is_empty, Result,
  ok, err, ◌>>=◌, codes, All, Bool-cases, if◌then◌else◌, ◌≡◌, refl, inl, inr, arith,
}
use syndi.Golang.Strings.{trim_space}
use syndi.Models.{Time, Item, Feed}
use syndi.Dates.{TimeApi}
use syndi.Routeutils.Urls.{wrap}
use syndi.Reader.{
  RawItem, RawChannel, RawDoc, source_of, build_source, converted, convert_item, convert_items,
  build_feed, parse, feed_of, clean_text, pick_link, guid_or, with_enclosure, first_enclosure,
  description_of,
}

-- An item that says something, and that is told apart by its GUID where it has a link or a title.
abbrev pub IsUsable : Item → Type 0
IsUsable item =
    (is_empty item.title && is_empty item.link && is_empty item.description ≡ false)
    × ((not (is_empty item.guid) || is_empty item.link && is_empty item.title) ≡ true)

abbrev IsUsableIfSome : Option Item → Type 0
IsUsableIfSome none = Unit
IsUsableIfSome (some item) = IsUsable item

IsUsableIfSome-cons :
    (o : Option Item) (items : List Item)
    → IsUsableIfSome o
    → All IsUsable items
    → All IsUsable (elim o [ none ↦ items | some item ↦ item ∷ items ])
IsUsableIfSome-cons none items h k = k
IsUsableIfSome-cons (some item) items h k = (h, k)

abbrev UsableItems : Feed → Type 0
UsableItems feed = All IsUsable feed.items

abbrev IfOk : (Feed → Type 0) → Result Feed → Type 0
IfOk P (err message) = Unit
IfOk P (ok feed) = P feed

IfOk-if :
    (P : Feed → Type 0) (b : Bool) (r s : Result Feed)
    → IfOk P r
    → IfOk P s
    → IfOk P (if b then r else s)
IfOk-if P true r s h k = h
IfOk-if P false r s h k = k

bind-IfOk :
    {A : Type 0} (P : Feed → Type 0) (r : Result A) (next : A → Result Feed)
    → ((a : A) → IfOk P (next a))
    → IfOk P (r >>= next)
bind-IfOk P (err message) next h = tt
bind-IfOk P (ok a) next h = h a

module _ (api : TimeApi) (instant : api.Time → Time) (now : api.Time)
    (order : List (Text × ℕ) → List (Text × ℕ)) where
  guid_or-given :
      (guid link title : Text)
      → (not (is_empty (guid_or api instant now order guid link title))
          || is_empty link && is_empty title)
        ≡ true
  guid_or-given [] [] [] = refl
  guid_or-given [] [] (c ∷ title) = refl
  guid_or-given [] (c ∷ link) title = refl
  guid_or-given (c ∷ guid) link title = refl

  with_enclosure-said :
      (title link enc description : Text)
      → (is_empty title && is_empty link && is_empty description) ≡ false
      → (is_empty title
          && is_empty link
          && is_empty (with_enclosure api instant now order enc description))
        ≡ false
  with_enclosure-said title link [] description h = h
  with_enclosure-said title link (c ∷ enc) description h = ground arith

  converted-IsUsable :
      (ri : RawItem)
      → (is_empty (clean_text ri.title)
          && is_empty (pick_link ri.link)
          && is_empty (description_of api instant now order ri))
        ≡ false
      → IsUsable (converted api instant now order ri)
  unfolding converted
  converted-IsUsable ri h = (
    with_enclosure-said (clean_text ri.title) (pick_link ri.link) (first_enclosure ri.enclosure)
        (description_of api instant now order ri) h,
    guid_or-given (trim_space ri.guid.value) (pick_link ri.link) (clean_text ri.title),
  )

  convert_item-IsUsable : (ri : RawItem) → IsUsableIfSome (convert_item api instant now order ri)
  unfolding convert_item
  convert_item-IsUsable ri =
      elim (Bool-cases (
        is_empty (clean_text ri.title)
        && is_empty (pick_link ri.link)
        && is_empty (description_of api instant now order ri))) [
          | inl e ↦
              let dropped : none ≡ convert_item api instant now order ri = rw e refl in
              subst IsUsableIfSome dropped tt
          | inr e ↦
              let kept : some (converted api instant now order ri)
                  ≡ convert_item api instant now order ri =
                rw e refl in
              subst IsUsableIfSome kept (converted-IsUsable ri e)
        ]

  convert_items-IsUsable :
      (items : List RawItem) → All IsUsable (convert_items api instant now order items)
  unfolding convert_items
  convert_items-IsUsable [] = tt
  convert_items-IsUsable (ri ∷ items) =
      IsUsableIfSome-cons (convert_item api instant now order ri)
        (convert_items api instant now order items) (convert_item-IsUsable ri)
        (convert_items-IsUsable items)

  build_feed-IsUsable :
      (ch : RawChannel) (items : List RawItem)
      → All IsUsable (build_feed api instant now order ch items).items
  unfolding build_feed
  build_feed-IsUsable ch items = convert_items-IsUsable items

  build_source-IsUsable :
      (local : Text) (o : Option (RawChannel × List RawItem))
      → IfOk UsableItems (build_source api instant now order local o)
  build_source-IsUsable local none = tt
  build_source-IsUsable local (some (ch, items)) = build_feed-IsUsable ch items

  -- Every item of a feed that was read has a title, a link or a description, and where its GUID is
  -- empty it has neither a link nor a title.
  pub parse-IsUsable :
      (decode : Text → Result RawDoc) (input : Text) (feed : Feed)
      → parse api instant now order decode input ≡ ok feed
      → All IsUsable feed.items
  unfolding parse build_feed
  parse-IsUsable decode input feed e = subst (IfOk UsableItems) e (
      IfOk-if UsableItems (is_empty (trim_space input)) (err (codes "rssfeed: empty document"))
        (wrap (codes "rssfeed: parse xml: ") (decode (trim_space input))
          >>= feed_of api instant now order)
        tt
        (bind-IfOk UsableItems (wrap (codes "rssfeed: parse xml: ") (decode (trim_space input)))
          (feed_of api instant now order)
          (λ doc. build_source-IsUsable doc.local (source_of api instant now order doc))))
