-- ===== src/Feeds/Updated.antt =====
-- The times and the items of the documents of pkg/rss/generator.go.
use mathlib.Core.List.{Memᴰ}
use mathlib.Core.Path.{subst}
use syndi.Common.{
  ◌+◌, true, false, List, [], ◌∷◌, some, pos, pos_part, neg_part, ◌≤ℤ◌, All, Bool-cases, ltb→lt,
  Option-cases, ◌≡◌, refl, ◌⊎◌, inl, inr, arith,
}
use syndi.Models.{Time, is_zero, after, Item, Feed}
use syndi.Feeds.{newest_pub_date, has_time, feed_updated}

abbrev pub NotAfter : Time → Item → Type 0
NotAfter t item = item.pub_date ≤ℤ t

-- The latest of a start and of the publications of the items.
abbrev IsNewest : List Item → Time → Time → Type 0
IsNewest items start n =
    (start ≤ℤ n)
    × All (NotAfter n) items
    × ((n ≡ start) ⊎ ((item : Item) × Memᴰ item items × (n ≡ item.pub_date)))

IsNewest-after :
    (item : Item) (items : List Item) (start n : Time)
    → after item.pub_date start ≡ true
    → IsNewest items item.pub_date n
    → IsNewest (item ∷ items) start n
IsNewest-after item items start n e (above, all, from) = (
  omega (
    arith,
    above,
    ltb→lt (pos_part start + neg_part item.pub_date) (pos_part item.pub_date + neg_part start) e,
  ),
  (above, all),
  elim from [
    | inl f ↦ inr (item, Memᴰ.head refl, f)
    | inr (other, m, f) ↦ inr (other, Memᴰ.tail m, f)
  ],
)

IsNewest-not_after :
    (item : Item) (items : List Item) (start n : Time)
    → after item.pub_date start ≡ false
    → IsNewest items start n
    → IsNewest (item ∷ items) start n
IsNewest-not_after item items start n e (above, all, from) = (
  above,
  (ground (arith, e, above), all),
  elim from [ inl f ↦ inl f | inr (other, m, f) ↦ inr (other, Memᴰ.tail m, f) ],
)

newest_pub_date-IsNewest :
    (items : List Item) (start : Time) → IsNewest items start (newest_pub_date items start)
unfolding newest_pub_date
newest_pub_date-IsNewest [] start = (omega arith, tt, inl refl)
newest_pub_date-IsNewest (item ∷ items) start = elim (Bool-cases (after item.pub_date start)) [
  | inl e ↦
      subst (IsNewest (item ∷ items) start) (rw e refl)
        (IsNewest-after item items start _ e (newest_pub_date-IsNewest items item.pub_date))
  | inr e ↦
      subst (IsNewest (item ∷ items) start) (rw e refl)
        (IsNewest-not_after item items start _ e (newest_pub_date-IsNewest items start))
]

-- A feed's effective time is its own time where it has one that is not zero; otherwise it is at least
-- as late as the publication of each item, and it is that of one of them or the zero time.
pub feed_updated-newest :
    (feed : Feed)
    → ((t : Time) × (feed.updated ≡ some t) × (is_zero t ≡ false) × (feed_updated feed ≡ t))
      ⊎ ((has_time feed.updated ≡ false)
          × All (NotAfter (feed_updated feed)) feed.items
          × ((feed_updated feed ≡ pos 0)
              ⊎ ((item : Item) × Memᴰ item feed.items × (feed_updated feed ≡ item.pub_date))))
unfolding feed_updated
feed_updated-newest feed =
    let newest = newest_pub_date-IsNewest feed.items (pos 0) in
    elim (Option-cases feed.updated) [
      | inl e ↦ inr (rw e refl, rw e newest.1, rw e newest.2)
      | inr (t, e) ↦ elim (Bool-cases (is_zero t)) [
        | inl z ↦ inr (rw (e, z) refl, rw (e, z) newest.1, rw (e, z) newest.2)
        | inr z ↦ inl (t, e, z, rw (e, z) refl)
      ]
    ]
