-- ===== src/Middleware/Parameter/Output.antt =====
-- The items that `ProcessFeed` (internal/middleware/parameter.go) returns: how many they are, where
-- they come from, and how long their descriptions are.
use mathlib.Core.List.{Memᴰ}
use mathlib.Core.List.Permᴰ
use syndi.Common.{
  ℕ, ◌+◌, ◌≤◌, ◌≡◌, refl, sym, ap, Bool, true, false, not, List, [], ◌∷◌, map, Option, none, some,
  arith, Text, codes, ℤ, pos, pos_part, ltb_ℤ, ltb, length, take, keep_if, keep_if-members,
  length-take, length-map, length-append, length-perm, All, All-imp, All-map, All-take, All-perm,
  if◌then◌else◌, min, is_empty,
}
use syndi.Golang.Numbers.{sscanf_d}
use syndi.Golang.Sorting.{IsSort}
use syndi.Models.{Item, Time}
use syndi.Middleware.Parameter.{
  Regexp, limit_items, truncate_runes, brief_length, shorten, apply_brief_mode, process_feed,
}
use syndi.Middleware.Parameter.Selection.{selected, select_items-selected}

-- The number of items that `limit` allows out of `n`: all, unless it is a positive number.
abbrev pub allowed : Text → ℕ → ℕ
allowed s n =
    if is_empty s
    then n
    else elim (sscanf_d s) [ none ↦ n | some l ↦ if ltb_ℤ (pos 0) l then min (pos_part l) n else n ]

-- What `brief` does to an item.
abbrev pub briefed : Text → Item → Item
briefed s item = if is_empty s then item else shorten (brief_length s) item

-- The cut of `limitItems` once its number is read.
abbrev limit_by : Option ℤ → List Item → List Item
limit_by read items = elim read [
  | none ↦ items
  | some limit ↦
      if not (ltb_ℤ (pos 0) limit)
      then items
      else if ltb (length items) (pos_part limit)
      then items
      else take (pos_part limit) items
]

limited :
    (read : Option ℤ) (items : List Item)
    → length (limit_by read items) ≡ (elim read [
      | none ↦ length items
      | some l ↦ if ltb_ℤ (pos 0) l then min (pos_part l) (length items) else length items
    ])
limited none items = refl
limited (some l) items = ground (arith, length-take (pos_part l) items)

All-limited :
    (P : Item → Type 0) (read : Option ℤ) (items : List Item)
    → All P items
    → All P (limit_by read items)
All-limited P none items h = h
All-limited P (some l) items h = ground (arith, h, All-take P (pos_part l) items h)

length-limit_items :
    (s : Text) (items : List Item)
    → length (if is_empty s then items else limit_items items s) ≡ allowed s (length items)
unfolding limit_items
length-limit_items [] items = refl
length-limit_items (c ∷ s) items = limited (sscanf_d (c ∷ s)) items

All-limit_items :
    (P : Item → Type 0) (s : Text) (items : List Item)
    → All P items
    → All P (if is_empty s then items else limit_items items s)
unfolding limit_items
All-limit_items P [] items h = h
All-limit_items P (c ∷ s) items h = All-limited P (sscanf_d (c ∷ s)) items h

length-truncate_runes : (text : Text) (n : ℕ) → length (truncate_runes text n) ≤ n + 3
unfolding truncate_runes
length-truncate_runes text n =
    ground (arith, length-append (take n text) (codes "..."), length-take n text)

map-id : (items : List Item) → map (λ x. x) items ≡ items
map-id [] = refl
map-id (x ∷ xs) = ap (◌∷◌ x) (map-id xs)

brief_step :
    (s : Text) (items : List Item)
    → (if is_empty s then items else apply_brief_mode items s) ≡ map (briefed s) items
unfolding apply_brief_mode
brief_step [] items = sym (map-id items)
brief_step (c ∷ s) items = refl

briefed-bound :
    (s : Text) (x : Item)
    → is_empty s ≡ false
    → length (briefed s x).description ≤ brief_length s + 3
unfolding shorten
briefed-bound s x h = rw (h, briefed) (length-truncate_runes x.description (brief_length s))

module _ (compile : Text → Option Regexp) (sort : (Item → Item → Bool) → List Item → List Item)
    (sorts : IsSort sort) (now : Time) (query : Text → Text) where
  -- The number of items returned is that of the items selected, cut down to `limit` where that is
  -- a positive number.
  pub length-process_feed :
      (items : List Item)
      → length (process_feed compile sort now query items)
        ≡ allowed (query (codes "limit")) (length (keep_if (selected compile sort now query) items))
  unfolding process_feed
  length-process_feed items =
      rw (brief_step, length-map, length-limit_items)
        (ap (allowed (query (codes "limit")))
          (length-perm (select_items-selected compile sort now query sorts items).0))

  -- Every item returned is an item of the input, selected by the parameters, with no field changed
  -- but, under `brief`, the description.
  pub process_feed-All-selected :
      (items : List Item)
      → All
          (λ y.
            (x : Item) × Memᴰ x items
            × (selected compile sort now query x ≡ true)
            × (y ≡ briefed (query (codes "brief")) x))
          (process_feed compile sort now query items)
  unfolding process_feed
  process_feed-All-selected items =
      let chosen =
        All-perm _ (Permᴰ.symm (select_items-selected compile sort now query sorts items).0)
          (keep_if-members (selected compile sort now query) items) in
      rw brief_step (
        All-map _ (briefed (query (codes "brief"))) _ (
          All-limit_items _ (query (codes "limit")) _
            (All-imp (λ x h. (x, h.0, h.1, refl)) _ chosen)))

  -- Under `brief` no description is longer than the length asked for and the three dots.
  pub process_feed-brief_bound :
      (items : List Item)
      → is_empty (query (codes "brief")) ≡ false
      → All
          (λ y. length y.description ≤ brief_length (query (codes "brief")) + 3)
          (process_feed compile sort now query items)
  process_feed-brief_bound items h =
      All-imp (λ y e. rw e.3 (briefed-bound (query (codes "brief")) e.0 h)) _
        (process_feed-All-selected items)
