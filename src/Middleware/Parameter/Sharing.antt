-- ===== src/Middleware/Parameter/Sharing.antt =====
-- `ProcessFeed` (internal/middleware/parameter.go) over a heap of arrays: its items are a slice, which
-- may share its array with the feed in the cache. A slice is an array with a length; every slice here
-- begins where its array does.
pub mod Arrays
pub mod Owns
use mathlib.Core.List.{append-nil}
use syndi.Common.{
  ℕ, zero, suc, ◌+◌, ◌<◌, ◌≤◌, ◌≡◌, refl, sym, ap, ◌∙◌, Bool, true, false, not, List, [], ◌∷◌, ◌++◌,
  map, Option, none, some, arith, Text, codes, is_empty, ℤ, pos, pos_part, ltb_ℤ, ltb, length,
  length-append, length-map, length-take, take, get_elem?, set, keep_if, Bool-cases, Option-cases,
  inl, inr, if◌then◌else◌,
}
use syndi.Golang.Numbers.{sscanf_d}
use syndi.Models.{Item, Time}
use syndi.Middleware.Parameter.{
  Regexp, cutoff, within, filter_loop, filter_by_time, filter_items, limit_items, brief_length,
  shorten, apply_brief_mode, newer, wants_sorted, sort_items_by_pub_date, select_items,
  process_feed,
}

abbrev pub Heap : Type 0
Heap = List (List Item)

pub record Slice : Type 0 where
  pub array : ℕ
  pub len : ℕ

abbrev pub or_nil : Option (List Item) → List Item
or_nil none = []
or_nil (some xs) = xs

abbrev pub read : Heap → Slice → List Item
read h s = take s.len (or_nil (get_elem? h s.array))

-- A new array.
unfoldable pub make : List Item → Heap → Slice × Heap
make xs h = (record { array = length h; len = length xs }, h ++ xs ∷ [])

-- The assignments to the descriptions of the first `n` items of an array.
unfoldable pub shorten_first : ℕ → ℕ → List Item → List Item
shorten_first m zero xs = xs
shorten_first m (suc n) [] = []
shorten_first m (suc n) (x ∷ xs) = shorten m x ∷ shorten_first m n xs

unfoldable pub filter_time_slice : Time → Option ℤ → Slice → Heap → Slice × Heap
filter_time_slice now none s h = (s, h)
filter_time_slice now (some n) s h = make (keep_if (within (cutoff now n)) (read h s)) h

unfoldable pub filter_slice : Option Regexp → Bool → Slice → Heap → Slice × Heap
filter_slice none exclude s h = (s, h)
filter_slice (some re) exclude s h = make (filter_loop re exclude (read h s)) h

unfoldable pub limit_slice : Option ℤ → Slice → Slice
limit_slice none s = s
limit_slice (some l) s =
    if not (ltb_ℤ (pos 0) l)
    then s
    else if ltb s.len (pos_part l)
    then s
    else record s { len = pos_part l }

unfoldable pub brief_slice : ℕ → Slice → Heap → Heap
brief_slice m s h = set h s.array (shorten_first m s.len (or_nil (get_elem? h s.array)))

module _ (compile : Text → Option Regexp) (sort : (Item → Item → Bool) → List Item → List Item)
    (now : Time) (query : Text → Text) where
  abbrev pub time_step : Slice → Heap → Slice × Heap
  time_step s h =
      let t = query (codes "filter_time") in
      if is_empty t then (s, h) else filter_time_slice now (sscanf_d t) s h

  abbrev pub filter_step : Bool → Text → Slice → Heap → Slice × Heap
  filter_step exclude t s h = if is_empty t then (s, h) else filter_slice (compile t) exclude s h

  abbrev pub sort_step : Slice → Heap → Slice × Heap
  sort_step s h =
      if wants_sorted (query (codes "sorted")) then make (sort newer (read h s)) h else (s, h)

  abbrev pub limit_step : Slice → Slice
  limit_step s =
      let t = query (codes "limit") in if is_empty t then s else limit_slice (sscanf_d t) s

  abbrev pub brief_step : Slice → Heap → Heap
  brief_step s h =
      let t = query (codes "brief") in if is_empty t then h else brief_slice (brief_length t) s h

  -- `ProcessFeed` on a slice: its result and the heap after it.
  unfoldable pub process_slice : Slice → Heap → Slice × Heap
  process_slice items h =
      let (a, h1) = make (read h items) h in
      let (b, h2) = time_step a h1 in
      let (c, h3) = filter_step false (query (codes "filter")) b h2 in
      let (d, h4) = filter_step true (query (codes "filterout")) c h3 in
      let (e, h5) = sort_step d h4 in let f = limit_step e in (f, brief_step f h5)
