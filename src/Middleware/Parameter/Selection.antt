-- ===== src/Middleware/Parameter/Selection.antt =====
-- What `ProcessFeed` (internal/middleware/parameter.go) returns: which items, in which order, how
-- many, and how their descriptions are shortened.
use mathlib.Core.List.{Permᴰ}
use mathlib.Core.List.Permᴰ
use syndi.Common.{
  ◌≡◌, refl, sym, Bool, true, false, not, ◌&&◌, ◌||◌, List, [], ◌∷◌, Option, none, some, arith,
  Text, codes, keep_if, keep_if-keep_if, keep_if-true, if◌then◌else◌, Bool-cases, Option-cases, inl,
  inr, is_empty,
}
use syndi.Golang.Numbers.{sscanf_d}
use syndi.Golang.Sorting.{IsSort, IsOrdered}
use syndi.Models.{Item, Time}
use syndi.Middleware.Parameter.{
  Regexp, matches_filter, filter_loop, cutoff, within, filter_by_time, newer, wants_sorted,
  filter_items, sort_items_by_pub_date, select_items,
}
use syndi.Middleware.Parameter.Order.{newer-StrictWeak}

-- The item's date is in the window of `filter_time`, if that is a number.
unfoldable pub in_window : Time → Text → Item → Bool
in_window now s item =
    is_empty s || elim (sscanf_d s) [ none ↦ true | some n ↦ within (cutoff now n) item ]

-- The item matches the pattern, `otherwise` where there is none or it does not compile.
unfoldable pub matches_pattern : (Text → Option Regexp) → Bool → Text → Item → Bool
matches_pattern compile otherwise s item =
    if is_empty s
    then otherwise
    else elim (compile s) [ none ↦ otherwise | some re ↦ matches_filter re item ]

filter_loop-include :
    (re : Regexp) (items : List Item)
    → filter_loop re false items ≡ keep_if (matches_filter re) items
unfolding filter_loop
filter_loop-include re [] = refl
filter_loop-include re (x ∷ xs) = ground (arith, filter_loop-include re xs)

filter_loop-exclude :
    (re : Regexp) (items : List Item)
    → filter_loop re true items ≡ keep_if (λ x. not (matches_filter re x)) items
unfolding filter_loop
filter_loop-exclude re [] = refl
filter_loop-exclude re (x ∷ xs) = ground (arith, filter_loop-exclude re xs)

window_step :
    (now : Time) (s : Text) (items : List Item)
    → (if is_empty s then items else filter_by_time now items s) ≡ keep_if (in_window now s) items
unfolding filter_by_time in_window
window_step now [] items = sym (keep_if-true items)
window_step now (c ∷ s) items = elim (Option-cases (sscanf_d (c ∷ s))) [
  | inl e ↦ rw (e, filter_by_time, in_window) (sym (keep_if-true items))
  | inr (n, e) ↦ rw (e, filter_by_time, in_window)
]

include_step :
    (compile : Text → Option Regexp) (s : Text) (items : List Item)
    → (if is_empty s then items else filter_items compile items s false)
      ≡ keep_if (matches_pattern compile true s) items
unfolding matches_pattern filter_items
include_step compile [] items = sym (keep_if-true items)
include_step compile (c ∷ s) items = elim (Option-cases (compile (c ∷ s))) [
  | inl e ↦ rw (e, matches_pattern, filter_items) (sym (keep_if-true items))
  | inr (re, e) ↦ rw (e, matches_pattern, filter_items) (filter_loop-include re items)
]

exclude_by :
    (compiled : Option Regexp) (items : List Item)
    → (elim compiled [ none ↦ items | some re ↦ filter_loop re true items ])
      ≡ keep_if (λ x. not (elim compiled [ none ↦ false | some re ↦ matches_filter re x ])) items
exclude_by none items = sym (keep_if-true items)
exclude_by (some re) items = filter_loop-exclude re items

exclude_step :
    (compile : Text → Option Regexp) (s : Text) (items : List Item)
    → (if is_empty s then items else filter_items compile items s true)
      ≡ keep_if (λ x. not (matches_pattern compile false s x)) items
unfolding matches_pattern filter_items
exclude_step compile [] items = sym (keep_if-true items)
exclude_step compile (c ∷ s) items = exclude_by (compile (c ∷ s)) items

module _ (compile : Text → Option Regexp) (sort : (Item → Item → Bool) → List Item → List Item)
    (now : Time) (query : Text → Text) where
  -- In the window, matching `filter` and not matching `filterout`.
  unfoldable pub selected : Item → Bool
  selected item =
      in_window now (query (codes "filter_time")) item
      && (matches_pattern compile true (query (codes "filter")) item
          && not (matches_pattern compile false (query (codes "filterout")) item))

  selection : List Item → List Item
  selection items =
      let ft = query (codes "filter_time") in
      let fi = query (codes "filter") in
      let fo = query (codes "filterout") in
      let a = if is_empty ft then items else filter_by_time now items ft in
      let b = if is_empty fi then a else filter_items compile a fi false in
      if is_empty fo then b else filter_items compile b fo true

  selection-keep_if : (items : List Item) → selection items ≡ keep_if selected items
  unfolding selection selected
  selection-keep_if items =
      rw (window_step, include_step, exclude_step, keep_if-keep_if, keep_if-keep_if)

  module _ (sorts : IsSort sort) where
    -- The items that `ProcessFeed` keeps are those selected, each as often; they are sorted, later
    -- dates first, unless `sorted` says otherwise, and then they keep their order.
    pub select_items-selected :
        (items : List Item)
        → Permᴰ (select_items compile sort now query items) (keep_if selected items)
          × (wants_sorted (query (codes "sorted")) ≡ true
              → IsOrdered newer (select_items compile sort now query items))
          × (wants_sorted (query (codes "sorted")) ≡ false
              → select_items compile sort now query items ≡ keep_if selected items)
    unfolding select_items sort_items_by_pub_date selection
    select_items-selected items = elim (Bool-cases (wants_sorted (query (codes "sorted")))) [
      | inl e ↦ rw e (
        rw (← selection-keep_if items) (sorts.permutes newer (selection items)),
        λ _. sorts.orders newer (selection items) newer-StrictWeak,
        λ h. cc,
      )
      | inr e ↦ rw e (
        rw (← selection-keep_if items) (Permᴰ.refl (selection items)),
        λ h. cc,
        λ _. selection-keep_if items,
      )
    ]
