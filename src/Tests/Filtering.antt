-- ===== src/Tests/Filtering.antt =====
-- The selection of items by a route (internal/routeutils/filter.go).
use mathlib.Core.List.{Permᴰ}
use syndi.Common.{
  ◌≡◌, refl, true, false, List, [], ◌∷◌, Text, codes, text_eq, pos, Result, ok, length, take,
  keep_if, if◌then◌else◌, none,
}
use syndi.Golang.Numbers.{sscanf_d}
use syndi.Golang.Sorting.{IsOrdered}
use syndi.Golang.Sorting.Insertion.{insertion_sort, insertion_sort-IsSort}
use syndi.Models.{Item, Time}
use syndi.Middleware.Parameter.{Regexp, newer, wants_sorted}
use syndi.Middleware.Parameter.Output.{allowed}
use syndi.Routeutils.Filter.{
  apply_limit, sort_by_pub_date, pub_date_less, apply_parameters, unique_by,
}
use syndi.Routeutils.Filter.Unique.{IsUnique, first_of_each, unique_by-first_of_each}
use syndi.Routeutils.Filter.Selection.{wanted, apply_parameters-wanted}

abbrev item : Text → Time → Item
item title date = record {
  title = title;
  description = [];
  link = title;
  pub_date = date;
  guid = title;
  author = none;
  updated = none;
  categories = [];
}

abbrev old : Item
old = item (codes "go") (pos 3)

abbrev new : Item
new = item (codes "rust") (pos 9)

abbrev again : Item
again = item (codes "go") (pos 7)

abbrev compile : Text → Result Regexp
compile p = ok (λ s. text_eq (codes "(?i)") p)

abbrev query : Text → Text
query k = if text_eq k (codes "limit") then codes "1" else []

unique_by-first_of_each_example :
    (unique_by (old ∷ new ∷ again ∷ []) (λ i. i.guid)
      ≡ first_of_each (λ i. i.guid) (old ∷ new ∷ again ∷ []))
    × IsUnique (λ i. i.guid) (unique_by (old ∷ new ∷ again ∷ []) (λ i. i.guid))
unique_by-first_of_each_example = unique_by-first_of_each (λ i. i.guid) (old ∷ new ∷ again ∷ [])

newest :
    apply_parameters insertion_sort compile (λ s. s) (pos 10) (old ∷ new ∷ []) query ≡ ok (new ∷ [])
unfolding apply_parameters text_eq sscanf_d apply_limit sort_by_pub_date pub_date_less
newest = refl

apply_parameters-wanted_example :
    (chosen : List Item) × Permᴰ chosen (keep_if (wanted compile (pos 10) query) (old ∷ new ∷ []))
    × (wants_sorted (query (codes "sorted")) ≡ true → IsOrdered newer chosen)
    × (wants_sorted (query (codes "sorted")) ≡ false
        → chosen ≡ keep_if (wanted compile (pos 10) query) (old ∷ new ∷ []))
    × ((new ∷ []) ≡ take (allowed (query (codes "limit")) (length chosen)) chosen)
apply_parameters-wanted_example =
    apply_parameters-wanted compile (pos 10) query (λ s. s) insertion_sort (old ∷ new ∷ [])
      (new ∷ []) insertion_sort-IsSort newest
