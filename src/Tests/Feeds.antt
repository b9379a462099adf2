-- ===== src/Tests/Feeds.antt =====
-- The parameters of internal/middleware/parameter.go on a feed of three items.
use mathlib.Core.List.{Permᴰ}
use syndi.Common.{
  ◌≡◌, refl, true, false, List, [], ◌∷◌, Option, none, some, arith, Text, codes, text_eq, pos,
  negsuc, keep_if, if◌then◌else◌,
}
use syndi.Golang.Numbers.{sscanf_d, atoi}
use syndi.Golang.Sorting.{IsOrdered}
use syndi.Golang.Sorting.Insertion.{insertion_sort, insertion_sort-IsSort}
use syndi.Models.{Item, Time}
use syndi.Middleware.Parameter.{
  Regexp, filter_by_time, limit_items, truncate_runes, brief_length, newer, wants_sorted,
  select_items, process_feed, apply_brief_mode, sort_items_by_pub_date, filter_items, filter_loop,
  matches_filter, shorten,
}
use syndi.Middleware.Parameter.Selection.{selected, select_items-selected}
use syndi.Middleware.Parameter.Sharing.{Heap, Slice, read, process_slice}
use syndi.Middleware.Parameter.Sharing.Owns.{Owns, process_slice-Owns}
use syndi.Middleware.Parameter.Window.{filter_by_time-wraps}

scan_tests :
    (sscanf_d (codes " -12ab") ≡ some (negsuc 11))
    × (atoi (codes "12ab") ≡ none)
    × (atoi (codes "+30") ≡ some (pos 30))
    × (sscanf_d (codes "9223372036854775808") ≡ none)
unfolding sscanf_d atoi
scan_tests = (refl, refl, refl, refl)

abbrev item : Text → Text → Time → Item
item title description date = record {
  title = title;
  description = description;
  link = codes "/";
  pub_date = date;
  guid = title;
  author = none;
  updated = none;
  categories = [];
}

abbrev old : Item
old = item (codes "go") (codes "a release") (pos 3_000_000_000)

abbrev new : Item
new = item (codes "go") (codes "fixes") (pos 9_000_000_000)

abbrev undated : Item
undated = item (codes "rust") (codes "an edition") (pos 0)

abbrev items : List Item
items = undated ∷ old ∷ new ∷ []

abbrev compile : Text → Option Regexp
compile p = some (text_eq p)

abbrev now : Time
now = pos 10_000_000_000

abbrev query : Text → Text
query k =
    if text_eq k (codes "filter")
    then codes "go"
    else if text_eq k (codes "limit")
    then codes "1"
    else if text_eq k (codes "brief")
    then codes "2"
    else []

brief_test :
    process_feed compile insertion_sort now query items
    ≡ item (codes "go") (codes "fi...") (pos 9_000_000_000) ∷ []
unfolding process_feed select_items text_eq apply_brief_mode limit_items sscanf_d wants_sorted
    sort_items_by_pub_date filter_items filter_loop matches_filter newer shorten truncate_runes
    brief_length
brief_test = refl

select_items-selected_example :
    Permᴰ
      (select_items compile insertion_sort now query items)
      (keep_if (selected compile insertion_sort now query) items)
    × (wants_sorted (query (codes "sorted")) ≡ true
        → IsOrdered newer (select_items compile insertion_sort now query items))
    × (wants_sorted (query (codes "sorted")) ≡ false
        → select_items compile insertion_sort now query items
          ≡ keep_if (selected compile insertion_sort now query) items)
select_items-selected_example =
    select_items-selected compile insertion_sort now query insertion_sort-IsSort items

reads_5 : sscanf_d (codes "5") ≡ some (pos 5)
unfolding sscanf_d
reads_5 = refl

reads_10_10 : sscanf_d (codes "10000000000") ≡ some (pos 10_000_000_000)
unfolding sscanf_d
reads_10_10 = refl

filter_by_time-wraps_example : filter_by_time now items (codes "10000000000") ≡ []
filter_by_time-wraps_example =
    filter_by_time-wraps (codes "10000000000") 10_000_000_000 10_000_000_000 items reads_10_10
      (omega arith) (omega arith) (ground arith, (ground arith, (ground arith, tt)))

-- The feed in the cache is the first array of the heap.
abbrev cached : Slice
cached = record { array = 0; len = 3 }

abbrev heap : Heap
heap = items ∷ []

process_slice-Owns_example :
    Owns heap
      (process_feed compile insertion_sort now query (read heap cached))
      (process_slice compile insertion_sort now query cached heap).0
      (process_slice compile insertion_sort now query cached heap).1
process_slice-Owns_example = process_slice-Owns compile insertion_sort now query cached heap
