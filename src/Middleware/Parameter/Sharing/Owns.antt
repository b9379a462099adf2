-- ===== src/Middleware/Parameter/Sharing/Owns.antt =====
-- `ProcessFeed` (internal/middleware/parameter.go) writes to arrays of its own only, and returns the
-- items that it returns as a function of values.
use syndi.Common.{
  ℕ, ◌<◌, ◌≤◌, ◌≡◌, refl, sym, ap, ◌∙◌, Bool, true, false, not, List, [], ◌∷◌, map, Option, none,
  some, arith, Text, codes, is_empty, ℤ, pos, pos_part, ltb_ℤ, ltb, length, length-append,
  length-take, take, get_elem?, keep_if, Bool-cases, inl, inr, if◌then◌else◌,
}
use syndi.Golang.Numbers.{sscanf_d}
use syndi.Models.{Item, Time}
use syndi.Middleware.Parameter.{
  Regexp, cutoff, within, filter_loop, filter_by_time, filter_items, limit_items, brief_length,
  shorten, apply_brief_mode, newer, wants_sorted, sort_items_by_pub_date, select_items,
  process_feed,
}
use syndi.Middleware.Parameter.Sharing.{
  Heap, Slice, or_nil, read, make, shorten_first, filter_time_slice, filter_slice, limit_slice,
  brief_slice, process_slice,
}
use syndi.Middleware.Parameter.Sharing.Arrays.{
  get_elem?-append, get_elem?-last, get_elem?-set_ne, get_elem?-set_self, length-set, take-length,
  take-take, take-shorten_first, length-shorten_first,
}

-- The slice is outside of the arrays of `old`, which are as they were, and holds the items `xs`.
pub record Owns (old : Heap) (xs : List Item) (s : Slice) (h : Heap) : Type 0 where
  pub outside : length old ≤ s.array
  pub inside : s.array < length h
  pub fits : s.len ≤ length (or_nil (get_elem? h s.array))
  pub holds : read h s ≡ xs
  pub kept : (j : ℕ) → j < length old → get_elem? h j ≡ get_elem? old j

make-Owns :
    (old h : Heap) (xs : List Item)
    → length old ≤ length h
    → ((j : ℕ) → j < length old → get_elem? h j ≡ get_elem? old j)
    → Owns old xs (make xs h).0 (make xs h).1
unfolding make
make-Owns old h xs p kept =
    let new = get_elem?-last h xs in
    record {
      outside = p;
      inside = ground (arith, length-append h (xs ∷ []));
      fits = rw new (omega arith);
      holds = rw new (take-length xs);
      kept = λ j q. get_elem?-append h xs j (omega arith) ∙ kept j q;
    }

Owns-length : (old h : Heap) (xs : List Item) (s : Slice) → Owns old xs s h → length xs ≡ s.len
Owns-length old h xs s o =
    let bound = o.fits in
    let count = length-take s.len (or_nil (get_elem? h s.array)) in
    sym (ap length o.holds) ∙ omega arith

shorter-Owns :
    (old h : Heap) (xs : List Item) (s : Slice) (n : ℕ)
    → n ≤ s.len
    → Owns old xs s h
    → Owns old (take n xs) (record s { len = n }) h
shorter-Owns old h xs s n p o =
    let bound = o.fits in
    record {
      outside = o.outside;
      inside = o.inside;
      fits = omega arith;
      holds = sym (take-take n s.len (or_nil (get_elem? h s.array)) p) ∙ ap (take n) o.holds;
      kept = o.kept;
    }

-- The cut of the items by the number that was read.
abbrev limited : Option ℤ → List Item → List Item
limited number xs = elim number [
  | none ↦ xs
  | some l ↦
      if not (ltb_ℤ (pos 0) l)
      then xs
      else if ltb (length xs) (pos_part l)
      then xs
      else take (pos_part l) xs
]

limited-Owns :
    (old h : Heap) (xs : List Item) (s : Slice) (number : Option ℤ)
    → Owns old xs s h
    → Owns old (limited number xs) (limit_slice number s) h
unfolding limit_slice
limited-Owns old h xs s none o = o
limited-Owns old h xs s (some l) o = elim (Bool-cases (ltb_ℤ (pos 0) l)) [
  | inr low ↦ rw (low, limit_slice, limited) o
  | inl high ↦ elim (Bool-cases (ltb s.len (pos_part l))) [
    | inl short ↦ rw (high, Owns-length old h xs s o, short, limit_slice, limited) o
    | inr long ↦
        rw (high, Owns-length old h xs s o, long, limit_slice, limited)
          (shorter-Owns old h xs s (pos_part l) (ground (arith, long)) o)
  ]
]

large : (old h : Heap) (xs : List Item) (s : Slice) → Owns old xs s h → length old ≤ length h
large old h xs s o = let a = o.outside in let b = o.inside in omega arith

limit-Owns :
    (old h : Heap) (xs : List Item) (s : Slice) (text : Text)
    → Owns old xs s h
    → Owns old (limit_items xs text) (limit_slice (sscanf_d text) s) h
unfolding limit_items
limit-Owns old h xs s text o = limited-Owns old h xs s (sscanf_d text) o

brief-Owns :
    (old h : Heap) (xs : List Item) (s : Slice) (m : ℕ)
    → Owns old xs s h
    → Owns old (map (shorten m) xs) s (brief_slice m s h)
unfolding brief_slice
brief-Owns old h xs s m o =
    let ys = or_nil (get_elem? h s.array) in
    let new = get_elem?-set_self h s.array (shorten_first m s.len ys) o.inside in
    let same = length-set h s.array (shorten_first m s.len ys) in
    let count = length-shorten_first m s.len ys in
    let bound = o.fits in
    let below = o.outside in
    let within_heap = o.inside in
    record {
      outside = o.outside;
      inside = omega arith;
      fits = rw new (omega arith);
      holds = rw new (take-shorten_first m s.len ys ∙ ap (map (shorten m)) o.holds);
      kept =
          λ j q. get_elem?-set_ne h s.array j (shorten_first m s.len ys) (omega arith) ∙ o.kept j q;
    }

-- The slice that a step makes or keeps still owns what the step's list function returns.
filter_time-Owns :
    (now : Time) (old h : Heap) (xs : List Item) (s : Slice) (number : Option ℤ)
    → Owns old xs s h
    → Owns old
        (elim number [ none ↦ xs | some n ↦ keep_if (within (cutoff now n)) xs ])
        (filter_time_slice now number s h).0
        (filter_time_slice now number s h).1
unfolding filter_time_slice
filter_time-Owns now old h xs s none o = o
filter_time-Owns now old h xs s (some n) o =
    rw (o.holds, filter_time_slice)
      (make-Owns old h (keep_if (within (cutoff now n)) xs) (large old h xs s o) o.kept)

filter-Owns :
    (old h : Heap) (xs : List Item) (s : Slice) (compiled : Option Regexp) (exclude : Bool)
    → Owns old xs s h
    → Owns old
        (elim compiled [ none ↦ xs | some re ↦ filter_loop re exclude xs ])
        (filter_slice compiled exclude s h).0
        (filter_slice compiled exclude s h).1
unfolding filter_slice
filter-Owns old h xs s none exclude o = o
filter-Owns old h xs s (some re) exclude o =
    rw (o.holds, filter_slice)
      (make-Owns old h (filter_loop re exclude xs) (large old h xs s o) o.kept)

-- The same for the steps, which are left out where their parameter is absent.
time_step-Owns :
    (now : Time) (old h : Heap) (xs : List Item) (s : Slice) (t : Text)
    → Owns old xs s h
    → Owns old
        (if is_empty t then xs else filter_by_time now xs t)
        (if is_empty t then (s, h) else filter_time_slice now (sscanf_d t) s h).0
        (if is_empty t then (s, h) else filter_time_slice now (sscanf_d t) s h).1
unfolding filter_by_time
time_step-Owns now old h xs s [] o = o
time_step-Owns now old h xs s (c ∷ t) o = filter_time-Owns now old h xs s (sscanf_d (c ∷ t)) o

filter_step-Owns :
    (compile : Text → Option Regexp) (old h : Heap) (xs : List Item) (s : Slice) (t : Text)
    (exclude : Bool)
    → Owns old xs s h
    → Owns old
        (if is_empty t then xs else filter_items compile xs t exclude)
        (if is_empty t then (s, h) else filter_slice (compile t) exclude s h).0
        (if is_empty t then (s, h) else filter_slice (compile t) exclude s h).1
unfolding filter_items
filter_step-Owns compile old h xs s [] exclude o = o
filter_step-Owns compile old h xs s (c ∷ t) exclude o =
    filter-Owns old h xs s (compile (c ∷ t)) exclude o

sort_step-Owns :
    (sort : (Item → Item → Bool) → List Item → List Item) (old h : Heap) (xs : List Item)
    (s : Slice) (asked : Bool)
    → Owns old xs s h
    → Owns old
        (if asked then sort newer xs else xs)
        (if asked then make (sort newer (read h s)) h else (s, h)).0
        (if asked then make (sort newer (read h s)) h else (s, h)).1
sort_step-Owns sort old h xs s false o = o
sort_step-Owns sort old h xs s true o =
    rw o.holds (make-Owns old h (sort newer xs) (large old h xs s o) o.kept)

limit_step-Owns :
    (old h : Heap) (xs : List Item) (s : Slice) (t : Text)
    → Owns old xs s h
    → Owns old
        (if is_empty t then xs else limit_items xs t)
        (if is_empty t then s else limit_slice (sscanf_d t) s)
        h
limit_step-Owns old h xs s [] o = o
limit_step-Owns old h xs s (c ∷ t) o = limit-Owns old h xs s (c ∷ t) o

brief_step-Owns :
    (old h : Heap) (xs : List Item) (s : Slice) (t : Text)
    → Owns old xs s h
    → Owns old
        (if is_empty t then xs else apply_brief_mode xs t)
        s
        (if is_empty t then h else brief_slice (brief_length t) s h)
unfolding apply_brief_mode
brief_step-Owns old h xs s [] o = o
brief_step-Owns old h xs s (c ∷ t) o = brief-Owns old h xs s (brief_length (c ∷ t)) o

module _ (compile : Text → Option Regexp) (sort : (Item → Item → Bool) → List Item → List Item)
    (now : Time) (query : Text → Text) where
  -- The slice that is returned lies in a new array and holds the items that `process_feed` gives; no
  -- array that was there before, such as that of the feed in the cache, is changed.
  pub process_slice-Owns :
      (items : Slice) (h : Heap)
      → Owns h
          (process_feed compile sort now query (read h items))
          (process_slice compile sort now query items h).0
          (process_slice compile sort now query items h).1
  unfolding process_slice process_feed select_items sort_items_by_pub_date
  process_slice-Owns items h =
      let o1 = make-Owns h h (read h items) (omega arith) (λ j q. refl) in
      let o2 = time_step-Owns now h _ _ _ (query (codes "filter_time")) o1 in
      let o3 = filter_step-Owns compile h _ _ _ (query (codes "filter")) false o2 in
      let o4 = filter_step-Owns compile h _ _ _ (query (codes "filterout")) true o3 in
      let o5 = sort_step-Owns sort h _ _ _ (wants_sorted (query (codes "sorted"))) o4 in
      let o6 = limit_step-Owns h _ _ _ (query (codes "limit")) o5 in
      brief_step-Owns h _ _ _ (query (codes "brief")) o6
