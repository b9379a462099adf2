-- ===== src/Routeutils/Filter/Selection.antt =====
-- What `ApplyParameters` (internal/routeutils/filter.go) returns when it returns no error.
use mathlib.Core.List.{Permᴰ}
use mathlib.Core.List.Permᴰ
use mathlib.Core.Path.{subst}
use syndi.Common.{
  ◌≡◌, refl, sym, ap, ◌∙◌, Bool, true, false, not, ◌&&◌, ◌||◌, List, [], ◌∷◌, Option, none, some,
  arith, Text, codes, is_empty, Result, ok, err, >>=-eq-ok, ℤ, pos, pos_part, ltb_ℤ, length, take,
  keep_if, keep_if-keep_if, keep_if-true, min, Bool-cases, inl, inr, if◌then◌else◌,
}
use syndi.Golang.Numbers.{sscanf_d}
use syndi.Golang.Sorting.{IsSort, IsOrdered}
use syndi.Models.{Item, Time}
use syndi.Middleware.Parameter.{Regexp, cutoff, within, newer, wants_sorted}
use syndi.Middleware.Parameter.Output.{allowed}
use syndi.Middleware.Parameter.Order.{newer-StrictWeak}
use syndi.Routeutils.Filter.{
  matches_filter_in_fields, all_fields, pub_date_less, compile_regex, filter_items,
  filter_out_items, filter_by_time, window, include, exclude, named, sorted, sort_by_pub_date,
  limit_read, apply_limit, apply_parameters,
}

-- The item's date is in the window of `filter_time`, if that is a positive number.
abbrev in_window : Time → Option ℤ → Item → Bool
in_window now none item = true
in_window now (some seconds) item =
    if ltb_ℤ (pos 0) seconds then within (cutoff now seconds) item else true

-- The item matches a compiled expression in one of the four fields.
abbrev matches : Result Regexp → Item → Bool
matches (err e) item = false
matches (ok re) item = matches_filter_in_fields re all_fields item

window-keep_if :
    (now : Time) (items : List Item) (read : Option ℤ)
    → window now items read ≡ keep_if (in_window now read) items
unfolding filter_by_time
window-keep_if now items none = sym (keep_if-true items)
window-keep_if now items (some n) = elim (Bool-cases (ltb_ℤ (pos 0) n)) [
  | inl e ↦ rw (e, in_window)
  | inr e ↦ rw (e, in_window) (sym (keep_if-true items))
]

ok_injective : {A : Type 0} {a b : A} → ◌≡◌ {A = Result A} (ok a) (ok b) → a ≡ b
ok_injective h = cc

take-length : (items : List Item) → take (length items) items ≡ items
take-length [] = refl
take-length (x ∷ xs) = ap (◌∷◌ x) (take-length xs)

limit_read-take :
    (items : List Item) (read : Option ℤ)
    → limit_read items read
      ≡ take
          (elim read [
            | none ↦ length items
            | some l ↦ if ltb_ℤ (pos 0) l then min (pos_part l) (length items) else length items
          ])
          items
unfolding apply_limit
limit_read-take items none = sym (take-length items)
limit_read-take items (some l) = ground (arith, take-length items)

cut_by_limit :
    (items : List Item) (s : Text)
    → (if is_empty s then items else limit_read items (sscanf_d s))
      ≡ take (allowed s (length items)) items
cut_by_limit items [] = sym (take-length items)
cut_by_limit items (c ∷ s) = limit_read-take items (sscanf_d (c ∷ s))

window_step :
    (now : Time) (items : List Item) (s : Text)
    → (if is_empty s then items else window now items (sscanf_d s))
      ≡ keep_if (λ item. is_empty s || in_window now (sscanf_d s) item) items
window_step now items [] = sym (keep_if-true items)
window_step now items (c ∷ s) = window-keep_if now items (sscanf_d (c ∷ s))

named-ok :
    {A : Type 0} (what pattern : Text) (r : Result A) (a : A)
    → named what pattern r ≡ ok a
    → r ≡ ok a
named-ok what pattern (ok b) a h = h
named-ok what pattern (err e) a h = absurd (cc)

descending_is_newer : (a b : Item) → pub_date_less true a b ≡ newer a b
unfolding pub_date_less newer
descending_is_newer a b = refl

-- The sort, if it is asked for.
sorted_if :
    (sort : (Item → Item → Bool) → List Item → List Item) (asked : Bool) (c want : List Item)
    → IsSort sort
    → c ≡ want
    → Permᴰ (if asked then sort newer c else c) want
      × (asked ≡ true → IsOrdered newer (if asked then sort newer c else c))
      × (asked ≡ false → (if asked then sort newer c else c) ≡ want)
sorted_if sort true c want sorts e = (
  subst (Permᴰ (sort newer c)) e (sorts.permutes newer c),
  λ _. sorts.orders newer c newer-StrictWeak,
  λ h. cc,
)
sorted_if sort false c want sorts e = (subst (Permᴰ c) e (Permᴰ.refl c), λ h. cc, λ _. e)

module _ (compile : Text → Result Regexp) (now : Time) (query : Text → Text) where
  -- The item is in the window, matches `filter` where it is given, and does not match `filterout`.
  unfoldable pub wanted : Item → Bool
  wanted item =
      let s = query (codes "filter_time") in
      let f = query (codes "filter") in
      let g = query (codes "filterout") in
      (is_empty s || in_window now (sscanf_d s) item)
      && ((is_empty f || matches (compile_regex compile f false) item)
          && not (not (is_empty g) && matches (compile_regex compile g false) item))

  module _ (quote : Text → Text) where
    include-ok :
        (items out : List Item) (s : Text)
        → include compile quote items s ≡ ok out
        → out ≡ keep_if (λ item. is_empty s || matches (compile_regex compile s false) item) items
    unfolding filter_items
    include-ok items out [] h =
        let e : items ≡ out = ground (arith, h) in sym e ∙ sym (keep_if-true items)
    include-ok items out (c ∷ s) h =
        let (re, compiled, kept) =
          >>=-eq-ok (compile_regex compile (c ∷ s) false) _
            (named-ok (codes "filter") (quote (c ∷ s)) _ out h) in
        rw compiled (sym (ok_injective kept))

    exclude-ok :
        (items out : List Item) (s : Text)
        → exclude compile quote items s ≡ ok out
        → out
          ≡ keep_if
              (λ item. not (not (is_empty s) && matches (compile_regex compile s false) item))
              items
    unfolding filter_out_items
    exclude-ok items out [] h =
        let e : items ≡ out = ground (arith, h) in sym e ∙ sym (keep_if-true items)
    exclude-ok items out (c ∷ s) h =
        let (re, compiled, kept) =
          >>=-eq-ok (compile_regex compile (c ∷ s) false) _
            (named-ok (codes "filterout") (quote (c ∷ s)) _ out h) in
        rw compiled (sym (ok_injective kept))

    -- Before the sort and the limit: the items wanted, in their order.
    selected-ok :
        (items b c : List Item)
        → include compile quote
            (if is_empty (query (codes "filter_time"))
              then items
              else window now items (sscanf_d (query (codes "filter_time"))))
            (query (codes "filter"))
          ≡ ok b
        → exclude compile quote b (query (codes "filterout")) ≡ ok c
        → c ≡ keep_if wanted items
    unfolding wanted
    selected-ok items b c h k =
        exclude-ok b c (query (codes "filterout")) k
        ∙ ap (keep_if _) (
            include-ok _ b (query (codes "filter")) h
            ∙ ap (keep_if _) (window_step now items (query (codes "filter_time"))))
        ∙ keep_if-keep_if _ _ (keep_if _ items)
        ∙ keep_if-keep_if _ _ items

    -- Without an error, the result is the first items, as many as `limit` allows, of a permutation of
    -- the items wanted: sorted, later dates first, unless `sorted` says otherwise, and in their own
    -- order then.
    pub apply_parameters-wanted :
        (sort : (Item → Item → Bool) → List Item → List Item) (items out : List Item)
        → IsSort sort
        → apply_parameters sort compile quote now items query ≡ ok out
        → (chosen : List Item) × Permᴰ chosen (keep_if wanted items)
          × (wants_sorted (query (codes "sorted")) ≡ true → IsOrdered newer chosen)
          × (wants_sorted (query (codes "sorted")) ≡ false → chosen ≡ keep_if wanted items)
          × (out ≡ take (allowed (query (codes "limit")) (length chosen)) chosen)
    unfolding apply_parameters sort_by_pub_date wants_sorted pub_date_less newer
    apply_parameters-wanted sort items out sorts h =
        let (b, included, h') = >>=-eq-ok (include compile quote _ (query (codes "filter"))) _ h in
        let (c, excluded, h'') =
          >>=-eq-ok (exclude compile quote b (query (codes "filterout"))) _ h' in
        let chosen = sorted sort c (query (codes "sorted")) in
        let same = selected-ok items b c included excluded in
        let (a, o, u) =
          sorted_if sort (wants_sorted (query (codes "sorted"))) c (keep_if wanted items) sorts
            same in
        let cut = sym (ok_injective h'') ∙ cut_by_limit chosen (query (codes "limit")) in
        (chosen, a, o, u, cut)
