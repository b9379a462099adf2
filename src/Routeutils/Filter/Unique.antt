-- ===== src/Routeutils/Filter/Unique.antt =====
-- The removal of duplicates in internal/routeutils/filter.go, and its comparison of dates.
use syndi.Common.{
  ◌≡◌, refl, sym, ap, ◌∙◌, ◌&&◌, text_eq→≡, keep_if-keep_if, keep_if-true, keep_if-members, pos,
  none, Bool, true, false, not, List, [], ◌∷◌, Text, text_eq, text_eq_refl, arith, any, All,
  All-imp, keep_if, Bool-cases, inl, inr,
}
use syndi.Golang.Sorting.{StrictWeak}
use syndi.Models.{Item}
use syndi.Routeutils.Filter.{unique_loop, unique_by, pub_date_less}

abbrev undated : Item
undated = record {
  title = [];
  description = [];
  link = [];
  pub_date = pos 0;
  guid = [];
  author = none;
  updated = none;
  categories = [];
}

All-keep_if :
    (P : Item → Type 0) (p : Item → Bool) (xs : List Item) → All P xs → All P (keep_if p xs)
All-keep_if P p [] h = tt
All-keep_if P p (x ∷ xs) (q, h) = elim (Bool-cases (p x)) [
  | inl e ↦ rw e (q, All-keep_if P p xs h)
  | inr e ↦ rw e (All-keep_if P p xs h)
]

-- The keys differ from each other.
abbrev pub IsUnique : (Item → Text) → List Item → Type 0
IsUnique key_fn [] = Unit
IsUnique key_fn (x ∷ xs) = All (λ y. text_eq (key_fn y) (key_fn x) ≡ false) xs × IsUnique key_fn xs

-- The first items of each key: a later item with the key of `x` goes.
abbrev pub first_of_each : (Item → Text) → List Item → List Item
first_of_each key_fn [] = []
first_of_each key_fn (x ∷ xs) =
    x ∷ keep_if (λ y. not (text_eq (key_fn y) (key_fn x))) (first_of_each key_fn xs)

abbrev unseen : (Item → Text) → List Text → Item → Bool
unseen key_fn seen y = not (any (text_eq (key_fn y)) seen)

keep_if-ext :
    (p q : Item → Bool) (xs : List Item) → ((x : Item) → p x ≡ q x) → keep_if p xs ≡ keep_if q xs
keep_if-ext p q [] h = refl
keep_if-ext p q (x ∷ xs) h = ground (arith, h x, keep_if-ext p q xs h)

-- A key that was seen rules the items of that key out.
seen_rules_out :
    (key_fn : Item → Text) (seen : List Text) (x y : Item)
    → any (text_eq (key_fn x)) seen ≡ true
    → (not (text_eq (key_fn y) (key_fn x)) && unseen key_fn seen y) ≡ unseen key_fn seen y
seen_rules_out key_fn seen x y h = elim (Bool-cases (text_eq (key_fn y) (key_fn x))) [
  | inl same ↦ rw (text_eq→≡ (key_fn y) (key_fn x) same, h, text_eq_refl)
  | inr other ↦ rw other
]

unique_loop-keep_if :
    (key_fn : Item → Text) (seen : List Text) (items : List Item)
    → unique_loop key_fn seen items ≡ keep_if (unseen key_fn seen) (first_of_each key_fn items)
unfolding unique_loop
unique_loop-keep_if key_fn seen [] = refl
unique_loop-keep_if key_fn seen (x ∷ xs) =
    let firsts = first_of_each key_fn xs in
    let differs : Item → Bool = λ y. not (text_eq (key_fn y) (key_fn x)) in
    elim (Bool-cases (any (text_eq (key_fn x)) seen)) [
      | inl old ↦
          rw (old, unique_loop)
            (unique_loop-keep_if key_fn seen xs
              ∙ sym (
                  keep_if-keep_if (unseen key_fn seen) differs firsts
                  ∙ keep_if-ext _ (unseen key_fn seen) firsts
                      (λ y. seen_rules_out key_fn seen x y old)))
      | inr fresh ↦
          rw (fresh, unique_loop)
            (ap (◌∷◌ x) (
              unique_loop-keep_if key_fn (key_fn x ∷ seen) xs
              ∙ sym (
                  keep_if-keep_if (unseen key_fn seen) differs firsts
                  ∙ keep_if-ext _ (unseen key_fn (key_fn x ∷ seen)) firsts (λ y. ground arith))))
    ]

IsUnique-keep_if :
    (key_fn : Item → Text) (p : Item → Bool) (xs : List Item)
    → IsUnique key_fn xs
    → IsUnique key_fn (keep_if p xs)
IsUnique-keep_if key_fn p [] h = tt
IsUnique-keep_if key_fn p (x ∷ xs) (apart, h) = elim (Bool-cases (p x)) [
  | inl e ↦ rw e (All-keep_if _ p xs apart, IsUnique-keep_if key_fn p xs h)
  | inr e ↦ rw e (IsUnique-keep_if key_fn p xs h)
]

first_of_each-IsUnique :
    (key_fn : Item → Text) (xs : List Item) → IsUnique key_fn (first_of_each key_fn xs)
first_of_each-IsUnique key_fn [] = tt
first_of_each-IsUnique key_fn (x ∷ xs) =
    let differs : Item → Bool = λ y. not (text_eq (key_fn y) (key_fn x)) in
    (
      All-imp (λ y h. ground (arith, h)) _ (keep_if-members differs (first_of_each key_fn xs)),
      IsUnique-keep_if key_fn differs (first_of_each key_fn xs) (first_of_each-IsUnique key_fn xs),
    )

-- What is kept is the first item of each key, in order, and no key is kept twice.
pub unique_by-first_of_each :
    (key_fn : Item → Text) (items : List Item)
    → (unique_by items key_fn ≡ first_of_each key_fn items)
      × IsUnique key_fn (unique_by items key_fn)
unfolding unique_by
unique_by-first_of_each key_fn items =
    let e : unique_loop key_fn [] items ≡ first_of_each key_fn items =
      unique_loop-keep_if key_fn [] items ∙ keep_if-true (first_of_each key_fn items) in
    (e, rw e (first_of_each-IsUnique key_fn items))

-- The comparison of dates in ascending order is no strict weak order, since an item without a date
-- is less than itself; sort.Slice promises nothing about such an order.
pub ascending-StrictWeak : ¬ StrictWeak (pub_date_less false)
unfolding pub_date_less
ascending-StrictWeak order = absurd (cc (order.irrefl undated))
