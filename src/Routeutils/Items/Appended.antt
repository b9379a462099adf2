-- ===== src/Routeutils/Items/Appended.antt =====
-- What `AppendMappedItems` and `AddItems` (internal/routeutils) leave in a feed.
use mathlib.Core.List.{append_assoc, append-nil}
use syndi.Common.{
  ℕ, zero, suc, ◌-◌, ◌<◌, ◌≤◌, ◌≡◌, refl, sym, ap, ◌∙◌, true, false, ◌&&◌, List, [], ◌∷◌, ◌++◌, map,
  Option, none, some, arith, ℤ, pos, pos_part, ltb_ℤ, leb, length, length-append, take, Bool-cases,
  Option-cases, inl, inr, if◌then◌else◌,
}
use syndi.Models.{Feed, Item}
use syndi.Routeutils.Items.{
  apply_item_defaults, with_item, add_loop, add_items, append_loop, append_mapped_items,
}

-- The items that are not nil.
abbrev pub present : List (Option Item) → List Item
present [] = []
present (none ∷ items) = present items
present (some item ∷ items) = item ∷ present items

-- What fits into a feed that has `used` items: everything, without a positive limit.
abbrev pub fitting : ℤ → ℕ → List Item → List Item
fitting limit used items = if ltb_ℤ (pos 0) limit then take (pos_part limit - used) items else items

take_step :
    (n used : ℕ) (x : Item) (xs : List Item)
    → used < n
    → take (n - used) (x ∷ xs) ≡ x ∷ take (n - suc used) xs
take_step n used x xs h = let e : n - used ≡ suc (n - suc used) = omega arith in rw e

take_none : (n used : ℕ) (xs : List Item) → n ≤ used → take (n - used) xs ≡ []
take_none n used xs h = let e : n - used ≡ 0 = omega arith in rw e

take-nil : (n : ℕ) → take {A = Item} n [] ≡ []
take-nil zero = refl
take-nil (suc n) = refl

fitting-nil : (limit : ℤ) (used : ℕ) → fitting limit used [] ≡ []
fitting-nil limit used = ground (arith, take-nil (pos_part limit - used))

length_snoc : (items : List Item) (x : Item) → length (items ++ x ∷ []) ≡ suc (length items)
length_snoc items x = ground (arith, length-append items (x ∷ []))

fitting-cons :
    (limit : ℤ) (items : List Item) (x : Item) (xs : List Item)
    → ltb_ℤ (pos 0) limit && leb (pos_part limit) (length items) ≡ false
    → fitting limit (length items) (x ∷ xs) ≡ x ∷ fitting limit (length (items ++ x ∷ [])) xs
fitting-cons limit items x xs h =
    ground (arith, h, length_snoc items x, take_step (pos_part limit) (length items) x xs)

fitting-full :
    (limit : ℤ) (used : ℕ) (xs : List Item)
    → ltb_ℤ (pos 0) limit && leb (pos_part limit) used ≡ true
    → fitting limit used xs ≡ []
fitting-full limit used xs h = ground (arith, h, take_none (pos_part limit) used xs)

module _ {T : Type 0} where
  -- The items of the values that the mapper does not drop, with their defaults.
  abbrev pub mapped : (T → Option Item) → List T → List Item
  mapped mapper source = map apply_item_defaults (present (map mapper source))

  -- The outcome of the loop on `source`.
  abbrev Fits : ℤ → (T → Option Item) → List Item → List T → Type 0
  Fits limit mapper items source =
      let added = fitting limit (length items) (mapped mapper source) in
      ((append_loop limit mapper items source).1 ≡ items ++ added)
      × ((append_loop limit mapper items source).0 ≡ length added)

  full :
      (limit : ℤ) (mapper : T → Option Item) (items : List Item) (value : T) (source : List T)
      → ltb_ℤ (pos 0) limit && leb (pos_part limit) (length items) ≡ true
      → Fits limit mapper items (value ∷ source)
  unfolding append_loop
  full limit mapper items value source h =
      rw (h, append_loop, fitting-full limit (length items) _ h) (sym (append-nil items), refl)

  append_loop-Fits :
      (limit : ℤ) (mapper : T → Option Item) (source : List T) (items : List Item)
      → Fits limit mapper items source
  unfolding append_loop
  append_loop-Fits limit mapper [] items =
      let none_left = fitting-nil limit (length items) in
      (sym (ap (λ a. items ++ a) none_left ∙ append-nil items), sym (ap length none_left))
  append_loop-Fits limit mapper (value ∷ source) items =
      elim (Bool-cases (ltb_ℤ (pos 0) limit && leb (pos_part limit) (length items))) [
        | inl stop ↦ full limit mapper items value source stop
        | inr free ↦ elim (Option-cases (mapper value)) [
          | inl dropped ↦
              rw (free, dropped, append_loop) (append_loop-Fits limit mapper source items)
          | inr (item, kept) ↦
              let x = apply_item_defaults item in
              let rest = append_loop-Fits limit mapper source (items ++ x ∷ []) in
              let more = fitting-cons limit items x (mapped mapper source) free in
              rw (free, kept, append_loop)
                (
                  rest.0 ∙ append_assoc items (x ∷ []) _ ∙ ap (λ a. items ++ a) (sym more),
                  ap suc rest.1 ∙ ap length (sym more),
                )
        ]
      ]

  -- The feed keeps its items and gets those of the values that the mapper does not drop, with their
  -- defaults, in order, as far as they fit under a positive limit; the number returned is theirs.
  pub append_mapped_items-fitting :
      (feed : Feed) (source : List T) (limit : ℤ) (mapper : T → Option Item)
      → append_mapped_items (some feed) source limit (some mapper) ≡ (
        length (fitting limit (length feed.items) (mapped mapper source)),
        some (record feed {
          items = feed.items ++ fitting limit (length feed.items) (mapped mapper source);
        }),
      )
  unfolding append_mapped_items
  append_mapped_items-fitting feed source limit mapper =
      let e = append_loop-Fits limit mapper source feed.items in rw (e.0, e.1)

add_loop-items :
    (feed : Feed) (items : List (Option Item))
    → add_loop feed items
      ≡ record feed { items = feed.items ++ map apply_item_defaults (present items) }
unfolding add_loop
add_loop-items feed [] = rw (append-nil feed.items)
add_loop-items feed (none ∷ items) = add_loop-items feed items
add_loop-items feed (some item ∷ items) = rw (
  add_loop-items (with_item feed item) items,
  append_assoc feed.items (apply_item_defaults item ∷ []) (map apply_item_defaults (present items)),
)

-- `AddItems` appends every item that is not nil, in order, with its defaults, and changes nothing
-- else of the feed.
pub add_items-present :
    (feed : Feed) (items : List (Option Item))
    → add_items (some feed) items
      ≡ some (record feed { items = feed.items ++ map apply_item_defaults (present items) })
unfolding add_items
add_items-present feed items = ap some (add_loop-items feed items)
