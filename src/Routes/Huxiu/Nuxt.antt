-- ===== src/Routes/Huxiu/Nuxt.antt =====
-- routes/huxiu/nuxt.go: documents whose numbers are references to entries of an array. The array is
-- decoded by encoding/json.
pub mod Resolved
pub mod Sound
pub mod Negative
use syndi.Common.{
  ℕ, zero, suc, ◌+◌, ◌-◌, ◌^◌, Bool, true, false, ◌&&◌, ◌||◌, not, List, [], ◌∷◌, ◌++◌, any, Option,
  none, some, Text, codes, is_empty, text_eq, length, get_elem?, ℤ, pos, negsuc, ltb_ℤ, eq_ℤ,
  if◌then◌else◌,
}
use syndi.Golang.Numbers.{decimal}
use syndi.Golang.Strings.{has_prefix, trim_func}

-- A float64, by its integer part and by the text that json.Marshal writes for it.
pub record Number : Type 0 where
  pub whole : ℤ
  pub json : Text

-- The conversion int(num) as it is on amd64: a number outside the range of an int64 becomes the least
-- one. The language leaves the conversion of such a number to the implementation.
unfoldable pub int_of : Number → ℤ
int_of num =
    if ltb_ℤ num.whole (pos (2 ^ 63)) && not (ltb_ℤ num.whole (negsuc (2 ^ 63 - 1)))
    then num.whole
    else negsuc (2 ^ 63 - 1)

-- A decoded value. An object's fields stand in the order in which a range visits them.
mutual
  pub data Json : Type 0 where
    null : Json
    bool : Bool → Json
    number : Number → Json
    string : Text → Json
    array : Items → Json
    object : Fields → Json

  pub data Items : Type 0 where
    nil : Items
    cons : Json → Items → Items

  pub data Fields : Type 0 where
    end : Fields
    field : Text → Json → Fields → Fields

-- A call returns, panics on an index that is out of range, or has used its fuel up.
pub data Resolution {ℓ} (X : Type ℓ) : Type ℓ where
  value : X → Resolution X
  panicked : Resolution X
  exhausted : Resolution X

infixl 5 ◌>>=◌
abbrev pub ◌>>=◌ {ℓ κ} :
    {X : Type ℓ} {Y : Type κ} → Resolution X → (X → Resolution Y) → Resolution Y
◌>>=◌ (value x) next = next x
◌>>=◌ panicked next = panicked
◌>>=◌ exhausted next = exhausted

-- n.arr[idx].
abbrev pub at : List Json → ℤ → Option Json
at arr (pos i) = get_elem? arr i
at arr (negsuc i) = none

abbrev pub of_entry : Option Json → Resolution Json
of_entry none = panicked
of_entry (some item) = value item

-- The test of a number in an array or an object: below the array's length.
abbrev pub is_reference : List Json → Number → Bool
is_reference arr num = ltb_ℤ (int_of num) (pos (length arr))

module _ (arr : List Json) (visit : ℤ → Resolution Json) where
  unfoldable pub resolve_value : Json → Resolution Json
  resolve_value (number num) = elim (is_reference arr num) [
    | true ↦ visit (int_of num)
    | false ↦ value (number num)
  ]
  resolve_value null = value null
  resolve_value (bool b) = value (bool b)
  resolve_value (string s) = value (string s)
  resolve_value (array items) = value (array items)
  resolve_value (object fields) = value (object fields)

  unfoldable pub resolve_items : Items → Resolution Items
  resolve_items nil = value nil
  resolve_items (cons val items) =
      resolve_value val >>= λ v. resolve_items items >>= λ vs. value (cons v vs)

  unfoldable pub resolve_fields : Fields → Resolution Fields
  resolve_fields end = value end
  resolve_fields (field k val fields) =
      resolve_value val >>= λ v. resolve_fields fields >>= λ vs. value (field k v vs)

-- What the tag of an array says of it.
pub data Tagged : Type 0 where
  reactive : ℤ → Tagged
  empty_set : Tagged
  plain : Tagged

unfoldable pub tag_of : Items → Tagged
tag_of (cons (string tag) rest) =
    if text_eq tag (codes "ShallowReactive") || text_eq tag (codes "Reactive")
    then (elim rest [ cons (number r) nil ↦ reactive (int_of r) | _ ↦ plain ])
    else if text_eq tag (codes "Set")
    then empty_set
    else plain
tag_of _ = plain

module _ (arr : List Json) (visit : ℤ → Resolution Json) where
  unfoldable pub resolve_item : Json → Resolution Json
  resolve_item (array items) = elim (tag_of items) [
    | reactive r ↦ visit r
    | empty_set ↦ value (array nil)
    | plain ↦ resolve_items arr visit items >>= λ out. value (array out)
  ]
  resolve_item (object fields) = resolve_fields arr visit fields >>= λ out. value (object out)
  resolve_item null = value null
  resolve_item (bool b) = value (bool b)
  resolve_item (number num) = value (number num)
  resolve_item (string s) = value (string s)

-- The copies of the visited indices are one list, since no call sees what its siblings add.
unfoldable pub resolve : List Json → ℕ → ℤ → List ℤ → Resolution Json
resolve arr zero idx visited = exhausted
resolve arr (suc fuel) idx visited = elim (any (eq_ℤ idx) visited) [
  | true ↦ of_entry (at arr idx)
  | false ↦ elim (at arr idx) [
    | none ↦ panicked
    | some item ↦ resolve_item arr (λ num. resolve arr fuel num (idx ∷ visited)) item
  ]
]
