-- ===== src/Cache/Lru.antt =====
-- The documented behaviour of hashicorp/golang-lru, on which pkg/cache/cache.go stands: a bounded
-- map that may drop any other entry when one is added. `peek` is what it holds.
use syndi.Common.{
  ℕ, ◌≡◌, refl, ◌⊎◌, inl, false, List, [], ◌∷◌, Option, none, some, arith, Text, text_eq,
  text_eq_iff, length, if◌then◌else◌,
}

pub record Lru (V : Type 0) : Type 1 where
  pub State : Type 0
  pub create : ℕ → State
  pub get : Text → State → Option V × State
  pub add : Text → V → State → State
  pub remove : Text → State → State
  pub purge : State → State
  pub count : State → ℕ
  pub peek : Text → State → Option V
  pub peek-create : (n : ℕ) (k : Text) → peek k (create n) ≡ none
  pub get-peek : (k : Text) (s : State) → (get k s).0 ≡ peek k s
  pub peek-get : (j k : Text) (s : State) → peek j (get k s).1 ≡ peek j s
  pub peek-add_self : (k : Text) (v : V) (s : State) → peek k (add k v s) ≡ some v
  pub peek-add_ne :
      (j k : Text) (v : V) (s : State)
      → text_eq k j ≡ false
      → (peek j (add k v s) ≡ peek j s) ⊎ (peek j (add k v s) ≡ none)
  pub peek-remove :
      (j k : Text) (s : State) → peek j (remove k s) ≡ (if text_eq k j then none else peek j s)
  pub peek-purge : (k : Text) (s : State) → peek k (purge s) ≡ none

-- An association list meets it: a cache that is never full.
module _ {V : Type 0} where
  abbrev pub find_key : Text → List (Text × V) → Option V
  find_key k [] = none
  find_key k ((j, v) ∷ m) = let later = find_key k m in if text_eq j k then some v else later

  abbrev pub drop_key : Text → List (Text × V) → List (Text × V)
  drop_key k [] = []
  drop_key k ((j, v) ∷ m) = let rest = drop_key k m in if text_eq k j then rest else (j, v) ∷ rest

  pub find_key-drop_key :
      (j k : Text) (m : List (Text × V))
      → find_key j (drop_key k m) ≡ (if text_eq k j then none else find_key j m)
  find_key-drop_key j k [] = ground arith
  find_key-drop_key j k ((i, v) ∷ m) =
      ground (arith, find_key-drop_key j k m, text_eq_iff k i, text_eq_iff i j, text_eq_iff k j)

  pub find_key_self : (k : Text) (v : V) (m : List (Text × V)) → find_key k ((k, v) ∷ m) ≡ some v
  find_key_self k v m = ground (arith, text_eq_iff k k)

  pub find_key-other :
      (j k : Text) (v : V) (m : List (Text × V))
      → text_eq k j ≡ false
      → find_key j ((k, v) ∷ drop_key k m) ≡ find_key j m
  find_key-other j k v m h = ground (arith, find_key-drop_key j k m)

-- The association list as such a map.
abbrev pub list_lru : (V : Type 0) → Lru V
list_lru V = record {
  State = List (Text × V);
  create = λ n. [];
  get = λ k m. (find_key k m, m);
  add = λ k v m. (k, v) ∷ drop_key k m;
  remove = drop_key;
  purge = λ m. [];
  count = length;
  peek = find_key;
  peek-create = λ n k. refl;
  get-peek = λ k m. refl;
  peek-get = λ j k m. refl;
  peek-add_self = λ k v m. find_key_self k v (drop_key k m);
  peek-add_ne = λ j k v m h. inl (find_key-other j k v m h);
  peek-remove = find_key-drop_key;
  peek-purge = λ k m. refl;
}
