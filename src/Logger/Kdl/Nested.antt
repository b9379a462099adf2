-- ===== src/Logger/Kdl/Nested.antt =====
-- kdlArrayEncoder, kdlObjectEncoder, AddArray and AddObject of pkg/logger/kdl_encoder.go. A
-- marshaler is the list of the calls it makes on the encoder; `quote` is fmt's `%q`, and what fmt and
-- time print of other values comes as a text.
use syndi.Common.{
  ℕ, zero, ◌+◌, ◌*◌, ◌<◌, Bool, [], ◌∷◌, ◌++◌, Text, codes, ℤ, pos, ◌≡◌, refl, if◌then◌else◌,
}
use syndi.Golang.Numbers.{decimal}
use syndi.Golang.Numbers.Digits.{decimal-snoc}
use mathlib.Core.List.{append-nil}
use syndi.Logger.Kdl.{Encoder, add_string}

mutual
  -- A value of an array or an object: `printed` is what `%v`, `%f`, `%x` or `%s` prints.
  pub data Element : Type 0 where
    array : Elements → Element
    object : Members → Element
    bool : Bool → Element
    int : ℤ → Element
    uint : ℕ → Element
    printed : Text → Element
    string : Text → Element
    time : Text → Element

  pub data Elements : Type 0 where
    end_array : Elements
    append : Element → Elements → Elements

  pub data Members : Type 0 where
    end_object : Members
    add : Text → Element → Members → Members

module _ (quote : Text → Text) where
  unfoldable mutual
    pub element_text : Element → Text
    element_text (array es) = b'[' ∷ marshal_log_array es ++ b']' ∷ []
    element_text (object ms) = b'{' ∷ marshal_log_object ms ++ b'}' ∷ []
    element_text (bool b) = if b then codes "true" else codes "false"
    element_text (int n) = decimal n
    element_text (uint n) = decimal (pos n)
    element_text (printed s) = s
    element_text (string s) = quote s
    element_text (time s) = quote s

    pub marshal_log_array : Elements → Text
    marshal_log_array end_array = []
    marshal_log_array (append v es) = element_text v ++ marshal_log_array es

    pub marshal_log_object : Members → Text
    marshal_log_object end_object = []
    marshal_log_object (add key v ms) = key ++ (b'=' ∷ element_text v ++ marshal_log_object ms)

  unfoldable pub add_array : Text → Elements → Encoder → Encoder
  add_array key es e = add_string key (b'[' ∷ marshal_log_array es ++ b']' ∷ []) e

  unfoldable pub add_object : Text → Members → Encoder → Encoder
  add_object key ms e = add_string key (b'{' ∷ marshal_log_object ms ++ b'}' ∷ []) e

  -- An array of a positive number and a digit is stored as the array of the one number that is
  -- written as the digits of both.
  pub add_array-ambiguous :
      (key : Text) (n d : ℕ) (e : Encoder)
      → zero < n
      → d < 10
      → add_array key (append (uint n) (append (uint d) end_array)) e
        ≡ add_array key (append (uint (n * 10 + d)) end_array) e
  unfolding add_array element_text
  add_array-ambiguous key n d e p q =
      rw
        (
          decimal-snoc n d p q,
          append-nil (decimal (pos d)),
          append-nil (decimal (pos n) ++ decimal (pos d)),
        )
        refl
