-- ===== src/Logger/Kdl.antt =====
-- pkg/logger/kdl_encoder.go: log entries as KDL nodes. Floating-point numbers, times, durations
-- and other Go values come as the texts that packages fmt and time print; `order` is the order in which
-- a range over the map of fields meets them.
pub mod Quoted
pub mod Nested
use syndi.Common.{
  ℕ, Bool, true, false, ◌||◌, List, [], ◌∷◌, ◌++◌, Option, none, some, Text, codes, is_empty, ℤ,
  pos, negsuc, ◌==◌, if◌then◌else◌,
}
use syndi.Common.Maps
use syndi.Golang.Strings.{replace_char}
use syndi.Golang.Numbers.{decimal, uint64_of}

unfoldable pub escape_kdl_string : Text → Text
escape_kdl_string s =
    let s = replace_char b'\\' (codes "\\\\") s in
    let s = replace_char b'"' (codes "\\\"") s in
    let s = replace_char b'\n' (codes "\\n") s in
    let s = replace_char b'\r' (codes "\\r") s in replace_char b'\t' (codes "\\t") s

-- A zap field by its type, with its `Integer` or what its `Interface` prints as; what is nil, or of another type than it should be, is `none`.
pub data FieldValue : Type 0 where
  string : Text → FieldValue
  bool : ℤ → FieldValue
  int : ℤ → FieldValue
  uint : ℤ → FieldValue
  float : Text → FieldValue
  stringer : Option Text → FieldValue
  error : Option Text → FieldValue
  duration : Text → FieldValue
  time : Option Text → FieldValue
  reflected : Option Text → FieldValue
  other : Text → FieldValue

pub record Field : Type 0 where
  pub key : Text
  pub value : FieldValue

abbrev pub quoted : Text → Text
quoted s = b'"' ∷ s ++ b'"' ∷ []

abbrev pub or_nothing : Option Text → Text
or_nothing none = []
or_nothing (some s) = quoted (escape_kdl_string s)

abbrev pub or_null : Option Text → Text
or_null none = codes "null"
or_null (some s) = s

abbrev pub quote_option : Option Text → Option Text
quote_option none = none
quote_option (some s) = some (quoted s)

abbrev pub escape_option : Option Text → Option Text
escape_option none = none
escape_option (some s) = some (quoted (escape_kdl_string s))

abbrev pub value_to_kdl : FieldValue → Text
value_to_kdl (string s) = quoted (escape_kdl_string s)
value_to_kdl (bool (pos n)) = if n == 1 then codes "true" else codes "false"
value_to_kdl (bool (negsuc n)) = codes "false"
value_to_kdl (int n) = decimal n
value_to_kdl (uint n) = decimal (pos (uint64_of n))
value_to_kdl (float s) = s
value_to_kdl (stringer s) = or_nothing s
value_to_kdl (error s) = or_nothing s
value_to_kdl (duration s) = quoted s
value_to_kdl (time s) = or_null (quote_option s)
value_to_kdl (reflected s) = or_null (escape_option s)
value_to_kdl (other s) = quoted (escape_kdl_string s)

unfoldable pub encode_field_to_kdl : Field → Text
encode_field_to_kdl f = codes "    " ++ (f.key ++ (b'=' ∷ value_to_kdl f.value ++ b'\n' ∷ []))

unfoldable pub encode_fields : List Field → Text
encode_fields [] = []
encode_fields (f ∷ fs) = encode_field_to_kdl f ++ encode_fields fs

-- The entry of a log: its time as RFC 3339 unless it is zero, its caller as file and line if it has
-- one.
pub record Entry : Type 0 where
  pub level : Text
  pub message : Text
  pub time : Option Text
  pub logger_name : Text
  pub caller : Option (Text × ℕ)
  pub stack : Text

-- The fields that With has stored.
abbrev pub Encoder : Type 0
Encoder = List (Text × Text)

abbrev pub new_kdl_encoder : Encoder
new_kdl_encoder = []

-- `AddString`, and the other Add methods after they have printed their value.
abbrev pub add_string : Text → Text → Encoder → Encoder
add_string key value e = Maps.insert key value e

abbrev pub add_bool : Text → Bool → Encoder → Encoder
add_bool key value e = add_string key (if value then codes "true" else codes "false") e

abbrev pub add_int : Text → ℤ → Encoder → Encoder
add_int key value e = add_string key (decimal value) e

abbrev pub property : Text → Text → Text
property name value =
    codes "    " ++ (name ++ (codes "=\"" ++ (escape_kdl_string value ++ codes "\"\n")))

unfoldable pub encode_stored : List (Text × Text) → Text
encode_stored [] = []
encode_stored ((key, value) ∷ fields) = property key value ++ encode_stored fields

abbrev pub is_given : {A : Type 0} → Option A → Bool
is_given none = false
is_given (some a) = true

abbrev pub has_fields : List Field → Bool
has_fields [] = false
has_fields (f ∷ fs) = true

unfoldable pub has_props : Entry → List Field → Bool
has_props entry fields =
    is_given entry.time
    || (if is_empty entry.logger_name then false else true)
    || is_given entry.caller
    || (if is_empty entry.stack then false else true)
    || has_fields fields

abbrev pub time_line : Option Text → Text
time_line none = []
time_line (some t) = codes "    timestamp=\"" ++ (t ++ codes "\"\n")

abbrev pub caller_line : Option (Text × ℕ) → Text
caller_line none = []
caller_line (some (file, line)) =
    codes "    file=\"" ++ (file ++ (b':' ∷ decimal (pos line) ++ codes "\"\n"))

abbrev pub property_unless_empty : Text → Text → Text
property_unless_empty name value = if is_empty value then [] else property name value

module _ (order : List (Text × Text) → List (Text × Text)) where
  unfoldable pub encode_props : Encoder → Entry → List Field → Text
  encode_props e entry fields =
      codes " {\n"
      ++ (time_line entry.time
          ++ (property_unless_empty (codes "logger") entry.logger_name
              ++ (caller_line entry.caller
                  ++ (property_unless_empty (codes "stack") entry.stack
                      ++ (encode_stored (order e) ++ (encode_fields fields ++ codes "}"))))))

  unfoldable pub encode_entry : Encoder → Entry → List Field → Text
  encode_entry e entry fields =
      entry.level
      ++ (codes " \""
          ++ (escape_kdl_string entry.message
              ++ (b'"' ∷ (if has_props entry fields then encode_props e entry fields else [])
                  ++ codes "\n")))
