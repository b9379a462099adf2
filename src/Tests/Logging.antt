-- ===== src/Tests/Logging.antt =====
-- Log entries of pkg/logger/kdl_encoder.go.
use syndi.Common.{◌≡◌, refl, true, List, [], ◌∷◌, ◌++◌, none, some, arith, Text, codes, pos}
use syndi.Common.Maps
use syndi.Golang.Strings.{replace_char}
use syndi.Golang.Numbers.{decimal}
use syndi.Logger.Kdl.{
  Encoder, Entry, Field, int, escape_kdl_string, encode_stored, encode_entry, encode_props,
  encode_field_to_kdl, encode_fields, has_props,
}
use syndi.Logger.Kdl.Quoted.{
  read_properties, have_bare_keys, is_bare, read_properties-encode_stored,
}
use syndi.Logger.Kdl.Nested.{
  append, end_array, uint, add_array, marshal_log_array, add_array-ambiguous,
}

abbrev stored : Encoder
stored = (codes "route", codes "/a\"b") ∷ (codes "note", codes "two\nlines\\") ∷ []

abbrev entry : Entry
entry = record {
  level = codes "info";
  message = codes "say \"hi\"";
  time = none;
  logger_name = [];
  caller = some (codes "main.go", 12);
  stack = [];
}

abbrev unordered : List (Text × Text) → List (Text × Text)
unordered fields = fields

abbrev field : Field
field = record { key = codes "n"; value = int (pos 120) }

escape_test : escape_kdl_string (codes "a\"\\\n") ≡ codes "a\\\"\\\\\\n"
unfolding escape_kdl_string replace_char
escape_test = refl

encode_test :
    encode_entry unordered [] entry (field ∷ [])
    ≡ codes "info \"say \\\"hi\\\"\" {\n    file=\"main.go:12\"\n    n=120\n}\n"
unfolding encode_entry encode_props encode_field_to_kdl escape_kdl_string has_props replace_char
    decimal encode_stored encode_fields
encode_test = refl

array_test :
    add_array (λ s. s) (codes "k") (append (uint 1) (append (uint 2) end_array)) []
    ≡ (codes "k", codes "[12]") ∷ []
unfolding add_array Maps.insert marshal_log_array decimal
array_test = refl

stored-bare : have_bare_keys stored ≡ true
unfolding have_bare_keys is_bare
stored-bare = refl

read_properties-encode_stored_example :
    read_properties 2 (encode_stored stored ++ codes "}") ≡ some (stored, codes "}")
read_properties-encode_stored_example = read_properties-encode_stored stored (codes "}") stored-bare

add_array-ambiguous_example :
    add_array (λ s. s) (codes "k") (append (uint 1) (append (uint 2) end_array)) []
    ≡ add_array (λ s. s) (codes "k") (append (uint 12) end_array) []
add_array-ambiguous_example =
    add_array-ambiguous (λ s. s) (codes "k") 1 2 [] (omega arith) (omega arith)
