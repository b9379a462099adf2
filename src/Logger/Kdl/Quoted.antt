-- ===== src/Logger/Kdl/Quoted.antt =====
-- The quoted strings of pkg/logger/kdl_encoder.go read back: `read_string` is a KDL reader of the
-- inside of a quoted string, up to its closing quote.
use mathlib.Core.List.{append_assoc}
use syndi.Common.{
  Bool, true, false, ◌&&◌, [], ◌∷◌, ◌++◌, not, Option, none, some, Text, codes, ◌==◌, if◌then◌else◌,
  ◌≡◌, refl, sym, arith, ℕ, zero, suc, List, length,
}
use syndi.Golang.Strings.{replace_char}
use syndi.Logger.Kdl.{
  escape_kdl_string, property, encode_stored, Encoder, Entry, Field, has_props, encode_props,
  encode_entry,
}

infixl 5 ◌>>=◌
abbrev pub ◌>>=◌ {ℓ κ} : {A : Type ℓ} {B : Type κ} → Option A → (A → Option B) → Option B
◌>>=◌ none next = none
◌>>=◌ (some a) next = next a

-- What an escape stands for; `none` is no escape.
abbrev pub unescaped : ℕ → Option ℕ
unescaped c =
    if c == b'n'
    then some b'\n'
    else if c == b'r'
    then some b'\r'
    else if c == b't'
    then some b'\t'
    else if c == b'\\'
    then some b'\\'
    else if c == b'"'
    then some b'"'
    else none

abbrev pub cons_read : Option ℕ → Option (Text × Text) → Option (Text × Text)
cons_read none _ = none
cons_read (some c) none = none
cons_read (some c) (some (s, rest)) = some (c ∷ s, rest)

-- The string up to the first quote that is not escaped, and the text after that quote; a raw line
-- break is an error. The flag says that a backslash came before.
unfoldable pub read_from : Bool → Text → Option (Text × Text)
read_from escaped [] = none
read_from true (c ∷ s) = cons_read (unescaped c) (read_from false s)
read_from false (c ∷ s) =
    let after = read_from (c == b'\\') s in
    if c == b'"'
    then some ([], s)
    else if c == b'\\'
    then after
    else if c == b'\n'
    then none
    else cons_read (some c) after

abbrev pub read_string : Text → Option (Text × Text)
read_string = read_from false

-- One code point as it is escaped.
abbrev pub escape_char : ℕ → Text
escape_char c =
    if c == b'\\'
    then b'\\' ∷ b'\\' ∷ []
    else if c == b'"'
    then b'\\' ∷ b'"' ∷ []
    else if c == b'\n'
    then b'\\' ∷ b'n' ∷ []
    else if c == b'\r'
    then b'\\' ∷ b'r' ∷ []
    else if c == b'\t'
    then b'\\' ∷ b't' ∷ []
    else c ∷ []

escape_kdl_string-cons :
    (c : ℕ) (s : Text) → escape_kdl_string (c ∷ s) ≡ escape_char c ++ escape_kdl_string s
unfolding escape_kdl_string replace_char
escape_kdl_string-cons c s = ground arith

-- Reading takes the escape of one code point as that code point.
read_from-escape_char :
    (c : ℕ) (s : Text) → read_string (escape_char c ++ s) ≡ cons_read (some c) (read_string s)
unfolding read_from
read_from-escape_char c s = ground arith

-- A string of any code points, escaped and closed by a quote, is read back, and what comes after the
-- quote is left.
pub read_string-escape_kdl_string :
    (s rest : Text) → read_string (escape_kdl_string s ++ b'"' ∷ rest) ≡ some (s, rest)
unfolding escape_kdl_string replace_char read_from
read_string-escape_kdl_string [] rest = refl
read_string-escape_kdl_string (c ∷ s) rest =
    rw
      (
        escape_kdl_string-cons c s,
        append_assoc (escape_char c) (escape_kdl_string s) (b'"' ∷ rest),
        read_from-escape_char c (escape_kdl_string s ++ b'"' ∷ rest),
        read_string-escape_kdl_string s rest,
      )
      refl

-- A property line read back: four spaces, a key up to the first equals sign, a quoted string, and a
-- line break.
unfoldable pub strip : Text → Text → Option Text
strip [] s = some s
strip (c ∷ p) [] = none
strip (c ∷ p) (d ∷ s) = let rest = strip p s in if c == d then rest else none

unfoldable pub read_key : Text → Option (Text × Text)
read_key [] = none
read_key (c ∷ s) =
    let later = read_key s in if c == b'=' then some ([], s) else cons_read (some c) later

abbrev pub read_property : Text → Option ((Text × Text) × Text)
read_property s = do
  s ← strip (codes "    ") s
  (key, s) ← read_key s
  s ← strip (codes "\"") s
  (value, s) ← read_string s
  s ← strip (codes "\n") s
  some ((key, value), s)

-- The keys that do not break a line apart.
unfoldable pub is_bare : Text → Bool
is_bare [] = true
is_bare (c ∷ s) = not (c == b'=') && is_bare s

read_key-append : (key s : Text) → is_bare key ≡ true → read_key (key ++ b'=' ∷ s) ≡ some (key, s)
unfolding read_key is_bare
read_key-append [] s h = refl
read_key-append (c ∷ key) s h = ground (arith, read_key-append key s)

pub read_property-property :
    (key value rest : Text)
    → is_bare key ≡ true
    → read_property (property key value ++ rest) ≡ some ((key, value), rest)
unfolding strip
read_property-property key value rest h =
    rw
      (
        append_assoc key (codes "=\"" ++ (escape_kdl_string value ++ codes "\"\n")) rest,
        append_assoc (escape_kdl_string value) (codes "\"\n") rest,
        read_key-append key (b'"' ∷ (escape_kdl_string value ++ b'"' ∷ b'\n' ∷ rest)) h,
        read_string-escape_kdl_string value (b'\n' ∷ rest),
      )
      refl

-- The properties at the front of a text, at most as many as `fuel`.
unfoldable pub read_properties : ℕ → Text → Option (List (Text × Text) × Text)
read_properties zero s = some ([], s)
read_properties (suc fuel) s = do
  (field, s) ← read_property s
  (fields, s) ← read_properties fuel s
  some (field ∷ fields, s)

unfoldable pub have_bare_keys : Encoder → Bool
have_bare_keys [] = true
have_bare_keys ((key, value) ∷ fields) = is_bare key && have_bare_keys fields

-- The fields stored in the encoder, whatever their values, are read back from their lines in the
-- order in which they were written, if no key has an equals sign.
pub read_properties-encode_stored :
    (fields : Encoder) (rest : Text)
    → have_bare_keys fields ≡ true
    → read_properties (length fields) (encode_stored fields ++ rest) ≡ some (fields, rest)
unfolding read_properties encode_stored have_bare_keys
read_properties-encode_stored [] rest h = refl
read_properties-encode_stored ((key, value) ∷ fields) rest h =
    let bare : is_bare key ≡ true = ground arith in
    let others : have_bare_keys fields ≡ true = ground arith in
    rw
      (
        append_assoc (property key value) (encode_stored fields) rest,
        read_property-property key value (encode_stored fields ++ rest) bare,
        read_properties-encode_stored fields rest others,
      )
      refl

pub strip-append : (p s : Text) → strip p (p ++ s) ≡ some s
unfolding strip
strip-append [] s = refl
strip-append (c ∷ p) s = ground (arith, strip-append p s)

module _ (order : List (Text × Text) → List (Text × Text)) where
  -- In an entry, after its level, a blank and a quote, stands the message of the entry, whatever
  -- code points it has: it reads back exactly, and ends before the properties.
  pub encode_entry-message :
      (e : Encoder) (entry : Entry) (fields : List Field)
      → (strip (entry.level ++ codes " \"") (encode_entry order e entry fields) >>= read_string)
        ≡ some (
          entry.message,
          (if has_props entry fields then encode_props order e entry fields else []) ++ codes "\n",
        )
  unfolding encode_entry
  encode_entry-message e entry fields =
      let tail =
        (if has_props entry fields then encode_props order e entry fields else []) ++ codes "\n" in
      rw
        (
          sym (
              append_assoc entry.level (codes " \"")
                (escape_kdl_string entry.message ++ b'"' ∷ tail)),
          strip-append (entry.level ++ codes " \"")
              (escape_kdl_string entry.message ++ b'"' ∷ tail),
          read_string-escape_kdl_string entry.message tail,
        )
        refl
