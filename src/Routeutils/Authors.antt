-- ===== src/Routeutils/Authors.antt =====
-- internal/routeutils/author.go: the authors of items and feeds. An author is one value for both, with
-- the nil pointer as `none`; the options of SetAuthor are functions.
pub mod Lists
use syndi.Common.{
  ℕ, Bool, true, false, not, ◌&&◌, ◌||◌, List, [], ◌∷◌, ◌++◌, Option, none, some, Text, codes,
  is_empty, if◌then◌else◌,
}
use syndi.Golang.Strings.{trim_space, split, join}
use syndi.Models.{Author, Item, Feed}

-- `GetAuthorString` and `GetFeedAuthorString`.
unfoldable pub author_string : Option Author → Text
author_string none = []
author_string (some author) = trim_space author.name

abbrev pub with_author_email : Text → Author → Author
with_author_email email a = record a { email = trim_space email }

abbrev pub with_author_uri : Text → Author → Author
with_author_uri uri a = record a { uri = trim_space uri }

abbrev pub author_or_new : Option Author → Author
author_or_new none = record { name = []; email = []; uri = [] }
author_or_new (some a) = a

unfoldable pub apply_options : List (Author → Author) → Author → Author
apply_options [] a = a
apply_options (opt ∷ opts) a = apply_options opts (opt a)

unfoldable pub set_author : Text → List (Author → Author) → Item → Item
set_author name opts item = record item {
  author =
      some (apply_options opts (record (author_or_new item.author) { name = trim_space name }));
}

abbrev pub new_author : Text → Text → Text → Author
new_author name email uri = record {
  name = trim_space name;
  email = trim_space email;
  uri = trim_space uri;
}

abbrev pub is_valid_author : Option Author → Bool
is_valid_author none = false
is_valid_author (some a) = not (is_empty a.name) || not (is_empty a.email) || not (is_empty a.uri)

abbrev pub trim_author : Author → Author
trim_author a = new_author a.name a.email a.uri

abbrev pub unless_empty : Author → Option Author
unless_empty a = if is_empty a.name && is_empty a.email && is_empty a.uri then none else some a

-- `NormalizeAuthor` and `NormalizeFeedAuthor`.
unfoldable pub normalize_author : Option Author → Option Author
normalize_author none = none
normalize_author (some a) = unless_empty (trim_author a)

-- The loop of MergeAuthors and of ParseAuthorString.
unfoldable pub keep_names : List Text → List Text
keep_names [] = []
keep_names (author ∷ authors) =
    let rest = keep_names authors in
    if not (is_empty (trim_space author)) then trim_space author ∷ rest else rest

unfoldable pub merge_authors : List Text → Text → Text
merge_authors authors separator = join (keep_names authors) separator

unfoldable pub parse_author_string : Text → Text → List Text
parse_author_string author_str separator =
    if is_empty author_str then [] else keep_names (split author_str separator)

abbrev pub bracketed : Text → Text → Text → List Text
bracketed left s right = if is_empty s then [] else (left ++ (s ++ right)) ∷ []

abbrev pub joined_part : List Text → List Text
joined_part [] = []
joined_part (w ∷ ws) = join (w ∷ ws) (codes " ") ∷ []

unfoldable pub format_author : Option Author → Text
format_author none = []
format_author (some a) =
    let with_brackets =
      bracketed (codes "<") a.email (codes ">") ++ bracketed (codes "(") a.uri (codes ")") in
    join (bracketed [] a.name [] ++ joined_part with_brackets) (codes " ")
