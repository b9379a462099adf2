-- ===== src/Routeutils/Authors/Lists.antt =====
-- Lists of authors in one text, and normal authors (internal/routeutils/author.go).
use syndi.Common.{ℕ, Bool, true, not, ◌&&◌, List, [], ◌∷◌, ◌++◌, Text, ◌==◌, ◌≡◌, refl, ◌∙◌, arith}
use syndi.Golang.Strings.{is_space, trim_left, trim_func, trim_space, split_from, join, has_prefix}
use syndi.Golang.Trimming.{trim_func-trim_func}
use syndi.Routeutils.Authors.{keep_names, merge_authors, parse_author_string}

trim_space-trim_space : (s : Text) → trim_space (trim_space s) ≡ trim_space s
unfolding trim_space
trim_space-trim_space s = trim_func-trim_func is_space s

-- A text without a code point.
unfoldable pub is_free_of : ℕ → Text → Bool
is_free_of c [] = true
is_free_of c (d ∷ s) = not (d == c) && is_free_of c s

unfoldable pub are_free_of : ℕ → List Text → Bool
unfolding is_free_of
are_free_of c [] = true
are_free_of c (w ∷ ws) = is_free_of c w && are_free_of c ws

split-word : (c : ℕ) (w : Text) → is_free_of c w ≡ true → split_from 0 (c ∷ []) w ≡ w ∷ []
unfolding split_from has_prefix is_free_of
split-word c [] h = refl
split-word c (d ∷ w) h = ground (arith, split-word c w)

split-append :
    (c : ℕ) (w s : Text)
    → is_free_of c w ≡ true
    → split_from 0 (c ∷ []) (w ++ c ∷ s) ≡ w ∷ split_from 0 (c ∷ []) s
unfolding split_from has_prefix is_free_of
split-append c [] s h = ground arith
split-append c (d ∷ w) s h = ground (arith, split-append c w s)

split-join :
    (c : ℕ) (w : Text) (ws : List Text)
    → are_free_of c (w ∷ ws) ≡ true
    → split_from 0 (c ∷ []) (join (w ∷ ws) (c ∷ [])) ≡ w ∷ ws
unfolding join are_free_of
split-join c w [] h = split-word c w (ground arith)
split-join c w (v ∷ ws) h =
    rw (split-append c w (join (v ∷ ws) (c ∷ [])) (ground arith), split-join c v ws (ground arith))
      refl

keep_names-keep_names : (authors : List Text) → keep_names (keep_names authors) ≡ keep_names authors
unfolding keep_names
keep_names-keep_names [] = refl
keep_names-keep_names (author ∷ authors) =
    ground (arith, trim_space-trim_space author, keep_names-keep_names authors)

-- The test for the empty text spares a split that finds no name.
parse_author_string-split :
    (s sep : Text) → parse_author_string s sep ≡ keep_names (split_from 0 sep s)
unfolding parse_author_string split_from keep_names trim_space trim_func trim_left
parse_author_string-split [] sep = refl
parse_author_string-split (c ∷ s) sep = refl

split-kept :
    (c : ℕ) (ws : List Text)
    → are_free_of c ws ≡ true
    → keep_names ws ≡ ws
    → keep_names (split_from 0 (c ∷ []) (join ws (c ∷ []))) ≡ ws
unfolding keep_names split_from join trim_space trim_func trim_left
split-kept c [] h k = refl
split-kept c (w ∷ ws) h k = rw (split-join c w ws h) k

-- Authors that were merged with a separator of one code point, which none of their trimmed names
-- has, are parsed from the merged text: their trimmed names, without the empty ones.
pub parse_author_string-merge_authors :
    (c : ℕ) (authors : List Text)
    → are_free_of c (keep_names authors) ≡ true
    → parse_author_string (merge_authors authors (c ∷ [])) (c ∷ []) ≡ keep_names authors
unfolding merge_authors
parse_author_string-merge_authors c authors h =
    parse_author_string-split (join (keep_names authors) (c ∷ [])) (c ∷ [])
    ∙ split-kept c (keep_names authors) h (keep_names-keep_names authors)
