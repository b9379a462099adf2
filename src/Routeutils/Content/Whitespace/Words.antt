-- ===== src/Routeutils/Content/Whitespace/Words.antt =====
-- What normalizeWhitespace of internal/routeutils/content.go computes: the words of the text, joined
-- by single blanks.
use mathlib.Core.List.{append_assoc, append-nil}
use syndi.Common.{
  ℕ, Bool, true, false, not, List, [], ◌∷◌, ◌++◌, Text, is_empty, if◌then◌else◌, ◌≡◌, refl, arith,
}
use syndi.Golang.Strings.{is_space, trim_left, trim_space}
use syndi.Golang.Trimming.{trim_right, trim_func-trim_right}
use syndi.Routeutils.Content.Whitespace.{collapse, normalize_whitespace}

-- The word at the front of a text, and the words after it.
abbrev pub push : Text → List Text → List Text
push [] ws = ws
push (c ∷ w) ws = (c ∷ w) ∷ ws

unfoldable pub first_word : Text → Text
first_word [] = []
first_word (c ∷ s) = let w = first_word s in if is_space c then [] else c ∷ w

unfoldable pub later_words : Text → List Text
unfolding first_word
later_words [] = []
later_words (c ∷ s) = let ws = later_words s in if is_space c then push (first_word s) ws else ws

-- `strings.Fields`: the maximal runs of code points that are not space.
unfoldable pub fields : Text → List Text
unfolding later_words first_word
fields s = push (first_word s) (later_words s)

abbrev pub spaced : List Text → Text
spaced [] = []
spaced (w ∷ ws) = b' ' ∷ w ++ spaced ws

-- `strings.Join(words, " ")`.
abbrev pub join_words : List Text → Text
join_words [] = []
join_words (w ∷ ws) = w ++ spaced ws

-- What the loop adds to its builder once that is not empty.
emit : Bool → Text → Text
emit in_space [] = []
emit in_space (r ∷ s) =
    let inside = emit true s in
    let outside = emit false s in
    if is_space r then (if in_space then inside else b' ' ∷ inside) else r ∷ outside

collapse-emit :
    (c : ℕ) (buf : Text) (i : Bool) (s : Text) → collapse (c ∷ buf) i s ≡ (c ∷ buf) ++ emit i s
unfolding collapse emit
collapse-emit c buf i [] = rw (append-nil buf) refl
collapse-emit c buf i (r ∷ s) = ground (
  arith,
  collapse-emit c buf true s,
  collapse-emit c (buf ++ b' ' ∷ []) true s,
  collapse-emit c (buf ++ r ∷ []) false s,
  append_assoc buf (b' ' ∷ []) (emit true s),
  append_assoc buf (r ∷ []) (emit false s),
)

collapse-emit_start : (s : Text) → collapse [] false s ≡ emit true s
unfolding collapse emit
collapse-emit_start [] = refl
collapse-emit_start (r ∷ s) = ground (arith, collapse-emit_start s, collapse-emit r [] false s)

trim_left-emit : (s : Text) → trim_left is_space (emit true s) ≡ emit true s
unfolding trim_left emit
trim_left-emit [] = refl
trim_left-emit (r ∷ s) = ground (arith, trim_left-emit s)

-- The words after the first are not empty.
abbrev starts_full : List Text → Bool
starts_full [] = true
starts_full (w ∷ ws) = not (is_empty w)

starts_full-push :
    (w : Text) (ws : List Text) → starts_full ws ≡ true → starts_full (push w ws) ≡ true
starts_full-push [] ws h = h
starts_full-push (c ∷ w) ws h = refl

starts_full-later_words : (s : Text) → starts_full (later_words s) ≡ true
unfolding later_words
starts_full-later_words [] = refl
starts_full-later_words (c ∷ s) = ground (
  arith,
  starts_full-later_words s,
  starts_full-push (first_word s) (later_words s) (starts_full-later_words s),
)

spaced-join_words :
    (ws : List Text)
    → starts_full ws ≡ true
    → (if is_empty (join_words ws) then [] else b' ' ∷ join_words ws) ≡ spaced ws
spaced-join_words [] h = refl
spaced-join_words ([] ∷ ws) h = cc
spaced-join_words ((c ∷ w) ∷ ws) h = refl

is_space-blank : is_space b' ' ≡ true
unfolding is_space
is_space-blank = refl

-- What is left of the added text without the space at its end.
trimmed : Bool → Text → Text
trimmed true s = join_words (push (first_word s) (later_words s))
trimmed false s = first_word s ++ spaced (later_words s)

trim_right-emit : (i : Bool) (s : Text) → trim_right is_space (emit i s) ≡ trimmed i s
unfolding trim_right emit trimmed first_word later_words
trim_right-emit true [] = refl
trim_right-emit false [] = refl
trim_right-emit true (c ∷ s) = ground (arith, trim_right-emit true s, trim_right-emit false s)
trim_right-emit false (c ∷ s) = ground (
  arith,
  trim_right-emit true s,
  trim_right-emit false s,
  is_space-blank,
  spaced-join_words (push (first_word s) (later_words s))
      (starts_full-push (first_word s) (later_words s) (starts_full-later_words s)),
)

-- The whitespace of a text is normalized to single blanks between its words, and to nothing before
-- the first and after the last.
pub normalize_whitespace-fields : (s : Text) → normalize_whitespace s ≡ join_words (fields s)
unfolding normalize_whitespace fields trim_space trim_right trimmed
normalize_whitespace-fields s =
    rw
      (
        collapse-emit_start s,
        trim_func-trim_right is_space (emit true s),
        trim_left-emit s,
        trim_right-emit true s,
      )
      refl
