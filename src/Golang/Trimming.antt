-- ===== src/Golang/Trimming.antt =====
-- strings.TrimFunc of Golang/Strings.antt from the right, by recursion from the left.
use mathlib.Core.List.{reverse, reverse-cons, reverse-append}
use syndi.Common.{
  ℕ, Bool, ◌&&◌, [], ◌∷◌, ◌++◌, Text, is_empty, if◌then◌else◌, ◌≡◌, refl, sym, arith, false, true,
}
use syndi.Golang.Strings.{trim_left, trim_func}

unfoldable pub trim_right : (ℕ → Bool) → Text → Text
trim_right p [] = []
trim_right p (c ∷ s) = let rest = trim_right p s in if is_empty rest && p c then [] else c ∷ rest

trim_left-snoc :
    (p : ℕ → Bool) (s : Text) (c : ℕ)
    → trim_left p (s ++ c ∷ [])
      ≡ (if is_empty (trim_left p s) then (if p c then [] else c ∷ []) else trim_left p s ++ c ∷ [])
unfolding trim_left
trim_left-snoc p [] c = refl
trim_left-snoc p (d ∷ s) c = ground (arith, trim_left-snoc p s c)

is_empty-snoc : (s : Text) (c : ℕ) → is_empty (s ++ c ∷ []) ≡ false
is_empty-snoc [] c = refl
is_empty-snoc (d ∷ s) c = refl

is_empty-reverse : (s : Text) → is_empty (reverse s) ≡ is_empty s
is_empty-reverse [] = refl
is_empty-reverse (c ∷ s) = rw (reverse-cons c s) (is_empty-snoc (reverse s) c)

reverse-trim_left : (p : ℕ → Bool) (s : Text) → reverse (trim_left p (reverse s)) ≡ trim_right p s
unfolding trim_left trim_right
reverse-trim_left p [] = refl
reverse-trim_left p (c ∷ s) =
    rw
      (
        reverse-cons c s,
        trim_left-snoc p (reverse s) c,
        sym (reverse-trim_left p s),
        is_empty-reverse (trim_left p (reverse s)),
      )
      (last (trim_left p (reverse s)))
  where
    last :
        (t : Text)
        → reverse (if is_empty t then (if p c then [] else c ∷ []) else t ++ c ∷ [])
          ≡ (if is_empty t && p c then [] else c ∷ reverse t)
    last [] = ground arith
    last (d ∷ t) = reverse-append (d ∷ t) (c ∷ [])

-- TrimFunc removes what leads, then what trails.
pub trim_func-trim_right : (p : ℕ → Bool) (s : Text) → trim_func p s ≡ trim_right p (trim_left p s)
unfolding trim_func
trim_func-trim_right p s = reverse-trim_left p (trim_left p s)

trim_right-trim_right : (p : ℕ → Bool) (s : Text) → trim_right p (trim_right p s) ≡ trim_right p s
unfolding trim_right
trim_right-trim_right p [] = refl
trim_right-trim_right p (c ∷ s) = ground (arith, trim_right-trim_right p s)

-- A text that starts as a trimmed one still does after its end is trimmed.
trim_left-trim_right :
    (p : ℕ → Bool) (s : Text)
    → trim_left p (trim_right p (trim_left p s)) ≡ trim_right p (trim_left p s)
unfolding trim_left trim_right
trim_left-trim_right p [] = refl
trim_left-trim_right p (c ∷ s) = ground (arith, trim_left-trim_right p s)

-- Trimming twice is trimming once.
pub trim_func-trim_func : (p : ℕ → Bool) (s : Text) → trim_func p (trim_func p s) ≡ trim_func p s
trim_func-trim_func p s =
    rw
      (
        trim_func-trim_right p s,
        trim_func-trim_right p (trim_right p (trim_left p s)),
        trim_left-trim_right p s,
        trim_right-trim_right p (trim_left p s),
      )
      refl

trim_right-snoc :
    (p : ℕ → Bool) (s : Text) (c : ℕ) → p c ≡ true → trim_right p (s ++ c ∷ []) ≡ trim_right p s
unfolding trim_right
trim_right-snoc p [] c h = ground (arith, h)
trim_right-snoc p (d ∷ s) c h = rw (trim_right-snoc p s c h)

trim_right-unless_empty :
    (p : ℕ → Bool) (t : Text) (c : ℕ)
    → p c ≡ true
    → trim_right p (if is_empty t then (if p c then [] else c ∷ []) else t ++ c ∷ [])
      ≡ trim_right p t
unfolding trim_right
trim_right-unless_empty p [] c h = ground (arith, h)
trim_right-unless_empty p (d ∷ t) c h = trim_right-snoc p (d ∷ t) c h

-- A last character that is trimmed makes no difference.
pub trim_func-snoc :
    (p : ℕ → Bool) (s : Text) (c : ℕ) → p c ≡ true → trim_func p (s ++ c ∷ []) ≡ trim_func p s
trim_func-snoc p s c h =
    rw (trim_func-trim_right p (s ++ c ∷ []), trim_func-trim_right p s, trim_left-snoc p s c)
      (trim_right-unless_empty p (trim_left p s) c h)
