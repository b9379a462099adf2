-- ===== src/Dates/Timestamp/Digits.antt =====
-- Texts of digits in pkg/utils/date/parser.go: they are all timestamps.
use syndi.Common.{
  ℕ, ◌^◌, ◌<◌, ◌≤◌, ◌+◌, ◌*◌, ◌/◌, ◌%◌, ltb, ap, ◌∙◌, ◌⊎◌, inl, inr, Bool, true, false, not, ◌&&◌,
  [], ◌∷◌, some, Text, length, pos, ok, ◌==◌, ◌≡◌, refl, arith, List,
}
use syndi.Golang.Strings.{is_space, trim_left, trim_func, trim_space}
use syndi.Golang.Trimming.{trim_right, trim_func-trim_right}
use syndi.Golang.Numbers.{is_digit, digits_value, in_range, unsigned, atoi}
use syndi.Dates.{TimeApi}
use syndi.Dates.Timestamp.{
  digit_count, byte_length, below_80_percent, time_of_number, parse_timestamp,
}
use syndi.Dates.Parse.{parse_date}

unfoldable pub are_digits : Text → Bool
are_digits [] = true
are_digits (c ∷ s) = is_digit c && are_digits s

-- Nothing is trimmed where no code point satisfies the test.
trim_left-digits :
    (p : ℕ → Bool) (s : Text)
    → ((c : ℕ) → is_digit c ≡ true → p c ≡ false)
    → are_digits s ≡ true
    → trim_left p s ≡ s
unfolding trim_left are_digits
trim_left-digits p [] h d = refl
trim_left-digits p (c ∷ s) h d = ground (arith, h c)

trim_right-digits :
    (p : ℕ → Bool) (s : Text)
    → ((c : ℕ) → is_digit c ≡ true → p c ≡ false)
    → are_digits s ≡ true
    → trim_right p s ≡ s
unfolding trim_right are_digits
trim_right-digits p [] h d = refl
trim_right-digits p (c ∷ s) h d = ground (arith, h c, trim_right-digits p s h)

trim_func-digits :
    (p : ℕ → Bool) (s : Text)
    → ((c : ℕ) → is_digit c ≡ true → p c ≡ false)
    → are_digits s ≡ true
    → trim_func p s ≡ s
trim_func-digits p s h d =
    rw (trim_func-trim_right p s, trim_left-digits p s h d) (trim_right-digits p s h d)

digit_count-digits : (s : Text) → are_digits s ≡ true → digit_count s ≡ length s
unfolding digit_count are_digits
digit_count-digits [] d = refl
digit_count-digits (c ∷ s) d = ground (arith, digit_count-digits s)

byte_length-digits : (s : Text) → are_digits s ≡ true → byte_length s ≡ length s
unfolding byte_length are_digits is_digit
byte_length-digits [] d = refl
byte_length-digits (c ∷ s) d = ground (arith, byte_length-digits s)

is_space-digit : (c : ℕ) → is_digit c ≡ true → is_space c ≡ false
unfolding is_space is_digit
is_space-digit c h = ground arith

not-is_digit : (c : ℕ) → is_digit c ≡ true → not (is_digit c) ≡ false
not-is_digit c h = rw h refl

is_digit-head : (c : ℕ) (s : Text) → are_digits (c ∷ s) ≡ true → is_digit c ≡ true
unfolding are_digits
is_digit-head c s d = ground arith

is_digit-sign : (c : ℕ) → is_digit c ≡ true → ((c == b'-') ≡ false) × ((c == b'+') ≡ false)
unfolding is_digit
is_digit-sign c h = (ground arith, ground arith)

in_range-small : (n : ℕ) → n < 2 ^ 63 → in_range false (some n) ≡ some (pos n)
unfolding in_range
in_range-small n h = ground arith

atoi-digits :
    (c : ℕ) (s : Text) (n : ℕ)
    → are_digits (c ∷ s) ≡ true
    → digits_value 0 (c ∷ s) ≡ some n
    → n < 2 ^ 63
    → atoi (c ∷ s) ≡ some (pos n)
unfolding atoi unsigned
atoi-digits c s n d e h =
    let (minus, plus) = is_digit-sign c (is_digit-head c s d) in
    rw (minus, plus, e) (in_range-small n h)

time_of_number-seconds :
    (api : TimeApi) (n : ℕ)
    → n ≤ 1_000_000_000_000
    → time_of_number api (pos n) ≡ api.unix (pos n) (pos 0)
time_of_number-seconds api n h =
    let few : ltb (10 ^ 12) n ≡ false = ground (arith, h) in rw few refl

time_of_number-millis :
    (api : TimeApi) (n seconds millis : ℕ)
    → 1_000_000_000_000 < n
    → n ≡ seconds * 1000 + millis
    → millis < 1000
    → time_of_number api (pos n) ≡ api.unix (pos seconds) (pos (millis * 1_000_000))
time_of_number-millis api n seconds millis h split below =
    let many : ltb (10 ^ 12) n ≡ true = ground (arith, h) in
    let quotient : n / 1000 ≡ seconds = omega (arith, split, below) in
    let remainder : n % 1000 ≡ millis = omega (arith, split, below) in
    rw (many, quotient, remainder) refl

-- Such a text is a timestamp.
parse_date-time_of_number :
    (api : TimeApi) (now : api.Time) (order : List (Text × ℕ) → List (Text × ℕ)) (c : ℕ) (s : Text)
    (n : ℕ)
    → are_digits (c ∷ s) ≡ true
    → digits_value 0 (c ∷ s) ≡ some n
    → n < 2 ^ 63
    → parse_date api now order (c ∷ s) ≡ ok (time_of_number api (pos n))
unfolding parse_date parse_timestamp trim_space
parse_date-time_of_number api now order c s n d e h =
    rw
      (
        trim_func-digits is_space (c ∷ s) is_space-digit d,
        trim_func-digits (λ r. not (is_digit r)) (c ∷ s) not-is_digit d,
        digit_count-digits (c ∷ s) d,
        byte_length-digits (c ∷ s) d,
        enough (length (c ∷ s)),
        atoi-digits c s n d e h,
      )
      refl
  where
    enough : (k : ℕ) → below_80_percent k k ≡ false
    enough k = ground arith

-- The seconds and the nanoseconds of a number: up to 1,000,000,000,000 it counts seconds, above that
-- milliseconds.
abbrev pub IsUnixTime : ℕ → ℕ → ℕ → Type 0
IsUnixTime n seconds nanos =
    ((n ≤ 1_000_000_000_000) × (n ≡ seconds) × (nanos ≡ 0))
    ⊎ ((millis : ℕ) × (1_000_000_000_000 < n)
        × (millis < 1000)
        × (n ≡ seconds * 1000 + millis)
        × (nanos ≡ millis * 1_000_000))

-- A text of digits whose value fits an int64 is a Unix time: in seconds up to 1,000,000,000,000, and
-- above that in milliseconds. None of the layouts is tried, not even the compact date 20060102.
pub parse_date-digits :
    (api : TimeApi) (now : api.Time) (order : List (Text × ℕ) → List (Text × ℕ)) (c : ℕ) (s : Text)
    (n seconds nanos : ℕ)
    → are_digits (c ∷ s) ≡ true
    → digits_value 0 (c ∷ s) ≡ some n
    → n < 2 ^ 63
    → IsUnixTime n seconds nanos
    → parse_date api now order (c ∷ s) ≡ ok (api.unix (pos seconds) (pos nanos))
parse_date-digits api now order c s n seconds nanos d e h (inl (small, same, none_left)) =
    parse_date-time_of_number api now order c s n d e h
    ∙ ap ok (time_of_number-seconds api n small)
    ∙ rw (same, none_left) refl
parse_date-digits api now order c s n seconds nanos d e h (inr (millis, big, below, split, same)) =
    parse_date-time_of_number api now order c s n d e h
    ∙ ap ok (time_of_number-millis api n seconds millis big split below)
    ∙ rw same refl
