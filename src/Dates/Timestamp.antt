-- ===== src/Dates/Timestamp.antt =====
-- parseTimestamp of pkg/utils/date/parser.go.
pub mod Digits
use syndi.Common.{
  ℕ, suc, ◌+◌, ◌*◌, ◌/◌, ◌%◌, ◌^◌, Bool, true, false, not, [], ◌∷◌, Option, none, some, Text,
  is_empty, ℤ, pos, negsuc, ltb, leb, if◌then◌else◌,
}
use syndi.Golang.Strings.{trim_func}
use syndi.Golang.Numbers.{is_digit, atoi}
use syndi.Dates.{TimeApi}

unfoldable pub digit_count : Text → ℕ
digit_count [] = 0
digit_count (r ∷ s) = let rest = digit_count s in if is_digit r then suc rest else rest

-- The bytes of a code point in UTF-8, and of a text: `len(input)`.
abbrev pub rune_length : ℕ → ℕ
rune_length r = if ltb r 0x80 then 1 else if ltb r 0x800 then 2 else if ltb r 0x10000 then 3 else 4

unfoldable pub byte_length : Text → ℕ
byte_length [] = 0
byte_length (r ∷ s) = rune_length r + byte_length s

-- `float64(digits)/float64(bytes) < 0.8`, which is exact for texts of less than 2^50 bytes.
abbrev pub below_80_percent : ℕ → ℕ → Bool
below_80_percent digits bytes = ltb (5 * digits) (4 * bytes)

module _ (api : TimeApi) where
  -- More than 10^12 are milliseconds.
  abbrev pub time_of_number : ℤ → api.Time
  time_of_number (pos n) =
      if ltb (10 ^ 12) n
      then api.unix (pos (n / 1000)) (pos (n % 1000 * 1000000))
      else api.unix (pos n) (pos 0)
  time_of_number (negsuc n) = api.unix (negsuc n) (pos 0)

  abbrev pub time_of : Option ℤ → Option api.Time
  time_of none = none
  time_of (some n) = some (time_of_number n)

  unfoldable pub parse_timestamp : Text → Option api.Time
  parse_timestamp input =
      let clean = trim_func (λ r. not (is_digit r)) input in
      if is_empty clean
      then none
      else if below_80_percent (digit_count input) (byte_length input)
      then none
      else time_of (atoi clean)
