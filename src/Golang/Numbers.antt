-- ===== src/Golang/Numbers.antt =====
-- Decimal integers as strconv and fmt read them; `int` has 64 bits.
pub mod Digits
use syndi.Common.{
  ℕ, zero, suc, ◌+◌, ◌-◌, ◌*◌, ◌/◌, ◌%◌, ◌^◌, Bool, true, false, ◌&&◌, [], ◌∷◌, Option, none, some,
  Text, ℤ, pos, negsuc, sub_ℕ, ltb, leb, ◌==◌, if◌then◌else◌,
}
use syndi.Golang.Strings.{is_space}

unfoldable pub is_digit : ℕ → Bool
is_digit c = leb b'0' c && leb c b'9'

-- The value of a run of digits, from the value `acc` of those before it.
unfoldable pub digits_value : ℕ → Text → Option ℕ
unfolding is_digit
digits_value acc [] = some acc
digits_value acc (c ∷ s) =
    let rest = digits_value (acc * 10 + (c - b'0')) s in if is_digit c then rest else none

-- The magnitude of an `int64` with its sign, unless it is out of range.
unfoldable pub in_range : Bool → Option ℕ → Option ℤ
in_range minus none = none
in_range true (some n) = if leb n (2 ^ 63) then some (sub_ℕ 0 n) else none
in_range false (some n) = if ltb n (2 ^ 63) then some (pos n) else none

unfoldable pub unsigned : Bool → Text → Option ℤ
unfolding in_range digits_value
unsigned minus [] = none
unsigned minus (c ∷ s) = in_range minus (digits_value 0 (c ∷ s))

-- `strconv.Atoi`, and `strconv.ParseInt` in base 10 with 64 bits; `none` is an error.
unfoldable pub atoi : Text → Option ℤ
unfolding unsigned
atoi [] = none
atoi (c ∷ s) =
    if c == b'-'
    then unsigned true s
    else if c == b'+'
    then unsigned false s
    else unsigned false (c ∷ s)

unfoldable pub leading_digits : Text → Text
unfolding is_digit
leading_digits [] = []
leading_digits (c ∷ s) = let rest = leading_digits s in if is_digit c then c ∷ rest else []

-- The space before a number; a newline there is an error.
unfoldable pub skip_space : Text → Option Text
unfolding is_space
skip_space [] = some []
skip_space (c ∷ s) =
    let rest = skip_space s in if c == 0xa then none else if is_space c then rest else some (c ∷ s)

unfoldable pub scan_number : Text → Option ℤ
unfolding unsigned leading_digits
scan_number [] = none
scan_number (c ∷ s) =
    if c == b'-'
    then unsigned true (leading_digits s)
    else if c == b'+'
    then unsigned false (leading_digits s)
    else unsigned false (leading_digits (c ∷ s))

-- `fmt.Sscanf(s, "%d", &n)`: space, a sign and digits; what follows them is not read.
unfoldable pub sscanf_d : Text → Option ℤ
unfolding skip_space scan_number
sscanf_d s = elim (skip_space s) [ none ↦ none | some t ↦ scan_number t ]

-- The decimal digits of a number, as `%d` prints them; `fuel` is at least the number of digits.
unfoldable pub digits : ℕ → ℕ → Text → Text
digits zero n rest = rest
digits (suc fuel) n rest =
    let later = digits fuel (n / 10) ((b'0' + n % 10) ∷ rest) in
    if ltb n 10 then (b'0' + n) ∷ rest else later

unfoldable pub decimal : ℤ → Text
unfolding digits
decimal (pos n) = digits (suc n) n []
decimal (negsuc n) = b'-' ∷ digits (suc (suc n)) (suc n) []

-- `uint64(n)` of an `int64`.
unfoldable pub uint64_of : ℤ → ℕ
uint64_of (pos n) = n
uint64_of (negsuc n) = 2 ^ 64 - suc n
