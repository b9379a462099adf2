-- ===== src/Tests/Dating.antt =====
-- Texts that pkg/utils/date/parser.go reads as dates, over a calendar of days.
use mathlib.Core.List.{Memᴰ}
use mathlib.Core.List.Permᴰ
use syndi.Common.{
  inl, ℕ, ◌+◌, ◌*◌, ◌%◌, ◌<◌, ◌≤◌, ◌≡◌, refl, true, List, none, some, arith, Text, codes, ℤ, pos,
  negsuc, pos_part, neg_part, sub_ℕ, ◌+ℤ◌, eq_ℤ, ok,
}
use syndi.Golang.Strings.{contains}
use syndi.Golang.Numbers.{is_digit, digits_value}
use syndi.Dates.{TimeApi}
use syndi.Dates.Natural.{weekday_time, parse_weekday_or_relative}
use syndi.Dates.Parse.{start_of_week, parse_date}
use syndi.Dates.Timestamp.Digits.{are_digits, parse_date-digits}
use syndi.Dates.Weeks.{IsCalendar, start_of_week-monday, parse_weekday_or_relative-contains}

-- Days from a Sunday; months and years do not count.
abbrev pub days : TimeApi
days = record {
  Time = ℤ;
  Location = Unit {0};
  local = tt;
  zero_time = pos 0;
  is_zero = λ t. eq_ℤ t (pos 0);
  unix = λ seconds nanoseconds. seconds;
  parse = λ layout s. none;
  add = λ t d. t;
  add_date = λ t years months d. t +ℤ d;
  date = λ y m d h minutes s ns loc. d;
  year = λ t. pos 0;
  month = λ t. pos 0;
  day = λ t. t;
  weekday = λ t. (pos_part t + 6 * neg_part t) % 7;
  location = λ t. tt;
  in_location = λ t loc. t;
  find_string_submatch = λ pattern s. none;
}

weekday-later :
    (t : ℤ) (a b : ℕ)
    → (pos_part (t +ℤ sub_ℕ a b) + 6 * neg_part (t +ℤ sub_ℕ a b)) % 7
      ≡ ((pos_part t + 6 * neg_part t) % 7 + a + 6 * b) % 7
unfolding ◌+ℤ◌
weekday-later (pos n) a b = ground arith
weekday-later (negsuc n) a b = ground arith

no_days_later : (t : ℤ) → t +ℤ pos 0 ≡ t
unfolding ◌+ℤ◌
no_days_later (pos n) = ground arith
no_days_later (negsuc n) = ground arith

days-IsCalendar : IsCalendar days
days-IsCalendar = record {
  weekday-lt = λ t. omega arith;
  weekday-add_date = weekday-later;
  add_date-zero = no_days_later;
}

abbrev pub unordered : List (Text × ℕ) → List (Text × ℕ)
unordered map = map

start_of_week-monday_example :
    ((pos_part (start_of_week days (pos 10)) + 6 * neg_part (start_of_week days (pos 10))) % 7 ≡ 1)
    × ((k : ℕ) × k ≤ 6 × (start_of_week days (pos 10) ≡ pos 10 +ℤ sub_ℕ 0 k))
    × (start_of_week days (start_of_week days (pos 10)) ≡ start_of_week days (pos 10))
start_of_week-monday_example = start_of_week-monday days days-IsCalendar (pos 10)

months_has_mon : contains (codes "18 months ago") (codes "mon") ≡ true
unfolding contains
months_has_mon = refl

parse_weekday_or_relative-contains_example :
    (target : ℕ) × target < 7
    × (parse_weekday_or_relative days (pos 1000) unordered (codes "18 months ago")
        ≡ some (weekday_time days (pos 1000) (codes "18 months ago") target))
parse_weekday_or_relative-contains_example =
    parse_weekday_or_relative-contains days (pos 1000) unordered (codes "18 months ago")
      (codes "mon") 1 (Permᴰ.refl _)
      (Memᴰ.tail (
        Memᴰ.tail
          (Memᴰ.tail (Memᴰ.tail (Memᴰ.tail (Memᴰ.tail (Memᴰ.tail (Memᴰ.tail (Memᴰ.head refl)))))))))
      months_has_mon

compact_digits : are_digits (codes "20060102") ≡ true
unfolding are_digits is_digit
compact_digits = refl

compact_value : digits_value 0 (codes "20060102") ≡ some 20060102
unfolding digits_value
compact_value = refl

parse_date-digits_example :
    parse_date days (pos 1000) unordered (codes "20060102") ≡ ok (pos 20060102)
parse_date-digits_example =
    parse_date-digits days (pos 1000) unordered b'2' (codes "0060102") 20060102 20060102 0
      compact_digits compact_value (omega arith) (inl (omega arith, refl, refl))
