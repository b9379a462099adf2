-- ===== src/Dates.antt =====
-- pkg/utils/date/parser.go: dates from texts. Package time and the search of package regexp are the
-- parameter `api`; `now` is what time.Now returns, and `order` the order of a range over a map.
pub mod Timestamp
pub mod Natural
pub mod Chinese
pub mod Parse
pub mod Weeks
use syndi.Common.{ℕ, Bool, List, Option, Text, ℤ}

pub record TimeApi : Type 1 where
  pub Time : Type 0
  pub Location : Type 0
  pub local : Location
  pub zero_time : Time
  pub is_zero : Time → Bool
  -- `time.Unix` of seconds and nanoseconds.
  pub unix : ℤ → ℤ → Time
  -- `time.Parse` of a layout and a text.
  pub parse : Text → Text → Option Time
  -- `Add` of nanoseconds, and `AddDate` of years, months and days.
  pub add : Time → ℤ → Time
  pub add_date : Time → ℤ → ℤ → ℤ → Time
  -- `time.Date` of a year, a month, a day, hours, minutes, seconds and nanoseconds.
  pub date : ℤ → ℤ → ℤ → ℤ → ℤ → ℤ → ℤ → Location → Time
  pub year : Time → ℤ
  pub month : Time → ℤ
  pub day : Time → ℤ
  pub weekday : Time → ℕ
  pub location : Time → Location
  pub in_location : Time → Location → Time
  -- `FindStringSubmatch` of a regular expression in a text; `none` is no match.
  pub find_string_submatch : Text → Text → Option (List Text)
