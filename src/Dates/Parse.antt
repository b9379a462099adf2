-- ===== src/Dates/Parse.antt =====
-- ParseDate, parseStandard, IsValidDate and the starts and ends of days, weeks, months and years of
-- pkg/utils/date/parser.go.
use syndi.Common.{
  ℕ, ◌+◌, ◌-◌, ◌%◌, Bool, true, false, not, ◌&&◌, List, [], ◌∷◌, Option, none, some, Text, codes,
  is_empty, Result, ok, err, ◌>>=◌, pos, sub_ℕ, eq_ℤ, if◌then◌else◌,
}
use syndi.Golang.Strings.{trim_space}
use syndi.Dates.{TimeApi}
use syndi.Dates.Timestamp.{parse_timestamp}
use syndi.Dates.Natural.{or_else, parse_natural_language}
use syndi.Dates.Chinese.{parse_chinese}

-- The layouts in the order in which they are tried.
abbrev pub formats : List Text
formats =
    codes "2006-01-02T15:04:05Z07:00"
    ∷ codes "2006-01-02T15:04:05.999999999Z07:00"
    ∷ codes "2006-01-02T15:04:05Z"
    ∷ codes "2006-01-02T15:04:05-07:00"
    ∷ codes "2006-01-02T15:04:05.999Z"
    ∷ codes "2006-01-02T15:04:05.999-07:00"
    ∷ codes "Mon, 02 Jan 2006 15:04:05 MST"
    ∷ codes "Mon, 02 Jan 2006 15:04:05 -0700"
    ∷ codes "02 Jan 06 15:04 MST"
    ∷ codes "02 Jan 06 15:04 -0700"
    ∷ codes "2006-01-02 15:04:05"
    ∷ codes "2006-01-02 15:04"
    ∷ codes "2006/01/02 15:04:05"
    ∷ codes "2006/01/02 15:04"
    ∷ codes "2006-01-02"
    ∷ codes "2006/01/02"
    ∷ codes "02 Jan 2006 15:04:05"
    ∷ codes "02 Jan 2006"
    ∷ codes "Jan 2, 2006 15:04:05"
    ∷ codes "Jan 2, 2006"
    ∷ codes "January 2, 2006"
    ∷ codes "02-Jan-2006"
    ∷ codes "2006-Jan-02"
    ∷ codes "20060102"
    ∷ codes "20060102T150405Z"
    ∷ codes "01/02/2006"
    ∷ codes "01-02-2006"
    ∷ codes "Mon, 02 Jan 2006 15:04:05"
    ∷ codes "Monday, 02 Jan 2006"
    ∷ []

module _ (api : TimeApi) where
  unfoldable pub parse_first : List Text → Text → Option api.Time
  parse_first [] input = none
  parse_first (format ∷ later) input = or_else (api.parse format input) (parse_first later input)

  abbrev pub parse_standard : Text → Option api.Time
  parse_standard input = parse_first formats input

  abbrev pub start_of_day : api.Time → api.Time
  start_of_day t =
      api.date (api.year t) (api.month t) (api.day t) (pos 0) (pos 0) (pos 0) (pos 0)
        (api.location t)

  abbrev pub end_of_day : api.Time → api.Time
  end_of_day t =
      api.date (api.year t) (api.month t) (api.day t) (pos 23) (pos 59) (pos 59) (pos 999999999)
        (api.location t)

  unfoldable pub start_of_week : api.Time → api.Time
  start_of_week t =
      let days_since_monday = (api.weekday t + 7 - 1) % 7 in
      api.add_date t (pos 0) (pos 0) (sub_ℕ 0 days_since_monday)

  abbrev pub start_of_month : api.Time → api.Time
  start_of_month t =
      api.date (api.year t) (api.month t) (pos 1) (pos 0) (pos 0) (pos 0) (pos 0) (api.location t)

  abbrev pub start_of_year : api.Time → api.Time
  start_of_year t =
      api.date (api.year t) (pos 1) (pos 1) (pos 0) (pos 0) (pos 0) (pos 0) (api.location t)

  abbrev pub same_day : api.Time → api.Time → Bool
  same_day t u =
      eq_ℤ (api.year t) (api.year u)
      && eq_ℤ (api.month t) (api.month u)
      && eq_ℤ (api.day t) (api.day u)

  -- `IsToday` and `IsYesterday`.
  abbrev pub is_today : api.Time → api.Time → Bool
  is_today now t = same_day t now

  abbrev pub is_yesterday : api.Time → api.Time → Bool
  is_yesterday now t = same_day t (api.add_date now (pos 0) (pos 0) (sub_ℕ 0 1))

  module _ (now : api.Time) (order : List (Text × ℕ) → List (Text × ℕ)) where
    abbrev pub or_zero_time : Option api.Time → api.Time
    or_zero_time none = api.zero_time
    or_zero_time (some t) = t

    unfoldable pub parse_date : Text → Result api.Time
    parse_date input =
        let input = trim_space input in
        if is_empty input
        then ok api.zero_time
        else ok (
            or_zero_time (
              or_else (parse_timestamp api input) (
                or_else (parse_standard input) (
                  or_else (parse_natural_language api now order input)
                    (parse_chinese api now order input)))))

    unfoldable pub parse_date_in_location : Text → api.Location → Result api.Time
    parse_date_in_location input loc = do t ← parse_date input; ok (api.in_location t loc)

    unfoldable pub is_valid_date : Text → Bool
    is_valid_date input =
        let input = trim_space input in
        if is_empty input
        then true
        else elim (parse_date input) [ err message ↦ false | ok t ↦ not (api.is_zero t) ]
