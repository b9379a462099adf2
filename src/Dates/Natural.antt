-- ===== src/Dates/Natural.antt =====
-- parseNaturalLanguage of pkg/utils/date/parser.go.
use syndi.Common.{
  ℕ, ◌+◌, ◌-◌, ◌*◌, ◌%◌, ◌^◌, ◌||◌, List, [], ◌∷◌, Option, none, some, Text, codes, text_eq, ℤ, pos,
  sub_ℕ, pos_part, neg_part, ◌*ℤ◌, wrap64, if◌then◌else◌,
}
use syndi.Golang.Strings.{to_lower, contains, has_prefix}
use syndi.Golang.Numbers.{atoi}
use syndi.Dates.{TimeApi}

abbrev pub weekday_map : List (Text × ℕ)
weekday_map =
    (codes "sunday", 0)
    ∷ (codes "monday", 1)
    ∷ (codes "tuesday", 2)
    ∷ (codes "wednesday", 3)
    ∷ (codes "thursday", 4)
    ∷ (codes "friday", 5)
    ∷ (codes "saturday", 6)
    ∷ (codes "sun", 0)
    ∷ (codes "mon", 1)
    ∷ (codes "tue", 2)
    ∷ (codes "wed", 3)
    ∷ (codes "thu", 4)
    ∷ (codes "fri", 5)
    ∷ (codes "sat", 6)
    ∷ []

-- The day of the first name that the text contains.
unfoldable pub find_weekday : Text → List (Text × ℕ) → Option ℕ
find_weekday s [] = none
find_weekday s ((name, day) ∷ days) =
    let later = find_weekday s days in if contains s name then some day else later

-- From one weekday on to the next that is the target.
abbrev pub days_until : ℕ → ℕ → ℕ
days_until target current = (target + 7 - current) % 7

-- `num, _ := strconv.Atoi(digits)` of one or more digits: out of range it is the largest int.
abbrev pub atoi_or_max : Text → ℤ
atoi_or_max s = elim (atoi s) [ none ↦ pos (2 ^ 63 - 1) | some n ↦ n ]

abbrev pub negate : ℤ → ℤ
negate n = sub_ℕ (neg_part n) (pos_part n)

abbrev pub or_else {ℓ} : {A : Type ℓ} → Option A → Option A → Option A
or_else none b = b
or_else (some a) b = some a

module _ (api : TimeApi) (now : api.Time) where
  -- Before now, in a unit of nanoseconds, or of days, months or years; `int` has 64 bits.
  abbrev pub ago : ℕ → ℤ → api.Time
  ago unit num = api.add now (wrap64 (negate num *ℤ pos unit))

  abbrev pub days_ago : ℕ → ℤ → api.Time
  days_ago unit num = api.add_date now (pos 0) (pos 0) (wrap64 (negate num *ℤ pos unit))

  abbrev pub months_ago : ℤ → api.Time
  months_ago num = api.add_date now (pos 0) (negate num) (pos 0)

  abbrev pub years_ago : ℤ → api.Time
  years_ago num = api.add_date now (negate num) (pos 0) (pos 0)

  abbrev pub relative : Text → ℤ → Option api.Time
  relative unit num =
      if text_eq unit (codes "second")
      then some (ago (10 ^ 9) num)
      else if text_eq unit (codes "minute")
      then some (ago (60 * 10 ^ 9) num)
      else if text_eq unit (codes "hour")
      then some (ago (3600 * 10 ^ 9) num)
      else if text_eq unit (codes "day")
      then some (days_ago 1 num)
      else if text_eq unit (codes "week")
      then some (days_ago 7 num)
      else if text_eq unit (codes "month")
      then some (months_ago num)
      else if text_eq unit (codes "year")
      then some (years_ago num)
      else none

  abbrev pub relative_match : (Text → ℤ → Option api.Time) → Option (List Text) → Option api.Time
  relative_match f (some (whole ∷ digits ∷ unit ∷ [])) = f unit (atoi_or_max digits)
  relative_match f _ = none

  abbrev pub last_unit : Text → Option api.Time
  last_unit lower =
      if text_eq lower (codes "last week")
      then some (api.add_date now (pos 0) (pos 0) (sub_ℕ 0 7))
      else if text_eq lower (codes "last month")
      then some (api.add_date now (pos 0) (sub_ℕ 0 1) (pos 0))
      else if text_eq lower (codes "last year")
      then some (api.add_date now (sub_ℕ 0 1) (pos 0) (pos 0))
      else none

  abbrev pub weekday_time : Text → ℕ → api.Time
  weekday_time lower target =
      let days = days_until target (api.weekday now) in
      api.add_date now (pos 0) (pos 0)
        (if has_prefix lower (codes "last ") then sub_ℕ days 7 else pos days)

  module _ (order : List (Text × ℕ) → List (Text × ℕ)) where
    -- What comes after the words for one day.
    unfoldable pub parse_weekday_or_relative : Text → Option api.Time
    parse_weekday_or_relative lower = elim (find_weekday lower (order weekday_map)) [
      | some target ↦ some (weekday_time lower target)
      | none ↦
          or_else
            (relative_match relative (
              api.find_string_submatch
                (codes "(\\d+)\\s*(second|minute|hour|day|week|month|year)s?\\s+ago") lower))
            (last_unit lower)
    ]

    unfoldable pub parse_natural_language : Text → Option api.Time
    parse_natural_language input =
        let lower = to_lower input in
        if text_eq lower (codes "now")
          || text_eq lower (codes "just now")
          || text_eq lower (codes "today")
        then some now
        else if text_eq lower (codes "yesterday")
        then some (api.add_date now (pos 0) (pos 0) (sub_ℕ 0 1))
        else if text_eq lower (codes "tomorrow")
        then some (api.add_date now (pos 0) (pos 0) (pos 1))
        else parse_weekday_or_relative lower
