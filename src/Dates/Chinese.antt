-- ===== src/Dates/Chinese.antt =====
-- parseChinese of pkg/utils/date/parser.go.
use syndi.Common.{
  ℕ, ◌+◌, ◌-◌, ◌%◌, ◌^◌, ◌||◌, List, [], ◌∷◌, Option, none, some, Text, codes, text_eq, ℤ, pos,
  sub_ℕ, ◌+ℤ◌, ◌-ℤ◌, ◌*◌, if◌then◌else◌,
}
use syndi.Golang.Strings.{contains}
use syndi.Dates.{TimeApi}
use syndi.Dates.Natural.{
  find_weekday, days_until, atoi_or_max, or_else, ago, days_ago, months_ago, years_ago,
  relative_match,
}

abbrev pub chinese_weekday_map : List (Text × ℕ)
chinese_weekday_map =
    (codes "周日", 0)
    ∷ (codes "周一", 1)
    ∷ (codes "周二", 2)
    ∷ (codes "周三", 3)
    ∷ (codes "周四", 4)
    ∷ (codes "周五", 5)
    ∷ (codes "周六", 6)
    ∷ (codes "星期日", 0)
    ∷ (codes "星期一", 1)
    ∷ (codes "星期二", 2)
    ∷ (codes "星期三", 3)
    ∷ (codes "星期四", 4)
    ∷ (codes "星期五", 5)
    ∷ (codes "星期六", 6)
    ∷ (codes "礼拜日", 0)
    ∷ (codes "礼拜一", 1)
    ∷ (codes "礼拜二", 2)
    ∷ (codes "礼拜三", 3)
    ∷ (codes "礼拜四", 4)
    ∷ (codes "礼拜五", 5)
    ∷ (codes "礼拜六", 6)
    ∷ []

module _ (api : TimeApi) (now : api.Time) where
  abbrev pub days_from_now : ℤ → api.Time
  days_from_now days = api.add_date now (pos 0) (pos 0) days

  unfoldable pub parse_chinese_day : Text → Option api.Time
  parse_chinese_day input =
      if text_eq input (codes "今天") || contains input (codes "今天")
      then some now
      else if contains input (codes "昨天")
      then some (days_from_now (sub_ℕ 0 1))
      else if contains input (codes "前天")
      then some (days_from_now (sub_ℕ 0 2))
      else if contains input (codes "明天")
      then some (days_from_now (pos 1))
      else if contains input (codes "后天")
      then some (days_from_now (pos 2))
      else none

  abbrev pub weekday_from_now : Option ℕ → Option api.Time
  weekday_from_now none = none
  weekday_from_now (some target) = some (days_from_now (pos (days_until target (api.weekday now))))

  abbrev pub chinese_relative : Text → ℤ → Option api.Time
  chinese_relative unit num =
      if text_eq unit (codes "秒")
      then some (ago api now (10 ^ 9) num)
      else if text_eq unit (codes "分钟")
      then some (ago api now (60 * 10 ^ 9) num)
      else if text_eq unit (codes "小时")
      then some (ago api now (3600 * 10 ^ 9) num)
      else if text_eq unit (codes "天")
      then some (days_ago api now 1 num)
      else if text_eq unit (codes "周")
      then some (days_ago api now 7 num)
      else if text_eq unit (codes "月")
      then some (months_ago api now num)
      else if text_eq unit (codes "年")
      then some (years_ago api now num)
      else none

  abbrev pub chinese_date : Option (List Text) → Option api.Time
  chinese_date (some (whole ∷ year ∷ month ∷ day ∷ [])) = some (
      api.date (atoi_or_max year) (atoi_or_max month) (atoi_or_max day) (pos 0) (pos 0) (pos 0)
        (pos 0) api.local)
  chinese_date _ = none

  abbrev pub chinese_date_time : Option (List Text) → Option api.Time
  chinese_date_time (some (whole ∷ year ∷ month ∷ day ∷ hour ∷ minute ∷ [])) = some (
      api.date (atoi_or_max year) (atoi_or_max month) (atoi_or_max day) (atoi_or_max hour)
        (atoi_or_max minute) (pos 0) (pos 0) api.local)
  chinese_date_time _ = none

  abbrev pub days_since_monday : ℕ
  days_since_monday = (api.weekday now + 7 - 1) % 7

  abbrev pub month_start : ℤ → ℤ → api.Time
  month_start year month = api.date year month (pos 1) (pos 0) (pos 0) (pos 0) (pos 0) api.local

  -- The start of a week, a month or a year.
  unfoldable pub parse_chinese_period : Text → Option api.Time
  parse_chinese_period input =
      if contains input (codes "本周") || contains input (codes "这周")
      then some (days_from_now (sub_ℕ 0 days_since_monday))
      else if contains input (codes "上周")
      then some (days_from_now (sub_ℕ 0 (days_since_monday + 7)))
      else if contains input (codes "下周")
      then some (days_from_now (sub_ℕ 7 days_since_monday))
      else if contains input (codes "本月") || contains input (codes "这个月")
      then some (month_start (api.year now) (api.month now))
      else if contains input (codes "上月") || contains input (codes "上个月")
      then some (month_start (api.year now) (api.month now -ℤ pos 1))
      else if contains input (codes "下月") || contains input (codes "下个月")
      then some (month_start (api.year now) (api.month now +ℤ pos 1))
      else if contains input (codes "今年")
      then some (month_start (api.year now) (pos 1))
      else if contains input (codes "去年") || contains input (codes "上年")
      then some (month_start (api.year now -ℤ pos 1) (pos 1))
      else if contains input (codes "明年")
      then some (month_start (api.year now +ℤ pos 1) (pos 1))
      else none

  module _ (order : List (Text × ℕ) → List (Text × ℕ)) where
    unfoldable pub parse_chinese : Text → Option api.Time
    parse_chinese input = or_else (parse_chinese_day input) (
        or_else (weekday_from_now (find_weekday input (order chinese_weekday_map))) (
          or_else
            (relative_match api now chinese_relative
              (api.find_string_submatch (codes "(\\d+)\\s*(秒|分钟|小时|天|周|月|年)前") input))
            (or_else
              (chinese_date
                (api.find_string_submatch (codes "(\\d{4})年(\\d{1,2})月(\\d{1,2})日") input))
              (or_else
                (chinese_date_time (
                  api.find_string_submatch
                    (codes "(\\d{4})年(\\d{1,2})月(\\d{1,2})日\\s*(\\d{1,2})时(\\d{1,2})分") input))
                (parse_chinese_period input)))))
